-- ===== src/Paging/Space.antt =====
-- The page tables that a memory holds, by their levels, and the invariant that ties them to the
-- frame allocator.
use mathlib.Core.Option.{some-injective}
use silicium_rs.Base.{
  ◌∙◌, ap, sym, ℕ, suc, ◌+◌, ◌*◌, ◌%◌, ◌<◌, ◌≡◌, ◌≢◌, true, Option, none, some, arith, done,
  get_elem?,
}
use silicium_rs.Crates.Addresses.{Addresses, Virtual}
use silicium_rs.Crates.BitFlags.{BitFlags}
use silicium_rs.Crates.PageTables.{PageTables, Level}
use silicium_rs.FrameState.{FrameInfo}
use silicium_rs.Allocator.{Memory, Frames, is_free}
use silicium_rs.Allocator.Invariant.{IsWf}
use silicium_rs.Paging.{next_table}

-- The level of the page table at an address, if there is one.
abbrev pub Typing : Type 0
Typing = Virtual → Option Level

abbrev pub direct_map : ℕ → Virtual
direct_map p = p + 0xffff_8000_0000_0000

module _ ⦃x : Addresses⦄ ⦃bits : BitFlags⦄ ⦃pt : PageTables⦄ where
  -- Each present entry of a table that is not of the last level leads to a table of the next one.
  pub record IsSpace (ty : Typing) (m : Memory) : Type 0 where
    pub aligned : (b : Virtual) (l : Level) → ty b ≡ some l → b % 4096 ≡ 0
    pub children :
        (b : Virtual) (l : Level) (i : ℕ)
        → ty b ≡ some (suc l)
        → i < 512
        → pt.is_present (m (b + i * 8)) ≡ true
        → (next : Virtual) × (next_table (m (b + i * 8)) ≡ done next) × (ty next ≡ some l)

  -- No free frame is a table.
  abbrev pub FreeApart : Typing → Frames → Type 0
  FreeApart ty s =
      (i : ℕ) (info : FrameInfo)
      → get_elem? s.array i ≡ some info
      → is_free info ≡ true
      → ty (direct_map (i * 4096)) ≡ none

  pub record IsPaged (pinned : ℕ) (ty : Typing) (s : Frames) : Type 0 where
    pub wf : IsWf pinned s
    pub space : IsSpace ty s.memory
    pub apart : FreeApart ty s

-- The entries of tables of different levels are different words.
pub slot-ne :
    (ty : Typing) (b c : Virtual) (k l i j : ℕ)
    → ty b ≡ some k
    → ty c ≡ some l
    → b % 4096 ≡ 0
    → c % 4096 ≡ 0
    → i < 512
    → j < 512
    → k ≢ l
    → b + i * 8 ≢ c + j * 8
slot-ne ty b c k l i j p q v w hi hj ne e =
    let same : b ≡ c = omega arith in ne (some-injective k l (sym p ∙ ap ty same ∙ q))
