-- ===== src/Paging/Unmap.antt =====
-- `unmap`, `protection` and `change_protection`, and a `map` of an address that is mapped.
use silicium_rs.Base.{
  sym, subst, ℕ, ◌≡◌, refl, false, Option, none, some, arith, done, done_injective, ◌>>=◌,
  >>=-eq-done, eq→==,
}
use silicium_rs.Crates.Addresses.{Addresses, Virtual}
use silicium_rs.Crates.BitFlags.{BitFlags}
use silicium_rs.Crates.PageTables.{PageTables, Level, PageEntry}
use silicium_rs.Frame.{Frame}
use silicium_rs.Allocator.{Memory, Frames}
use silicium_rs.Paging.{
  Machine, Cpu, err, already_mapped, write, ensure_entry, creat_and_fetch_pte, map, unmap,
  present_entry, entry_target, translate, shootdown,
}
use silicium_rs.Paging.Walk.{Walk, leaf, down}
use silicium_rs.Paging.Space.{Typing, IsSpace, IsPaged}
use silicium_rs.Paging.Grow.{IsSpace-write_leaf}
use silicium_rs.Paging.Kept.{
  InnerKept, Walk-kept, Walk-typed, translate-Walk, present_entry_of_Walk,
}
use silicium_rs.Paging.Translation.{InnerKept-write}

module _ ⦃x : Addresses⦄ ⦃bits : BitFlags⦄ ⦃pt : PageTables⦄ where
  creat_and_fetch_pte_of_Walk :
      (at : Virtual) (s : Frames) {l : Level} {table e : Virtual}
      → Walk s.memory at l table e
      → creat_and_fetch_pte l table at s ≡ done (some e, s)
  unfolding creat_and_fetch_pte ensure_entry
  creat_and_fetch_pte_of_Walk at s (leaf q) = rw q
  creat_and_fetch_pte_of_Walk at s (down p q w) = rw (p, q) (creat_and_fetch_pte_of_Walk at s w)

  -- A `map` of an address that translates returns `already_mapped` and changes nothing.
  pub map-already_mapped :
      (table at : Virtual) (f : Frame) (flags p : ℕ) (s : Frames)
      → translate table at s.memory ≡ done (some p)
      → map table at f flags s ≡ done (err already_mapped, s)
  unfolding map
  map-already_mapped table at f flags p s h =
      let (e, w, pr, _) = translate-Walk s.memory at table p h in
      ground (arith, creat_and_fetch_pte_of_Walk at s w, pr)

  -- A write of the entry of an address leaves its walk.
  pub write-Walk :
      (ty : Typing) (m : Memory) (at table e : Virtual) (v : PageEntry)
      → IsSpace ty m
      → ty table ≡ some pt.page_map_level4
      → Walk m at pt.page_map_level4 table e
      → Walk (write m e v) at pt.page_map_level4 table e × IsSpace ty (write m e v)
  write-Walk ty m at table e v s q w =
      let (last, le, lt) = Walk-typed ty m at s q w in
      (
        Walk-kept ty m (write m e v) at s q
            (subst (λ b. InnerKept ty m (write m b v)) (sym le)
              (InnerKept-write ty m last at v s lt))
            w,
        subst (λ b. IsSpace ty (write m b v)) (sym le)
            (IsSpace-write_leaf ty m last (pt.page_index at 0) v s lt (pt.page_index-lt at 0)),
      )

  -- An address with no present entry has no translation.
  pub unmapped-translate :
      (m : Memory) (at table e : Virtual)
      → Walk m at pt.page_map_level4 table e
      → pt.is_present (m e) ≡ false
      → translate table at m ≡ done none
  unfolding translate
  unmapped-translate m at table e w h = ground (arith, present_entry_of_Walk m at table e w, h)

  -- The state with another memory.
  abbrev pub with_memory : Machine → Memory → Cpu → Machine
  with_memory s m c = record { frames = record s.frames { memory = m }; cpu = c }

  pub IsPaged-memory :
      (pinned : ℕ) (ty : Typing) (s : Frames) (m : Memory)
      → IsPaged pinned ty s
      → IsSpace ty m
      → IsPaged pinned ty (record s { memory = m })
  IsPaged-memory pinned ty s m v h = record {
    wf = record {
      infos = v.wf.infos;
      small = v.wf.small;
      accounted = v.wf.accounted;
      few_pinned = v.wf.few_pinned;
    };
    space = h;
    apart = v.apart;
  }

  -- On well-formed page tables, `unmap` in a root table of an address that translates returns the
  -- translation, flushes the TLBs, and leaves well-formed page tables in which the address has
  -- none.
  pub unmap-translate :
      (pinned : ℕ) (ty : Typing) (table at : Virtual) (p : ℕ) (s : Machine)
      → IsPaged pinned ty s.frames
      → ty table ≡ some pt.page_map_level4
      → translate table at s.frames.memory ≡ done (some p)
      → (m : Memory) × (unmap table at s ≡ done (some p, with_memory s m (shootdown s.cpu)))
        × (translate table at m ≡ done none)
        × IsPaged pinned ty (record s.frames { memory = m })
  unfolding unmap
  unmap-translate pinned ty table at p s v q h =
      let m = s.frames.memory in
      let (e, w, pr, t) = translate-Walk m at table p h in
      let m' = write m e (pt.clear (m e)) in
      let (w', sp) = write-Walk ty m at table e (pt.clear (m e)) v.space q w in
      let here : m' e ≡ pt.clear (m e) = rw (eq→== e e refl) in
      (
        m',
        ground (arith, present_entry_of_Walk m at table e w, pr, t),
        unmapped-translate m' at table e w' (rw here (pt.is_present-clear (m e))),
        IsPaged-memory pinned ty s.frames m' v sp,
      )

  -- `unmap` of an address with no translation returns nothing and changes nothing.
  pub unmap-none :
      (table at : Virtual) (s : Machine)
      → translate table at s.frames.memory ≡ done none
      → unmap table at s ≡ done (none, s)
  unfolding unmap translate
  unmap-none table at s h =
      let (r, f, g) = >>=-eq-done (present_entry table at s.frames.memory) _ h in found r f g
    where
      found :
          (r : Option Virtual)
          → present_entry table at s.frames.memory ≡ done r
          → elim r [
            | none ↦ done none
            | some pte ↦ do target ← entry_target (s.frames.memory pte) at; done (some target)
          ]
            ≡ done none
          → unmap table at s ≡ done (none, s)
      found none f g = ground (arith, f)
      found (some pte) f g =
          let (a, t, u) = >>=-eq-done (entry_target (s.frames.memory pte) at) _ g in
          ground (arith, done_injective u)
