-- ===== src/Paging/Grow.antt =====
-- Changes of the memory that keep its page tables: a new table, and a write of an entry.
use mathlib.Core.Option.{some-injective}
use silicium_rs.Base.{
  ◌∙◌, ap, sym, ℕ, suc, ◌+◌, ◌*◌, ◌%◌, ◌<◌, ◌≡◌, false, none, some, arith, done, if◌then◌else◌,
  ◌==◌, ℕ_discrete, eq→==, ne→==,
}
use silicium_rs.Crates.Addresses.{Addresses, Virtual}
use silicium_rs.Crates.BitFlags.{BitFlags}
use silicium_rs.Crates.PageTables.{PageTables, Level, PageEntry}
use silicium_rs.Allocator.{Memory}
use silicium_rs.Paging.{next_table, write}
use silicium_rs.Paging.Space.{Typing, IsSpace, slot-ne}

abbrev pub assign : Typing → Virtual → Level → Typing
assign ty b l a = if b == a then some l else ty a

abbrev pub Extends : Typing → Typing → Type 0
Extends ty ty' = (b : Virtual) (k : Level) → ty b ≡ some k → ty' b ≡ some k

pub assign-Extends :
    (ty : Typing) (b : Virtual) (l : Level) → ty b ≡ none → Extends ty (assign ty b l)
assign-Extends ty b l h c k p = elim (ℕ_discrete b c) [
  | yes e ↦ absurd (ground (arith, ap ty e))
  | no n ↦ rw (ne→== b c n) p
]

module _ ⦃x : Addresses⦄ ⦃bits : BitFlags⦄ ⦃pt : PageTables⦄ where
  -- A page with no present entry becomes a table.
  pub IsSpace-assign :
      (ty : Typing) (m m' : Memory) (b : Virtual) (l : Level)
      → IsSpace ty m
      → b % 4096 ≡ 0
      → ty b ≡ none
      → ((c : Virtual) (k : Level) (j : ℕ)
          → ty c ≡ some k
          → j < 512
          → m' (c + j * 8) ≡ m (c + j * 8))
      → ((j : ℕ) → j < 512 → pt.is_present (m' (b + j * 8)) ≡ false)
      → IsSpace (assign ty b l) m'
  IsSpace-assign ty m m' b l v al fresh same blank = record {
    aligned = λ c k p. elim (ℕ_discrete b c) [
      | yes e ↦ omega arith
      | no n ↦ v.aligned c k (rw (ne→== b c n) at p)
    ];
    children = λ c k j p hj pr. elim (ℕ_discrete b c) [
      | yes e ↦ absurd (ground (arith, blank j hj, ap (λ (a : ℕ). m' (a + j * 8)) e))
      | no n ↦
          let q : ty c ≡ some (suc k) = rw (ne→== b c n) at p in
          let s = same c (suc k) j q hj in
          let (next, r, t) = v.children c k j q hj (rw s at pr) in
          (next, rw s r, assign-Extends ty b l fresh next k t)
    ];
  }

  -- An entry that is no leaf is made to lead to a table.
  pub IsSpace-write :
      (ty : Typing) (m : Memory) (b : Virtual) (i : ℕ) (l : Level) (v : PageEntry) (n : Virtual)
      → IsSpace ty m
      → ty b ≡ some (suc l)
      → i < 512
      → next_table v ≡ done n
      → ty n ≡ some l
      → IsSpace ty (write m (b + i * 8) v)
  IsSpace-write ty m b i l v n s p hi q t = record {
    aligned = s.aligned;
    children = λ c k j pc hj pr. elim (ℕ_discrete (b + i * 8) (c + j * 8)) [
      | yes e ↦
          let same : b ≡ c = omega (arith, s.aligned b (suc l) p, s.aligned c (suc k) pc) in
          let lk : suc l ≡ suc k = some-injective _ _ (sym p ∙ ap ty same ∙ pc) in
          (n, rw (eq→== (b + i * 8) (c + j * 8) e) q, t ∙ ap some (omega arith))
      | no ne ↦
          let (next, r, u) = s.children c k j pc hj (rw (ne→== (b + i * 8) (c + j * 8) ne) at pr) in
          (next, rw (ne→== (b + i * 8) (c + j * 8) ne) r, u)
    ];
  }

  -- A leaf may be written at will.
  pub IsSpace-write_leaf :
      (ty : Typing) (m : Memory) (b : Virtual) (i : ℕ) (v : PageEntry)
      → IsSpace ty m
      → ty b ≡ some 0
      → i < 512
      → IsSpace ty (write m (b + i * 8) v)
  IsSpace-write_leaf ty m b i v s p hi = record {
    aligned = s.aligned;
    children = λ c k j pc hj pr.
        let ne =
          slot-ne ty b c 0 (suc k) i j p pc (s.aligned b 0 p) (s.aligned c (suc k) pc) hi hj
            (omega arith) in
        let (next, r, u) = s.children c k j pc hj (rw (ne→== (b + i * 8) (c + j * 8) ne) at pr) in
        (next, rw (ne→== (b + i * 8) (c + j * 8) ne) r, u);
  }
