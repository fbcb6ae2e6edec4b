-- ===== src/Paging/Walk.antt =====
-- The walk from a table down to the entry of an address, as a relation.
use mathlib.Core.Option.{some-injective}
use silicium_rs.Base.{
  done_injective, ◌∙◌, ap, sym, ℕ, zero, suc, ◌+◌, ◌*◌, ◌/◌, ◌≡◌, true, none, some, arith, done,
  inl, inr, Bool-cases, if◌then◌else◌, >>=-eq-done,
}
use silicium_rs.Crates.Addresses.{Addresses, Virtual}
use silicium_rs.Crates.BitFlags.{BitFlags}
use silicium_rs.Crates.PageTables.{PageTables, Level}
use silicium_rs.Allocator.{Memory}
use silicium_rs.Paging.{slot, next_table, fetch_pte}

module _ ⦃x : Addresses⦄ ⦃bits : BitFlags⦄ ⦃pt : PageTables⦄ where
  -- From a table of a level the entries that are not leaves are present and lead down to a table
  -- of the last level, in which the entry of the address is.
  pub data Walk (m : Memory) (at : Virtual) : Level → Virtual → Virtual → Type 0 where
    leaf : {table e : Virtual} → e ≡ slot table zero at → Walk m at zero table e
    down :
        {l : Level} {table next e : Virtual}
        → pt.is_present (m (slot table (suc l) at)) ≡ true
        → next_table (m (slot table (suc l) at)) ≡ done next
        → Walk m at l next e
        → Walk m at (suc l) table e

  pub fetch_pte_of_Walk :
      (m : Memory) (at : Virtual) {l : Level} {table e : Virtual}
      → Walk m at l table e
      → fetch_pte l table at m ≡ (if pt.is_present (m e) then done (some e) else done none)
  unfolding fetch_pte
  fetch_pte_of_Walk m at (leaf q) = rw q
  fetch_pte_of_Walk m at (down p q w) = rw (p, q) (fetch_pte_of_Walk m at w)

  -- Whatever `fetch_pte` finds is at the end of a walk, and present.
  pub fetch_pte-Walk :
      (m : Memory) (at : Virtual) (l : Level) (table e : Virtual)
      → fetch_pte l table at m ≡ done (some e)
      → Walk m at l table e × (pt.is_present (m e) ≡ true)
  unfolding fetch_pte
  fetch_pte-Walk m at zero table e h = elim (Bool-cases (pt.is_present (m (slot table zero at)))) [
    | inl p ↦
        let q : slot table zero at ≡ e = some-injective _ _ (done_injective (rw p at h)) in
        (leaf (sym q), rw (← q) p)
    | inr p ↦ ground (arith, p)
  ]
  fetch_pte-Walk m at (suc l) table e h =
      elim (Bool-cases (pt.is_present (m (slot table (suc l) at)))) [
        | inl p ↦
            let (next, q, r) = >>=-eq-done (next_table (m (slot table (suc l) at))) _ (rw p at h) in
            let (w, t) = fetch_pte-Walk m at l next e r in (down p q w, t)
        | inr p ↦ ground (arith, p)
      ]

  -- The addresses of one page.
  abbrev pub SamePage : Virtual → Virtual → Type 0
  SamePage at a = (l : Level) → pt.page_index at l ≡ pt.page_index a l

  pub SamePage-of : (at a : Virtual) → at / 4096 ≡ a / 4096 → SamePage at a
  SamePage-of at a h l =
      sym (pt.page_index_page at l)
      ∙ ap (λ (n : ℕ). pt.page_index (n * 4096) l) h
      ∙ pt.page_index_page a l

  pub Walk-SamePage :
      (m : Memory) (at a : Virtual) {l : Level} {table e : Virtual}
      → SamePage at a
      → Walk m at l table e
      → Walk m a l table e
  Walk-SamePage m at a h (leaf {table} q) = leaf (q ∙ ap (λ i. table + i * 8) (h 0))
  Walk-SamePage m at a h (down {l} {table} p q w) =
      let s = ap (λ i. m (table + i * 8)) (h (suc l)) in
      down (ap (λ (v : ℕ). pt.is_present v) (sym s) ∙ p) (ap next_table (sym s) ∙ q)
        (Walk-SamePage m at a h w)
