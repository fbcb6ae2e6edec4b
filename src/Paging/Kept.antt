-- ===== src/Paging/Kept.antt =====
-- Walks in a memory whose tables have not changed.
use mathlib.Core.Option.{some-injective}
use silicium_rs.Base.{
  add64-eq, subst, ℕ, suc, ◌+◌, ◌*◌, ◌%◌, ◌<◌, ◌≤◌, ◌≡◌, true, Option, none, some, arith, done, inl,
  inr, Bool-cases, if◌then◌else◌, done_injective, done_unique, ◌>>=◌, >>=-eq-done,
}
use silicium_rs.Crates.Addresses.{Addresses, Virtual}
use silicium_rs.Crates.BitFlags.{BitFlags}
use silicium_rs.Crates.PageTables.{PageTables, Level, PageEntry}
use silicium_rs.Allocator.{Memory}
use silicium_rs.Paging.{slot, fetch_pte, present_entry, entry_target, translate}
use silicium_rs.Paging.Walk.{Walk, leaf, down, fetch_pte_of_Walk, fetch_pte-Walk}
use silicium_rs.Paging.Space.{Typing, IsSpace}

module _ ⦃x : Addresses⦄ ⦃bits : BitFlags⦄ ⦃pt : PageTables⦄ where
  -- The tables are the same in both memories where the entries of the first lead to tables.
  abbrev pub InnerKept : Typing → Memory → Memory → Type 0
  InnerKept ty m m' =
      (c : Virtual) (k j : ℕ)
      → ty c ≡ some (suc k)
      → j < 512
      → pt.is_present (m (c + j * 8)) ≡ true
      → m' (c + j * 8) ≡ m (c + j * 8)

  pub Walk-kept :
      (ty : Typing) (m m' : Memory) (at : Virtual) {l : Level} {table e : Virtual}
      → IsSpace ty m
      → ty table ≡ some l
      → InnerKept ty m m'
      → Walk m at l table e
      → Walk m' at l table e
  Walk-kept ty m m' at s q k (leaf h) = leaf h
  Walk-kept ty m m' at s q k (down {l} {table} p n w) =
      let i = pt.page_index at (suc l) in
      let same = k table l i q (pt.page_index-lt at (suc l)) p in
      let (next, n', t) = s.children table l i q (pt.page_index-lt at (suc l)) p in
      down (rw same p) (rw same n)
        (Walk-kept ty m m' at s (subst (λ b. ty b ≡ some l) (done_unique n' n) t) k w)

  -- The entry at the end of a walk is in a table of the last level.
  pub Walk-typed :
      (ty : Typing) (m : Memory) (at : Virtual) {l : Level} {table e : Virtual}
      → IsSpace ty m
      → ty table ≡ some l
      → Walk m at l table e
      → (last : Virtual) × (e ≡ slot last 0 at) × (ty last ≡ some 0)
  Walk-typed ty m at {table} s q (leaf h) = (table, h, q)
  Walk-typed ty m at s q (down {l} {table} p n w) =
      let i = pt.page_index at (suc l) in
      let (next, n', t) = s.children table l i q (pt.page_index-lt at (suc l)) p in
      Walk-typed ty m at s (subst (λ b. ty b ≡ some l) (done_unique n' n) t) w

  pub present_entry_of_Walk :
      (m : Memory) (at table e : Virtual)
      → Walk m at pt.page_map_level4 table e
      → present_entry table at m ≡ (if pt.is_present (m e) then done (some e) else done none)
  unfolding present_entry
  present_entry_of_Walk m at table e w = elim (Bool-cases (pt.is_present (m e))) [
    | inl p ↦ ground (arith, fetch_pte_of_Walk m at w, p)
    | inr p ↦ ground (arith, fetch_pte_of_Walk m at w, p)
  ]

  pub present_entry-Walk :
      (m : Memory) (at table e : Virtual)
      → present_entry table at m ≡ done (some e)
      → Walk m at pt.page_map_level4 table e × (pt.is_present (m e) ≡ true)
  unfolding present_entry
  present_entry-Walk m at table e h =
      let (r, f, g) = >>=-eq-done (fetch_pte pt.page_map_level4 table at m) _ h in found r f g
    where
      found :
          (r : Option Virtual)
          → fetch_pte pt.page_map_level4 table at m ≡ done r
          → elim r [
            | none ↦ done none
            | some pte ↦ if pt.is_present (m pte) then done (some pte) else done none
          ]
            ≡ done (some e)
          → Walk m at pt.page_map_level4 table e × (pt.is_present (m e) ≡ true)
      found none f g = cc
      found (some pte) f g =
          let (w, p) = fetch_pte-Walk m at pt.page_map_level4 table pte f in
          let same : pte ≡ e = some-injective pte e (done_injective (rw p at g)) in
          subst (λ b. Walk m at pt.page_map_level4 table b × (pt.is_present (m b) ≡ true)) same
            (w, p)

  -- What an entry and an address give.
  pub entry_target-eq :
      (v : PageEntry) (at a : ℕ)
      → pt.address v ≡ some a
      → a + 4096 ≤ 0x10_0000_0000_0000
      → entry_target v at ≡ done (a + at % 4096)
  unfolding entry_target
  entry_target-eq v at a h k =
      ground (arith, h, add64-eq a (at % 4096), x.physical_new-valid (a + at % 4096))

  pub translate_of_Walk :
      (m : Memory) (at table e : Virtual) (p : ℕ)
      → Walk m at pt.page_map_level4 table e
      → pt.is_present (m e) ≡ true
      → entry_target (m e) at ≡ done p
      → translate table at m ≡ done (some p)
  unfolding translate
  translate_of_Walk m at table e p w h t =
      ground (arith, present_entry_of_Walk m at table e w, h, t)

  -- Whatever `translate` returns comes from a present entry at the end of a walk.
  pub translate-Walk :
      (m : Memory) (at table : Virtual) (p : ℕ)
      → translate table at m ≡ done (some p)
      → (e : Virtual) × Walk m at pt.page_map_level4 table e
        × (pt.is_present (m e) ≡ true)
        × (entry_target (m e) at ≡ done p)
  unfolding translate
  translate-Walk m at table p h =
      let (r, f, g) = >>=-eq-done (present_entry table at m) _ h in found r f g
    where
      found :
          (r : Option Virtual)
          → present_entry table at m ≡ done r
          → elim r [
            | none ↦ done none
            | some pte ↦ do target ← entry_target (m pte) at; done (some target)
          ]
            ≡ done (some p)
          → (e : Virtual) × Walk m at pt.page_map_level4 table e
            × (pt.is_present (m e) ≡ true)
            × (entry_target (m e) at ≡ done p)
      found none f g = cc
      found (some pte) f g =
          let (w, q) = present_entry-Walk m at table pte f in
          let (a, t, u) = >>=-eq-done (entry_target (m pte) at) _ g in
          let same : a ≡ p = some-injective a p (done_injective u) in
          (pte, w, q, subst (λ b. entry_target (m pte) at ≡ done b) same t)
