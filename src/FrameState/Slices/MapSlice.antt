-- ===== src/FrameState/Slices/MapSlice.antt =====
-- A loop over a part of a slice against a map over it.
use silicium_rs.Base.{
  ap, ℕ, zero, suc, ◌+◌, ◌≡◌, refl, ◌&&◌, ltb, leb, some, List, [], ◌∷◌, arith, get_elem?, length,
  if◌then◌else◌, Outcome, done,
}
use silicium_rs.FrameState.Slices.{update_slice}

module _ {A : Type 0} (g : A → A) where
  abbrev pub map_slice : ℕ → ℕ → List A → List A
  map_slice start n [] = []
  map_slice zero zero (a ∷ xs) = a ∷ xs
  map_slice zero (suc n) (a ∷ xs) = g a ∷ map_slice zero n xs
  map_slice (suc start) n (a ∷ xs) = a ∷ map_slice start n xs

  pub length-map_slice : (start n : ℕ) (xs : List A) → length (map_slice start n xs) ≡ length xs
  length-map_slice start n [] = refl
  length-map_slice zero zero (a ∷ xs) = refl
  length-map_slice zero (suc n) (a ∷ xs) = ap suc (length-map_slice zero n xs)
  length-map_slice (suc start) n (a ∷ xs) = ap suc (length-map_slice start n xs)

  pub get_elem?-map_slice :
      (start n : ℕ) (xs : List A) (j : ℕ) (a : A)
      → get_elem? xs j ≡ some a
      → get_elem? (map_slice start n xs) j
        ≡ some (if leb start j && ltb j (start + n) then g a else a)
  get_elem?-map_slice start n [] j a h = cc
  get_elem?-map_slice zero zero (b ∷ xs) j a h = ground (arith, h)
  get_elem?-map_slice zero (suc n) (b ∷ xs) zero a h = ground (arith, h)
  get_elem?-map_slice zero (suc n) (b ∷ xs) (suc j) a h =
      ground (arith, get_elem?-map_slice zero n xs j a h)
  get_elem?-map_slice (suc start) n (b ∷ xs) zero a h = ground (arith, h)
  get_elem?-map_slice (suc start) n (b ∷ xs) (suc j) a h =
      ground (arith, get_elem?-map_slice start n xs j a h)

  -- A body that always returns, with a result that does not depend on the state.
  pub update_slice-map_slice :
      {S : Type 0} (f : A → S → Outcome (A × S))
      → ((a : A) (s : S) → (s' : S) × (f a s ≡ done (g a, s')))
      → (start n : ℕ) (xs : List A) (s : S)
      → (s' : S) × (update_slice f start n xs s ≡ done (map_slice start n xs, s'))
  unfolding update_slice
  update_slice-map_slice f h start n [] s = (s, refl)
  update_slice-map_slice f h zero zero (a ∷ xs) s = (s, refl)
  update_slice-map_slice f h zero (suc n) (a ∷ xs) s =
      let (t, e) = h a s in
      let (u, d) = update_slice-map_slice f h zero n xs t in (u, rw (e, d) refl)
  update_slice-map_slice f h (suc start) n (a ∷ xs) s =
      let (u, d) = update_slice-map_slice f h start n xs s in (u, rw d refl)
