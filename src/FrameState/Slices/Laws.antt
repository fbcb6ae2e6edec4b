-- ===== src/FrameState/Slices/Laws.antt =====
-- What `find` finds.
use silicium_rs.Base.{
  ℕ, zero, suc, ◌<◌, ◌≡◌, refl, ◌⊎◌, inl, inr, Bool, true, false, none, some, List, [], ◌∷◌, arith,
  get_elem?, Bool-cases, some,
}
use silicium_rs.FrameState.Slices.{find}

module _ {ℓ} {A : Type ℓ} (test : A → Bool) where
  abbrev pub NoneBefore : ℕ → List A → Type ℓ
  NoneBefore i xs = (j : ℕ) (b : A) → j < i → get_elem? xs j ≡ some b → test b ≡ false

  abbrev pub NoneIn : List A → Type ℓ
  NoneIn xs = (j : ℕ) (b : A) → get_elem? xs j ≡ some b → test b ≡ false

  NoneBefore-suc :
      (i : ℕ) (a : A) (xs : List A) → test a ≡ false → NoneBefore i xs → NoneBefore (suc i) (a ∷ xs)
  NoneBefore-suc i a xs t h zero b lt e = ground arith
  NoneBefore-suc i a xs t h (suc j) b lt e = h j b (omega arith) e

  NoneIn-cons : (a : A) (xs : List A) → test a ≡ false → NoneIn xs → NoneIn (a ∷ xs)
  NoneIn-cons a xs t h zero b e = ground arith
  NoneIn-cons a xs t h (suc j) b e = h j b e

  -- Either no element passes and nothing is found, or the first that passes is.
  pub find_cases :
      (xs : List A)
      → ((find test xs ≡ none) × NoneIn xs)
        ⊎ ((i : ℕ) × (a : A) × (find test xs ≡ some (i, a))
            × (get_elem? xs i ≡ some a)
            × (test a ≡ true)
            × NoneBefore i xs)
  unfolding find
  find_cases [] = inl (refl, λ j b e. cc)
  find_cases (a ∷ xs) = elim (Bool-cases (test a)) [
    | inl t ↦ inr (0, a, rw t, refl, t, λ j b lt e. elim lt [ ])
    | inr t ↦ elim (find_cases xs) [
      | inl (e, h) ↦ inl (rw (t, e), NoneIn-cons a xs t h)
      | inr (i, b, e, g, p, h) ↦ inr (suc i, b, rw (t, e), g, p, NoneBefore-suc i a xs t h)
    ]
  ]
