-- ===== src/Smp/Totals.antt =====
-- Sums over the cores.
use mathlib.Core.Option.{some-injective}
use silicium_rs.Base.{
  ℕ, zero, suc, ◌+◌, ◌*◌, ◌≤◌, ◌<◌, ◌≡◌, ◌≢◌, refl, ap, arith, some, List, [], ◌∷◌, length,
  get_elem?, set, ℕ_discrete,
}

module _ {A : Type 0} (w : A → ℕ) where
  pub total : List A → ℕ
  total [] = 0
  total (a ∷ xs) = w a + total xs

  pub total-set :
      (xs : List A) (i : ℕ) (a b : A)
      → get_elem? xs i ≡ some a
      → total (set xs i b) + w a ≡ total xs + w b
  unfolding total
  total-set [] i a b h = cc
  total-set (c ∷ xs) zero a b h = ground (arith, ap w (some-injective c a h))
  total-set (c ∷ xs) (suc i) a b h = omega (arith, total-set xs i a b h)

  pub total-zero :
      (xs : List A) → ((j : ℕ) (a : A) → get_elem? xs j ≡ some a → w a ≡ 0) → total xs ≡ 0
  unfolding total
  total-zero [] h = refl
  total-zero (a ∷ xs) h = omega (arith, h 0 a refl, total-zero xs (λ j b g. h (suc j) b g))

  pub total-le_length : ((a : A) → w a ≤ 1) → (xs : List A) → total xs ≤ length xs
  unfolding total
  total-le_length h [] = omega arith
  total-le_length h (a ∷ xs) = omega (arith, h a, total-le_length h xs)

  pub total-le_nine : ((a : A) → w a ≤ 9) → (xs : List A) → total xs ≤ 9 * length xs
  unfolding total
  total-le_nine h [] = omega arith
  total-le_nine h (a ∷ xs) = omega (arith, h a, total-le_nine h xs)

  pub total-lt :
      ((a : A) → w a ≤ 1)
      → (xs : List A) (i : ℕ) (a : A) → get_elem? xs i ≡ some a
      → w a ≡ 0
      → total xs < length xs
  unfolding total
  total-lt h [] i a g z = cc
  total-lt h (c ∷ xs) zero a g z = ground (arith, ap w (some-injective c a g), total-le_length h xs)
  total-lt h (c ∷ xs) (suc i) a g z = omega (arith, h c, total-lt h xs i a g z)

  total-full :
      ((a : A) → w a ≤ 1)
      → (xs : List A) (j : ℕ) (b : A) → total xs ≡ length xs
      → get_elem? xs j ≡ some b
      → w b ≡ 1
  unfolding total
  total-full h [] j b e f = cc
  total-full h (c ∷ xs) zero b e f =
      ground (arith, ap w (some-injective c b f), h c, total-le_length h xs)
  total-full h (c ∷ xs) (suc j) b e f =
      total-full h xs j b (omega (arith, h c, total-le_length h xs)) f

  -- If all but one are to be counted, and one is not, every other is.
  pub total-all :
      ((a : A) → w a ≤ 1)
      → (xs : List A) (i j : ℕ) (a b : A) → get_elem? xs i ≡ some a
      → w a ≡ 0
      → suc (total xs) ≡ length xs
      → i ≢ j
      → get_elem? xs j ≡ some b
      → w b ≡ 1
  unfolding total
  total-all h [] i j a b g z e n f = cc
  total-all h (c ∷ xs) zero zero a b g z e n f = absurd (n refl)
  total-all h (c ∷ xs) zero (suc j) a b g z e n f =
      total-full h xs j b (ground (arith, ap w (some-injective c a g))) f
  total-all h (c ∷ xs) (suc i) zero a b g z e n f =
      ground (arith, ap w (some-injective c b f), h c, total-lt h xs i a g z)
  total-all h (c ∷ xs) (suc i) (suc j) a b g z e n f =
      total-all h xs i j a b g z (omega (arith, h c, total-lt h xs i a g z)) (λ p. n (ap suc p)) f

  total-none :
      ((a : A) → w a ≤ 1)
      → (xs : List A) → total xs < length xs
      → (j : ℕ) × (a : A) × (get_elem? xs j ≡ some a) × (w a ≡ 0)
  unfolding total
  total-none h [] lt = absurd (omega arith)
  total-none h (c ∷ xs) lt = elim (ℕ_discrete (w c) 0) [
    | yes z ↦ (0, c, refl, z)
    | no n ↦ let (j, a, g, z) = total-none h xs (omega (arith, h c, n)) in (suc j, a, g, z)
  ]

  -- If two are not counted, one of them is not at a given index.
  pub total-other :
      ((a : A) → w a ≤ 1)
      → (xs : List A) (i : ℕ) → suc (total xs) < length xs
      → (j : ℕ) × (a : A) × (get_elem? xs j ≡ some a) × (i ≢ j) × (w a ≡ 0)
  unfolding total
  total-other h [] i lt = absurd (omega arith)
  total-other h (c ∷ xs) zero lt =
      let (j, a, g, z) = total-none h xs (omega arith) in
      (suc j, a, g, λ e. absurd (omega arith), z)
  total-other h (c ∷ xs) (suc i) lt = elim (ℕ_discrete (w c) 0) [
    | yes z ↦ (0, c, refl, λ e. absurd (omega arith), z)
    | no n ↦
        let (j, a, g, ne, z) = total-other h xs i (omega (arith, h c, n)) in
        (suc j, a, g, λ e. ne (omega arith), z)
  ]
