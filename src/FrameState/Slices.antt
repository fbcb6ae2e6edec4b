-- ===== src/FrameState/Slices.antt =====
-- Loops over a part of a slice, and searches in a slice.
pub mod Laws
pub mod MapSlice
use silicium_rs.Base.{
  ℕ, zero, suc, Bool, Option, none, some, List, [], ◌∷◌, if◌then◌else◌, Outcome, done, ◌>>=◌,
}

-- `for x in &mut xs[start..start + n] { f(x) }`, for bounds that are in range. The state that `f`
-- changes is passed along.
module _ {A S : Type 0} (f : A → S → Outcome (A × S)) where
  unfoldable pub update_slice : ℕ → ℕ → List A → S → Outcome (List A × S)
  update_slice start n [] s = done ([], s)
  update_slice zero zero (a ∷ xs) s = done (a ∷ xs, s)
  update_slice zero (suc n) (a ∷ xs) s = do
    (b, s') ← f a s
    (bs, t) ← update_slice zero n xs s'
    done (b ∷ bs, t)
  update_slice (suc start) n (a ∷ xs) s = do (bs, t) ← update_slice start n xs s; done (a ∷ bs, t)

module _ {ℓ} {A : Type ℓ} where
  -- `xs.iter().find(test)`: the first element that passes, with its index.
  unfoldable pub find : (A → Bool) → List A → Option (ℕ × A)
  find test [] = none
  find test (a ∷ xs) =
      if test a
      then some (0, a)
      else elim (find test xs) [ none ↦ none | some (i, b) ↦ some (suc i, b) ]
