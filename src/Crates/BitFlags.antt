-- ===== src/Crates/BitFlags.antt =====
-- The methods that the `bitflags!` macro of the bitflags crate generates for a struct over `u64`.
-- A value is its `bits`; a single flag is the constant `1 << k`.
use silicium_rs.Base.{ℕ, ◌^◌, ◌<◌, ◌≡◌, Bool, false, not, ◌&&◌, ◌||◌, ◌==◌}

pub record BitFlags : Type 0 where
  pub contains : ℕ → ℕ → Bool
  pub insert : ℕ → ℕ → ℕ
  pub remove : ℕ → ℕ → ℕ
  -- `|`, of two values
  pub union : ℕ → ℕ → ℕ
  -- `from_bits_truncate`, for a struct with the given bits
  pub truncate : ℕ → ℕ → ℕ
  pub contains-empty : (k : ℕ) → contains 0 (2 ^ k) ≡ false
  pub contains-bit : (j k : ℕ) → contains (2 ^ j) (2 ^ k) ≡ (j == k)
  pub contains-insert :
      (a j k : ℕ) → contains (insert a (2 ^ j)) (2 ^ k) ≡ ((j == k) || contains a (2 ^ k))
  pub contains-remove :
      (a j k : ℕ)
      → j < 64
      → k < 64
      → contains (remove a (2 ^ j)) (2 ^ k) ≡ (not (j == k) && contains a (2 ^ k))
  pub contains-union :
      (a b k : ℕ) → contains (union a b) (2 ^ k) ≡ (contains a (2 ^ k) || contains b (2 ^ k))
  pub contains-truncate :
      (all a k : ℕ)
      → contains (truncate all a) (2 ^ k) ≡ (contains all (2 ^ k) && contains a (2 ^ k))
