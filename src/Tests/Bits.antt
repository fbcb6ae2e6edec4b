-- ===== src/Tests/Bits.antt =====
-- The flags of the bitflags crate on the bits of a `u64`.
use Prim.Native.Nat.{min, max, bit_and, bit_or, digits, bitwise, bit_and-bitwise, bit_or-bitwise}
use native.Mathlib.Nat.{pow-suc}
use silicium_rs.Base.{
  ap, ℕ, zero, suc, ◌+◌, ◌-◌, ◌*◌, ◌/◌, ◌%◌, ◌^◌, ◌≤◌, ◌<◌, ◌≡◌, refl, Bool, false, not, ◌&&◌, ◌||◌,
  arith, ◌==◌, if◌then◌else◌,
}
use silicium_rs.Crates.BitFlags.{BitFlags}

-- The digit of `a` with the weight `2 ^ k`.
unfoldable pub digit : ℕ → ℕ → ℕ
digit a zero = a % 2
digit a (suc k) = digit (a / 2) k

digit-lt : (a k : ℕ) → digit a k < 2
unfolding digit
digit-lt a zero = omega arith
digit-lt a (suc k) = digit-lt (a / 2) k

module _ (rest : ℕ → ℕ) (op : ℕ → ℕ → ℕ) where
  more_fuel : (n m a b : ℕ) → a ≤ n → a ≤ m → digits rest op n a b ≡ digits rest op m a b
  more_fuel zero zero a b p q = refl
  more_fuel zero (suc m) zero b p q = refl
  more_fuel zero (suc m) (suc a) b p q = absurd (omega arith)
  more_fuel (suc n) zero zero b p q = refl
  more_fuel (suc n) zero (suc a) b p q = absurd (omega arith)
  more_fuel (suc n) (suc m) zero b p q = refl
  more_fuel (suc n) (suc m) (suc a) b p q =
      omega (arith, more_fuel n m (suc a / 2) (b / 2) (omega arith) (omega arith))

  halves :
      (a b : ℕ)
      → bitwise rest op (suc a) b ≡ bitwise rest op (suc a / 2) (b / 2) * 2 + op (suc a % 2) (b % 2)
  halves a b =
      omega (arith, more_fuel a (suc a / 2) (suc a / 2) (b / 2) (omega arith) (omega arith))

bit_or-halves : (a b : ℕ) → bit_or a b ≡ bit_or (a / 2) (b / 2) * 2 + max (a % 2) (b % 2)
bit_or-halves zero b = simp bit_or-bitwise (omega arith)
bit_or-halves (suc a) b = simp bit_or-bitwise (halves (λ y. y) max a b)

bit_and-halves : (a b : ℕ) → bit_and a b ≡ bit_and (a / 2) (b / 2) * 2 + min (a % 2) (b % 2)
bit_and-halves zero b = simp bit_and-bitwise (omega arith)
bit_and-halves (suc a) b = simp bit_and-bitwise (halves (λ y. 0) min a b)

double-pow : (k : ℕ) → 2 ^ suc k ≡ 2 * 2 ^ k
double-pow k = omega (arith, pow-suc 2 k)

pow-pos : (k : ℕ) → 0 < 2 ^ k
pow-pos zero = omega arith
pow-pos (suc k) = omega (arith, double-pow k, pow-pos k)

pow-lt : (j n : ℕ) → j < n → 2 ^ j < 2 ^ n
pow-lt j zero h = absurd (omega arith)
pow-lt zero (suc n) h = omega (arith, double-pow n, pow-pos n)
pow-lt (suc j) (suc n) h = omega (arith, double-pow j, double-pow n, pow-lt j n (omega arith))

digit-bit_or : (a b k : ℕ) → digit (bit_or a b) k ≡ max (digit a k) (digit b k)
unfolding digit
digit-bit_or a b zero = omega (arith, bit_or-halves a b)
digit-bit_or a b (suc k) =
    let e : bit_or a b / 2 ≡ bit_or (a / 2) (b / 2) = omega (arith, bit_or-halves a b) in
    rw (e, digit-bit_or (a / 2) (b / 2) k)

digit-bit_and : (a b k : ℕ) → digit (bit_and a b) k ≡ min (digit a k) (digit b k)
unfolding digit
digit-bit_and a b zero = omega (arith, bit_and-halves a b)
digit-bit_and a b (suc k) =
    let e : bit_and a b / 2 ≡ bit_and (a / 2) (b / 2) = omega (arith, bit_and-halves a b) in
    rw (e, digit-bit_and (a / 2) (b / 2) k)

digit-zero : (k : ℕ) → digit 0 k ≡ 0
unfolding digit
digit-zero zero = refl
digit-zero (suc k) = digit-zero k

-- A power of two has one digit.
digit-pow : (j k : ℕ) → digit (2 ^ j) k ≡ (if j == k then 1 else 0)
unfolding digit
digit-pow zero zero = refl
digit-pow zero (suc k) = ground (arith, digit-zero k)
digit-pow (suc j) zero = ground (arith, double-pow j)
digit-pow (suc j) (suc k) =
    let e : 2 ^ suc j / 2 ≡ 2 ^ j = omega (arith, double-pow j) in
    rw (e, digit-pow j k) (ground arith)

zero_right_fuel : (n a : ℕ) → a ≤ n → bit_and a 0 ≡ 0
zero_right_fuel n zero h = refl
zero_right_fuel zero (suc a) h = absurd (omega arith)
zero_right_fuel (suc n) (suc a) h =
    omega (arith, bit_and-halves (suc a) 0, zero_right_fuel n (suc a / 2) (omega arith))

zero_right : (a : ℕ) → bit_and a 0 ≡ 0
zero_right a = zero_right_fuel a a (omega arith)

bit_and-pow : (a k : ℕ) → bit_and a (2 ^ k) ≡ digit a k * 2 ^ k
unfolding digit
bit_and-pow a zero = omega (arith, bit_and-halves a 1, zero_right (a / 2))
bit_and-pow a (suc k) =
    let e : 2 ^ suc k / 2 ≡ 2 ^ k = omega (arith, double-pow k) in
    omega (
      arith,
      bit_and-halves a (2 ^ suc k),
      ap (bit_and (a / 2)) e,
      double-pow k,
      bit_and-pow (a / 2) k,
      ap (λ (t : ℕ). digit (a / 2) k * t) (double-pow k),
    )

-- All digits below `n` turned over.
digit-complement : (n f k : ℕ) → f < 2 ^ n → k < n → digit (2 ^ n - 1 - f) k ≡ 1 - digit f k
unfolding digit
digit-complement zero f k h p = absurd (omega arith)
digit-complement (suc n) f zero h p = omega (arith, double-pow n, pow-pos n)
digit-complement (suc n) f (suc k) h p =
    let e : (2 ^ suc n - 1 - f) / 2 ≡ 2 ^ n - 1 - f / 2 = omega (arith, double-pow n) in
    rw (e, digit-complement n (f / 2) k (omega (arith, double-pow n)) (omega arith))

abbrev pub contains : ℕ → ℕ → Bool
contains a f = bit_and a f == f

-- `a & !f`, in 64 bits.
abbrev pub remove : ℕ → ℕ → ℕ
remove a f = bit_and a (2 ^ 64 - 1 - f)

times_digit : (d p v : ℕ) → d < 2 → 0 < p → v ≡ d * p → v == p ≡ d == 1
times_digit zero p v h q e = ground arith
times_digit (suc zero) p v h q e = ground arith
times_digit (suc (suc d)) p v h q e = absurd (omega arith)

pub contains-digit : (a k : ℕ) → contains a (2 ^ k) ≡ (digit a k == 1)
contains-digit a k =
    times_digit (digit a k) (2 ^ k) (bit_and a (2 ^ k)) (digit-lt a k) (pow-pos k) (bit_and-pow a k)

pub contains-remove :
    (a j k : ℕ)
    → j < 64
    → k < 64
    → contains (remove a (2 ^ j)) (2 ^ k) ≡ (not (j == k) && contains a (2 ^ k))
contains-remove a j k p q = ground (
  arith,
  contains-digit (remove a (2 ^ j)) k,
  contains-digit a k,
  digit-bit_and a (2 ^ 64 - 1 - 2 ^ j) k,
  digit-complement 64 (2 ^ j) k (pow-lt j 64 p) q,
  digit-pow j k,
  digit-lt a k,
)

pub contains-or :
    (a b k : ℕ) → contains (bit_or a b) (2 ^ k) ≡ (contains a (2 ^ k) || contains b (2 ^ k))
contains-or a b k = ground (
  arith,
  contains-digit (bit_or a b) k,
  contains-digit a k,
  contains-digit b k,
  digit-bit_or a b k,
  digit-lt a k,
  digit-lt b k,
)

pub contains-bit : (j k : ℕ) → contains (2 ^ j) (2 ^ k) ≡ (j == k)
contains-bit j k = ground (arith, contains-digit (2 ^ j) k, digit-pow j k)

pub contains-insert :
    (a j k : ℕ) → contains (bit_or a (2 ^ j)) (2 ^ k) ≡ ((j == k) || contains a (2 ^ k))
contains-insert a j k = ground (arith, contains-or a (2 ^ j) k, contains-bit j k)

pub contains-empty : (k : ℕ) → contains 0 (2 ^ k) ≡ false
contains-empty k = ground (arith, contains-digit 0 k, digit-zero k)

pub contains-truncate :
    (all a k : ℕ) → contains (bit_and all a) (2 ^ k) ≡ (contains all (2 ^ k) && contains a (2 ^ k))
contains-truncate all a k = ground (
  arith,
  contains-digit (bit_and all a) k,
  contains-digit all k,
  contains-digit a k,
  digit-bit_and all a k,
  digit-lt a k,
  digit-lt all k,
)

instance abbrev pub bits : BitFlags
bits = record {
  contains = contains;
  insert = bit_or;
  remove = remove;
  union = bit_or;
  truncate = bit_and;
  contains-empty = contains-empty;
  contains-bit = contains-bit;
  contains-insert = contains-insert;
  contains-remove = contains-remove;
  contains-union = contains-or;
  contains-truncate = contains-truncate;
}
