-- ===== src/Boot/Accounts.antt =====
-- The counts of the frames that `State::setup` makes.
use silicium_rs.Base.{
  ℕ, zero, suc, ◌+◌, ◌≤◌, ◌<◌, ◌≡◌, ◌∙◌, inl, inr, refl, sym, subst, arith, true, false, Bool, ◌&&◌,
  ◌||◌, ltb, leb, ◌==◌, if◌then◌else◌, some, List, [], ◌∷◌, length, get_elem?, get_elem?_of_lt,
  lt_of_get_elem?, Outcome, done, add64, add64-eq, Bool-cases,
}
use mathlib.Core.Option.{some-injective}
use silicium_rs.Crates.Addresses.{Addresses}
use silicium_rs.Crates.BitFlags.{BitFlags}
use silicium_rs.Frame.{Stats}
use silicium_rs.Frame.Flags
use silicium_rs.FrameState.{FrameInfo}
use silicium_rs.FrameState.Slices.{update_slice}
use silicium_rs.FrameState.Slices.MapSlice.{map_slice, length-map_slice, get_elem?-map_slice}
use silicium_rs.FrameState.Setup.{
  MemoryType, MemmapEntry, usable, kernel_and_modules, bootloader_reclaimable, bad_memory, other,
  mark, mark_array,
}
use silicium_rs.FrameState.Setup.Marks.{covers, marked}
use silicium_rs.FrameState.Setup.Result.{with_array}
use silicium_rs.Allocator.Invariant.{used, IsInfo, IsArray}

-- The regions that cover a frame.
abbrev pub covered : List MemmapEntry → ℕ → Bool
covered [] i = false
covered (e ∷ es) i = covers e i || covered es i

-- No frame is covered by two regions.
abbrev pub AreApart : List MemmapEntry → Type 0
AreApart [] = Unit {0}
AreApart (e ∷ es) = ((i : ℕ) → covers e i ≡ true → covered es i ≡ false) × AreApart es

pub used-zero :
    (xs : List FrameInfo)
    → ((j : ℕ) (a : FrameInfo) → get_elem? xs j ≡ some a → a.count ≡ 0)
    → used xs ≡ 0
used-zero [] h = refl
used-zero (a ∷ xs) h = ground (arith, h 0 a refl, used-zero xs (λ j b g. h (suc j) b g))

pub get_elem?-map_slice_inv :
    {A : Type 0} (g : A → A) (start n : ℕ) (xs : List A) (j : ℕ) (b : A)
    → get_elem? (map_slice g start n xs) j ≡ some b
    → (a : A) × (get_elem? xs j ≡ some a)
      × (b ≡ (if leb start j && ltb j (start + n) then g a else a))
get_elem?-map_slice_inv g start n xs j b h =
    let lt = lt_of_get_elem? (map_slice g start n xs) j b h in
    let (a, e) = get_elem?_of_lt xs j (omega (arith, length-map_slice g start n xs)) in
    (a, e, some-injective b _ (sym h ∙ get_elem?-map_slice g start n xs j a e))

module _ ⦃bits : BitFlags⦄ where
  pub IsArray-of :
      (k : ℕ) (xs : List FrameInfo)
      → ((j : ℕ) (a : FrameInfo) → get_elem? xs j ≡ some a → IsInfo (k + j) a)
      → IsArray k xs
  IsArray-of k [] h = tt
  IsArray-of k (a ∷ xs) h = (
    subst (λ i. IsInfo i a) (omega arith) (h 0 a refl),
    IsArray-of (suc k) xs (λ j b g. subst (λ i. IsInfo i b) (omega arith) (h (suc j) b g)),
  )

module _ ⦃x : Addresses⦄ ⦃bits : BitFlags⦄ where
  -- One frame is marked, and counted if it is in use from then on.
  mark_account :
      (t : MemoryType) (info : FrameInfo) (s : Stats)
      → s.allocated + 1 < 0x1_0000_0000_0000_0000
      → info.count ≡ 0
      → (s' : Stats) × (done (mark t info s) ≡ done (marked t info, s'))
        × (s'.allocated ≡ s.allocated + (if (marked t info).count == 0 then 0 else 1))
  unfolding mark
  mark_account usable info s b z = (_, refl, ground (arith, z))
  mark_account bad_memory info s b z = (_, refl, ground (arith, z))
  mark_account kernel_and_modules info s b z = (_, refl, ground (arith, add64-eq s.allocated 1))
  mark_account bootloader_reclaimable info s b z = (_, refl, ground (arith, add64-eq s.allocated 1))
  mark_account other info s b z = elim (Bool-cases (bits.contains info.flags Flags.poisoned)) [
    | inl p ↦ ((mark other info s).1, ground (arith, p), ground (arith, p, z))
    | inr p ↦ ((mark other info s).1, ground (arith, p), ground (arith, p, z))
  ]

  -- A loop whose body counts a frame if it comes into use.
  counting_slice :
      (g : FrameInfo → FrameInfo) (f : FrameInfo → Stats → Outcome (FrameInfo × Stats))
      → ((a : FrameInfo) (s : Stats)
          → s.allocated + 1 < 0x1_0000_0000_0000_0000
          → a.count ≡ 0
          → (s' : Stats) × (f a s ≡ done (g a, s'))
            × (s'.allocated ≡ s.allocated + (if (g a).count == 0 then 0 else 1)))
      → (start n : ℕ) (xs : List FrameInfo) (s : Stats)
      → s.allocated + length xs < 0x1_0000_0000_0000_0000
      → ((j : ℕ) (a : FrameInfo)
          → start ≤ j
          → j < start + n
          → get_elem? xs j ≡ some a
          → a.count ≡ 0)
      → (s' : Stats) × (update_slice f start n xs s ≡ done (map_slice g start n xs, s'))
        × (s'.allocated + used xs ≡ s.allocated + used (map_slice g start n xs))
  unfolding update_slice
  counting_slice g f m start n [] s b h = (s, refl, refl)
  counting_slice g f m zero zero (a ∷ xs) s b h = (s, refl, refl)
  counting_slice g f m zero (suc n) (a ∷ xs) s b h =
      let z = h 0 a (omega arith) (omega arith) refl in
      let (u, e, c) = m a s (omega arith) z in
      let small : u.allocated + length xs < 0x1_0000_0000_0000_0000 = ground (arith, c) in
      let (v, d, k) =
        counting_slice g f m zero n xs u small
          (λ j k p q r. h (suc j) k (omega arith) (omega arith) r) in
      (v, rw (e, d) refl, ground (arith, z, c, k))
  counting_slice g f m (suc start) n (a ∷ xs) s b h =
      let (v, d, k) =
        counting_slice g f m start n xs s (omega arith)
          (λ j k p q r. h (suc j) k (omega arith) (omega arith) r) in
      (v, rw d refl, omega (arith, k))

  pub slice_account :
      (t : MemoryType) (start n : ℕ) (xs : List FrameInfo) (s : Stats)
      → s.allocated + length xs < 0x1_0000_0000_0000_0000
      → ((j : ℕ) (a : FrameInfo)
          → start ≤ j
          → j < start + n
          → get_elem? xs j ≡ some a
          → a.count ≡ 0)
      → (s' : Stats) × (update_slice (λ a c. done (mark t a c)) start n xs s
          ≡ done (map_slice (marked t) start n xs, s'))
        × (s'.allocated + used xs ≡ s.allocated + used (map_slice (marked t) start n xs))
  slice_account t = counting_slice (marked t) (λ a c. done (mark t a c)) (mark_account t)

  -- The frames of the array are counted a second time, and stay unused.
  pub array_account :
      (start n : ℕ) (xs : List FrameInfo) (s : Stats)
      → s.allocated + n < 0x1_0000_0000_0000_0000
      → start + n ≤ length xs
      → (s' : Stats) × (update_slice (λ a c. done (mark_array a c)) start n xs s
          ≡ done (map_slice with_array start n xs, s'))
        × (s'.allocated ≡ s.allocated + n)
        × (used (map_slice with_array start n xs) ≡ used xs)
  unfolding update_slice mark_array
  array_account start n [] s b h = (s, refl, omega arith, refl)
  array_account zero zero (a ∷ xs) s b h = (s, refl, omega arith, refl)
  array_account zero (suc n) (a ∷ xs) s b h =
      let u : Stats = record s { allocated = add64 s.allocated 1; kernel = add64 s.kernel 1 } in
      let one : u.allocated ≡ s.allocated + 1 = add64-eq s.allocated 1 (omega arith) in
      let (v, d, f, g) = array_account zero n xs u (omega (arith, one)) (omega arith) in
      (v, rw d refl, omega (arith, one, f), ground (arith, g))
  array_account (suc start) n (a ∷ xs) s b h =
      let (v, d, f, g) = array_account start n xs s b (omega arith) in
      (v, rw d refl, f, ground (arith, g))
