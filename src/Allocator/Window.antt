-- ===== src/Allocator/Window.antt =====
-- The windows of free frames, and the search for the first of them.
use silicium_rs.Base.{
  sym, ℕ_discrete, subst, ℕ, zero, suc, ◌+◌, ◌≤◌, ◌<◌, ◌≡◌, refl, ◌⊎◌, true, false, Option, none,
  some, List, [], ◌∷◌, arith, get_elem?, length, done, add64-eq, inl, inr, Bool-cases, Outcome,
  dec_le,
}
use silicium_rs.Crates.Addresses.{Addresses}
use silicium_rs.Crates.BitFlags.{BitFlags}
use silicium_rs.FrameState.{FrameInfo}
use silicium_rs.Allocator.{is_free, all_free, find_window}

module _ ⦃bits : BitFlags⦄ where
  -- All of the `n` entries from `start` on that there are, are free.
  abbrev pub Window : ℕ → ℕ → List FrameInfo → Type 0
  Window start n xs =
      (j : ℕ) (a : FrameInfo)
      → start ≤ j
      → j < start + n
      → get_elem? xs j ≡ some a
      → is_free a ≡ true

  Window-cons :
      (a : FrameInfo) (n : ℕ) (xs : List FrameInfo)
      → is_free a ≡ true
      → Window 0 n xs
      → Window 0 (suc n) (a ∷ xs)
  Window-cons a n xs f h zero b p q e = ground arith
  Window-cons a n xs f h (suc j) b p q e = h j b (omega arith) (omega arith) e

  Window-skip :
      (a : FrameInfo) (start n : ℕ) (xs : List FrameInfo)
      → Window start n xs
      → Window (suc start) n (a ∷ xs)
  Window-skip a start n xs h zero b p q e = absurd (omega arith)
  Window-skip a start n xs h (suc j) b p q e = h j b (omega arith) (omega arith) e

  pub Window_of_all_free :
      (start n : ℕ) (xs : List FrameInfo) → all_free start n xs ≡ true → Window start n xs
  unfolding all_free
  Window_of_all_free start n [] h = λ j b p q e. cc
  Window_of_all_free zero zero (a ∷ xs) h = λ j b p q e. absurd (omega arith)
  Window_of_all_free zero (suc n) (a ∷ xs) h =
      Window-cons a n xs (ground arith) (Window_of_all_free zero n xs (ground arith))
  Window_of_all_free (suc start) n (a ∷ xs) h =
      Window-skip a start n xs (Window_of_all_free start n xs h)

  pub all_free_of_Window :
      (start n : ℕ) (xs : List FrameInfo) → Window start n xs → all_free start n xs ≡ true
  unfolding all_free
  all_free_of_Window start n [] h = refl
  all_free_of_Window zero zero (a ∷ xs) h = refl
  all_free_of_Window zero (suc n) (a ∷ xs) h =
      let rest =
        all_free_of_Window zero n xs (λ j b p q e. h (suc j) b (omega arith) (omega arith) e) in
      ground (arith, h 0 a, rest)
  all_free_of_Window (suc start) n (a ∷ xs) h =
      all_free_of_Window start n xs (λ j b p q e. h (suc j) b (omega arith) (omega arith) e)

  -- No window of `n` entries starts from `i` on and before `k`.
  abbrev pub NoWindow : ℕ → ℕ → ℕ → List FrameInfo → Type 0
  NoWindow i k n xs = (j : ℕ) → i ≤ j → j < k → j + n ≤ length xs → ¬ Window j n xs

  -- The first window from `i` on is found, if there is one.
  abbrev pub FirstWindow : ℕ → ℕ → List FrameInfo → Outcome (Option ℕ) → Type 0
  FirstWindow i n xs r =
      ((r ≡ done none) × NoWindow i (suc (length xs)) n xs)
      ⊎ ((k : ℕ) × (r ≡ done (some k))
          × (i ≤ k)
          × (k + n ≤ length xs)
          × Window k n xs
          × NoWindow i k n xs)

  not-Window_of_all_free :
      (i n : ℕ) (xs : List FrameInfo) → all_free i n xs ≡ false → ¬ Window i n xs
  not-Window_of_all_free i n xs e w = ground (arith, all_free_of_Window i n xs w)

  NoWindow-suc :
      (i k n : ℕ) (xs : List FrameInfo)
      → ¬ Window i n xs
      → NoWindow (suc i) k n xs
      → NoWindow i k n xs
  NoWindow-suc i k n xs h rest j p q l w = elim (ℕ_discrete i j) [
    | yes e ↦ h (subst (λ m. Window m n xs) (sym e) w)
    | no e ↦ rest j (omega arith) q l w
  ]

  FirstWindow-suc :
      (i n : ℕ) (xs : List FrameInfo) (r : Outcome (Option ℕ))
      → ¬ Window i n xs
      → FirstWindow (suc i) n xs r
      → FirstWindow i n xs r
  FirstWindow-suc i n xs r h (inl (e, rest)) = inl (e, NoWindow-suc i (suc (length xs)) n xs h rest)
  FirstWindow-suc i n xs r h (inr (k, e, l, f, w, rest)) =
      inr (k, e, omega arith, f, w, NoWindow-suc i k n xs h rest)

module _ ⦃x : Addresses⦄ ⦃bits : BitFlags⦄ where
  find_window_big :
      (n : ℕ) (xs : List FrameInfo)
      → n < 0x1_0000_0000_0000_0000
      → length xs < 0x1_0000_0000_0000
      → length xs < n
      → find_window (length xs + 2) 0 n xs ≡ done none
  unfolding find_window
  find_window_big n xs b c h =
      let e : length xs + 2 ≡ suc (length xs + 1) = omega arith in
      rw e (ground (arith, add64-eq 0 n))

  -- The loop needs no more rounds than there are entries, and one.
  find_window_loop :
      (fuel i n : ℕ) (xs : List FrameInfo)
      → n ≤ length xs
      → length xs < 0x1_0000_0000_0000
      → i + n ≤ length xs + 1
      → length xs + 1 < fuel + (i + n)
      → FirstWindow i n xs (find_window fuel i n xs)
  unfolding find_window
  find_window_loop zero i n xs b c h k = absurd (omega arith)
  find_window_loop (suc fuel) i n xs b c h k = elim (dec_le (i + n) (length xs)) [
    | no far ↦ inl (ground (arith, add64-eq i n), λ j p q l. absurd (omega arith))
    | yes fits ↦ elim (Bool-cases (all_free i n xs)) [
      | inl e ↦ inr (
        i,
        ground (arith, add64-eq i n, e),
        omega arith,
        fits,
        Window_of_all_free i n xs e,
        λ j p q l w. omega arith,
      )
      | inr e ↦
          let skipped : find_window (suc fuel) i n xs ≡ find_window fuel (suc i) n xs =
            ground (arith, add64-eq i n, e) in
          let ih = find_window_loop fuel (suc i) n xs b c (omega arith) (omega arith) in
          let rest = FirstWindow-suc i n xs _ (not-Window_of_all_free i n xs e) ih in
          subst (FirstWindow i n xs) (sym skipped) rest
    ]
  ]

  -- With the fuel that `allocate_range` gives, for a count that is a `usize`.
  pub find_window_cases :
      (n : ℕ) (xs : List FrameInfo)
      → n < 0x1_0000_0000_0000_0000
      → length xs < 0x1_0000_0000_0000
      → FirstWindow 0 n xs (find_window (length xs + 2) 0 n xs)
  find_window_cases n xs b c = elim (dec_le n (length xs)) [
    | yes fits ↦ find_window_loop (length xs + 2) 0 n xs fits c (omega arith) (omega arith)
    | no big ↦ inl (find_window_big n xs b c (omega arith), λ j p q l. absurd (omega arith))
  ]
