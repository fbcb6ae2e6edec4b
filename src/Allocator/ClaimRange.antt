-- ===== src/Allocator/ClaimRange.antt =====
-- The loop of `allocate_range` over the window that it has found.
use mathlib.Core.Option.{some-injective}
use silicium_rs.Base.{
  ap, sym, subst, ℕ, zero, suc, ◌+◌, ◌*◌, ◌≤◌, ◌<◌, ◌≡◌, refl, ◌⊎◌, false, some, List, [], ◌∷◌,
  arith, get_elem?, length, done, add64-eq, Outcome,
}
use silicium_rs.Crates.Addresses.{Addresses}
use silicium_rs.Crates.BitFlags.{BitFlags}
use silicium_rs.Frame.{Frame}
use silicium_rs.FrameState.{FrameInfo}
use silicium_rs.FrameState.Slices.{update_slice}
use silicium_rs.Allocator.{Effects, is_free, claim}
use silicium_rs.Allocator.Invariant.{used, IsInfo, IsArray}
use silicium_rs.Allocator.Claim.{claim_lem}
use silicium_rs.Allocator.Window.{Window}

module _ ⦃bits : BitFlags⦄ where
  -- A free entry `a` and what it becomes.
  pub record Taken (a b : FrameInfo) : Type 0 where
    pub frame : b.frame ≡ a.frame
    pub unused : a.count ≡ 0
    pub count : b.count ≡ 1
    pub taken : is_free b ≡ false

  -- The entries of the slice are taken, the others kept.
  abbrev pub TakenSlice : ℕ → ℕ → List FrameInfo → List FrameInfo → Type 0
  TakenSlice start n [] ys = ys ≡ []
  TakenSlice start n (a ∷ xs) [] = ⊥
  TakenSlice zero zero (a ∷ xs) (b ∷ ys) = a ∷ xs ≡ b ∷ ys
  TakenSlice zero (suc n) (a ∷ xs) (b ∷ ys) = Taken a b × TakenSlice zero n xs ys
  TakenSlice (suc start) n (a ∷ xs) (b ∷ ys) = (a ≡ b) × TakenSlice start n xs ys

  pub TakenSlice-length :
      (start n : ℕ) (xs ys : List FrameInfo) → TakenSlice start n xs ys → length ys ≡ length xs
  TakenSlice-length start n [] ys t = ap length t
  TakenSlice-length start n (a ∷ xs) [] t = absurd t
  TakenSlice-length zero zero (a ∷ xs) (b ∷ ys) t = sym (ap length t)
  TakenSlice-length zero (suc n) (a ∷ xs) (b ∷ ys) t =
      omega (arith, TakenSlice-length zero n xs ys t.1)
  TakenSlice-length (suc start) n (a ∷ xs) (b ∷ ys) t =
      omega (arith, TakenSlice-length start n xs ys t.1)

  Taken-IsInfo : (k : ℕ) (a b : FrameInfo) → IsInfo k a → Taken a b → IsInfo k b
  Taken-IsInfo k a b v t = record {
    placed = omega (arith, v.placed, ap (λ (f : Frame). f.start) t.frame);
    free_unused = ground (arith, t.taken);
    counted = omega (arith, t.count);
  }

  pub TakenSlice-IsArray :
      (k start n : ℕ) (xs ys : List FrameInfo)
      → IsArray k xs
      → TakenSlice start n xs ys
      → IsArray k ys
  TakenSlice-IsArray k start n [] ys v t = subst (IsArray k) (sym t) tt
  TakenSlice-IsArray k start n (a ∷ xs) [] v t = absurd t
  TakenSlice-IsArray k zero zero (a ∷ xs) (b ∷ ys) v t = subst (IsArray k) t v
  TakenSlice-IsArray k zero (suc n) (a ∷ xs) (b ∷ ys) v t =
      (Taken-IsInfo k a b v.0 t.0, TakenSlice-IsArray (suc k) zero n xs ys v.1 t.1)
  TakenSlice-IsArray k (suc start) n (a ∷ xs) (b ∷ ys) v t =
      (subst (IsInfo k) t.0 v.0, TakenSlice-IsArray (suc k) start n xs ys v.1 t.1)

  pub TakenSlice-used :
      (start n : ℕ) (xs ys : List FrameInfo)
      → TakenSlice start n xs ys
      → start + n ≤ length xs
      → used ys ≡ used xs + n
  TakenSlice-used start n [] ys t h = rw t (omega arith)
  TakenSlice-used start n (a ∷ xs) [] t h = absurd t
  TakenSlice-used zero zero (a ∷ xs) (b ∷ ys) t h = omega (arith, ap used t)
  TakenSlice-used zero (suc n) (a ∷ xs) (b ∷ ys) t h =
      ground (arith, TakenSlice-used zero n xs ys t.1, t.0.count, t.0.unused)
  TakenSlice-used (suc start) n (a ∷ xs) (b ∷ ys) t h =
      ground (arith, TakenSlice-used start n xs ys t.1, ap (λ (c : FrameInfo). c.count) t.0)

  -- The slice, entry by entry.
  pub TakenSlice-inside :
      (start n : ℕ) (xs ys : List FrameInfo) (j : ℕ) (a : FrameInfo)
      → TakenSlice start n xs ys
      → start ≤ j
      → j < start + n
      → get_elem? xs j ≡ some a
      → (b : FrameInfo) × (get_elem? ys j ≡ some b) × Taken a b
  TakenSlice-inside start n [] ys j a t p q h = absurd (ground arith)
  TakenSlice-inside start n (c ∷ xs) [] j a t p q h = absurd t
  TakenSlice-inside zero zero (c ∷ xs) (b ∷ ys) j a t p q h = absurd (omega arith)
  TakenSlice-inside zero (suc n) (c ∷ xs) (b ∷ ys) zero a t p q h =
      (b, refl, subst (λ d. Taken d b) (some-injective c a h) t.0)
  TakenSlice-inside zero (suc n) (c ∷ xs) (b ∷ ys) (suc j) a t p q h =
      TakenSlice-inside zero n xs ys j a t.1 (omega arith) (omega arith) h
  TakenSlice-inside (suc start) n (c ∷ xs) (b ∷ ys) zero a t p q h = absurd (omega arith)
  TakenSlice-inside (suc start) n (c ∷ xs) (b ∷ ys) (suc j) a t p q h =
      TakenSlice-inside start n xs ys j a t.1 (omega arith) (omega arith) h

  pub TakenSlice-outside :
      (start n : ℕ) (xs ys : List FrameInfo) (j : ℕ)
      → TakenSlice start n xs ys
      → (j < start) ⊎ (start + n ≤ j)
      → get_elem? ys j ≡ get_elem? xs j
  TakenSlice-outside start n [] ys j t o = ap (λ l. get_elem? l j) t
  TakenSlice-outside start n (c ∷ xs) [] j t o = absurd t
  TakenSlice-outside zero zero (c ∷ xs) (b ∷ ys) j t o = ap (λ l. get_elem? l j) (sym t)
  TakenSlice-outside zero (suc n) (c ∷ xs) (b ∷ ys) zero t o = absurd (omega arith)
  TakenSlice-outside zero (suc n) (c ∷ xs) (b ∷ ys) (suc j) t o =
      TakenSlice-outside zero n xs ys j t.1 (omega arith)
  TakenSlice-outside (suc start) n (c ∷ xs) (b ∷ ys) zero t o = ap some (sym t.0)
  TakenSlice-outside (suc start) n (c ∷ xs) (b ∷ ys) (suc j) t o =
      TakenSlice-outside start n xs ys j t.1 (omega arith)

module _ ⦃x : Addresses⦄ ⦃bits : BitFlags⦄ where
  abbrev pub RangeClaimed :
      ℕ → ℕ → List FrameInfo → Effects → Outcome (List FrameInfo × Effects) → Type 0
  RangeClaimed start n xs e r =
      (ys : List FrameInfo) × (e' : Effects) × (r ≡ done (ys, e'))
      × TakenSlice start n xs ys
      × (e'.statistic.allocated ≡ e.statistic.allocated + n)

  -- A window of free frames is claimed without a panic.
  pub claim_window :
      (flags k start n : ℕ) (xs : List FrameInfo) (e : Effects)
      → IsArray k xs
      → Window start n xs
      → start + n ≤ length xs
      → (k + length xs) * 4096 ≤ 0x1000_0000_0000
      → e.statistic.allocated + n < 0x1_0000_0000_0000_0000
      → RangeClaimed start n xs e (update_slice (claim flags) start n xs e)
  unfolding update_slice
  claim_window flags k start n [] e v w b s l = ([], e, refl, refl, omega arith)
  claim_window flags k zero zero (a ∷ xs) e v w b s l = (a ∷ xs, e, refl, refl, omega arith)
  claim_window flags k zero (suc n) (a ∷ xs) e v w b s l =
      let i = v.0 in
      let free = w 0 a (omega arith) (omega arith) refl in
      let (a', e', q, c) =
        claim_lem flags a e (omega (arith, i.placed)) (omega (arith, i.free_unused free)) in
      let (ys, e'', q', t, m) =
        claim_window flags (suc k) zero n xs e' v.1
          (λ j b p q h. w (suc j) b (omega arith) (omega arith) h) (omega arith) (omega arith)
          (omega (arith, c.allocated, add64-eq e.statistic.allocated 1)) in
      (
        a' ∷ ys,
        e'',
        rw (q, q'),
        (
          record {
            frame = c.frame;
            unused = i.free_unused free;
            count = omega (arith, c.count, i.free_unused free);
            taken = c.taken;
          },
          t,
        ),
        omega (arith, m, c.allocated, add64-eq e.statistic.allocated 1),
      )
  claim_window flags k (suc start) n (a ∷ xs) e v w b s l =
      let (ys, e', q, t, m) =
        claim_window flags (suc k) start n xs e v.1
          (λ j b p q h. w (suc j) b (omega arith) (omega arith) h) (omega arith) (omega arith) l in
      (a ∷ ys, e', rw q, (refl, t), m)
