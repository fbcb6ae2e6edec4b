-- ===== src/Allocator/Left.antt =====
-- How many frames are free, and how the calls change that.
use silicium_rs.Base.{
  ℕ, zero, suc, ◌+◌, ◌≡◌, ◌<◌, ◌/◌, ap, refl, arith, some, List, [], ◌∷◌, get_elem?, set,
  if◌then◌else◌, done, inl, inr,
}
use silicium_rs.Crates.Addresses.{Addresses}
use silicium_rs.Crates.BitFlags.{BitFlags}
use silicium_rs.Frame.{Frame}
use silicium_rs.FrameState.{FrameInfo}
use silicium_rs.FrameState.Slices.Laws.{NoneIn}
use silicium_rs.Allocator.{Frames, is_free, reference}
use silicium_rs.Allocator.Allocate.{Allocated}
use silicium_rs.Allocator.Invariant.{IsWf}
use silicium_rs.Allocator.Release.{reference_cases, reference-IsWf}

module _ ⦃bits : BitFlags⦄ where
  abbrev pub free_frames : List FrameInfo → ℕ
  free_frames [] = 0
  free_frames (a ∷ xs) = (if is_free a then 1 else 0) + free_frames xs

  pub free_frames-none : (xs : List FrameInfo) → NoneIn is_free xs → free_frames xs ≡ 0
  free_frames-none [] h = refl
  free_frames-none (a ∷ xs) h =
      ground (arith, h 0 a refl, free_frames-none xs (λ j b g. h (suc j) b g))

  free_frames-set :
      (xs : List FrameInfo) (i : ℕ) (a b : FrameInfo)
      → get_elem? xs i ≡ some a
      → free_frames (set xs i b) + (if is_free a then 1 else 0)
        ≡ free_frames xs + (if is_free b then 1 else 0)
  free_frames-set [] i a b h = ground arith
  free_frames-set (c ∷ xs) zero a b h = ground (arith, h)
  free_frames-set (c ∷ xs) (suc i) a b h = omega (arith, free_frames-set xs i a b h)

module _ ⦃x : Addresses⦄ ⦃bits : BitFlags⦄ where
  pub Allocated-free_frames :
      (flags i : ℕ) (s t : Frames)
      → Allocated flags i s t
      → suc (free_frames t.array) ≡ free_frames s.array
  Allocated-free_frames flags i s t a = ground (
    arith,
    ap free_frames a.array,
    free_frames-set s.array i a.before a.after a.found,
    a.was_free,
    a.claimed.taken,
  )

  -- A user more changes nothing about which frames are free.
  pub reference_used :
      (pinned : ℕ) (f : Frame) (info : FrameInfo) (s : Frames)
      → get_elem? s.array (f.start / 4096) ≡ some info
      → IsWf pinned s
      → 0 < info.count
      → info.count + 1 < 0x1_0000_0000_0000_0000
      → (t : Frames) × (reference f s ≡ done t)
        × IsWf pinned t
        × (free_frames t.array ≡ free_frames s.array)
        × (t.memory ≡ s.memory)
  reference_used pinned f info s g w pos small = elim (reference_cases f s) [
    | inl (_, n) ↦ absurd (ground (arith, g, n))
    | inr (i, h, inl (_, z)) ↦ absurd (ground (arith, g, h, z))
    | inr (i, h, inr (inl (_, o))) ↦ absurd (ground (arith, g, h, o))
    | inr (i, h, inr (inr (_, _, e))) ↦
        let after : FrameInfo = record i { count = i.count + 1 } in
        (
          record s { array = set s.array (f.start / 4096) after },
          e,
          reference-IsWf pinned f s _ w e,
          omega (arith, free_frames-set s.array (f.start / 4096) i after h),
          refl,
        )
  ]
