-- ===== src/Allocator/Invariant.antt =====
-- The invariant of the frame array and of the statistics.
use mathlib.Core.Option.{some-injective}
use silicium_rs.Base.{
  subst, ℕ, zero, suc, ◌+◌, ◌*◌, ◌≤◌, ◌<◌, ◌≡◌, true, some, List, [], ◌∷◌, arith, length-set,
  get_elem?, set, length, ◌==◌, if◌then◌else◌, length-set,
}
use silicium_rs.Crates.BitFlags.{BitFlags}
use silicium_rs.FrameState.{FrameInfo}
use silicium_rs.Allocator.{Frames, is_free}

-- The number of frames that are in use.
abbrev pub used : List FrameInfo → ℕ
used [] = 0
used (a ∷ xs) = (if a.count == 0 then 0 else 1) + used xs

pub used-le-length : (xs : List FrameInfo) → used xs ≤ length xs
used-le-length [] = omega arith
used-le-length (a ∷ xs) = ground (arith, used-le-length xs)

pub used-set :
    (xs : List FrameInfo) (i : ℕ) (a b : FrameInfo)
    → get_elem? xs i ≡ some a
    → used (set xs i b) + (if a.count == 0 then 0 else 1)
      ≡ used xs + (if b.count == 0 then 0 else 1)
used-set [] i a b h = ground arith
used-set (c ∷ xs) zero a b h = ground arith
used-set (c ∷ xs) (suc i) a b h = omega (arith, used-set xs i a b h)

pub used-pos :
    (xs : List FrameInfo) (i : ℕ) (a : FrameInfo)
    → get_elem? xs i ≡ some a
    → 0 < a.count
    → 0 < used xs
used-pos [] i a h p = ground arith
used-pos (c ∷ xs) zero a h p = ground arith
used-pos (c ∷ xs) (suc i) a h p = omega (arith, used-pos xs i a h p)

module _ ⦃bits : BitFlags⦄ where
  -- The entry with the index `i`: the frame at `i * 4096`, not in use if it is free.
  pub record IsInfo (i : ℕ) (info : FrameInfo) : Type 0 where
    pub placed : info.frame.start ≡ i * 4096
    pub free_unused : is_free info ≡ true → info.count ≡ 0
    pub counted : info.count < 0x10000000000000000

  -- Every entry, the first one at the index `k`.
  abbrev pub IsArray : ℕ → List FrameInfo → Type 0
  IsArray k [] = Unit {0}
  IsArray k (a ∷ xs) = IsInfo k a × IsArray (suc k) xs

  pub IsArray-get :
      (k : ℕ) (xs : List FrameInfo) (i : ℕ) (a : FrameInfo)
      → IsArray k xs
      → get_elem? xs i ≡ some a
      → IsInfo (k + i) a
  IsArray-get k [] i a v h = cc
  IsArray-get k (c ∷ xs) zero a v h =
      subst (λ j. IsInfo j a) (omega arith) (subst (IsInfo k) (some-injective c a h) v.0)
  IsArray-get k (c ∷ xs) (suc i) a v h =
      subst (λ j. IsInfo j a) (omega arith) (IsArray-get (suc k) xs i a v.1 h)

  pub IsArray-set :
      (k : ℕ) (xs : List FrameInfo) (i : ℕ) (b : FrameInfo)
      → IsArray k xs
      → IsInfo (k + i) b
      → IsArray k (set xs i b)
  IsArray-set k [] i b v h = tt
  IsArray-set k (c ∷ xs) zero b v h = (subst (λ j. IsInfo j b) (omega arith) h, v.1)
  IsArray-set k (c ∷ xs) (suc i) b v h =
      (v.0, IsArray-set (suc k) xs i b v.1 (subst (λ j. IsInfo j b) (omega arith) h))

  -- The frames of the array lie in the HHDM; the statistics count as allocated the frames in use
  -- and `pinned` more, those that hold the array.
  pub record IsWf (pinned : ℕ) (s : Frames) : Type 0 where
    pub infos : IsArray 0 s.array
    pub small : length s.array * 4096 ≤ 0x1000_0000_0000
    pub accounted : s.statistic.allocated ≡ used s.array + pinned
    pub few_pinned : pinned ≤ length s.array

  -- One entry is replaced, and the statistics follow.
  pub IsWf-set :
      (pinned i : ℕ) (before after : FrameInfo) (s s' : Frames)
      → IsWf pinned s
      → get_elem? s.array i ≡ some before
      → IsInfo i after
      → s'.array ≡ set s.array i after
      → s'.statistic.allocated + (if before.count == 0 then 0 else 1)
        ≡ s.statistic.allocated + (if after.count == 0 then 0 else 1)
      → IsWf pinned s'
  IsWf-set pinned i before after s s' w found v array allocated = record {
    infos =
        rw array
          (IsArray-set 0 s.array i after w.infos (subst (λ j. IsInfo j after) (omega arith) v));
    small = rw array (omega (arith, length-set s.array i after));
    accounted = rw array (omega (arith, used-set s.array i before after found));
    few_pinned = rw array (omega (arith, length-set s.array i after));
  }

  pub IsWf-get :
      (pinned i : ℕ) (info : FrameInfo) (s : Frames)
      → IsWf pinned s
      → get_elem? s.array i ≡ some info
      → IsInfo i info
  IsWf-get pinned i info s w found =
      subst (λ j. IsInfo j info) (omega arith) (IsArray-get 0 s.array i info w.infos found)
