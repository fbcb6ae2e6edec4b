-- ===== src/Allocator/AllocateRange.antt =====
-- `allocate_range`: every outcome.
use silicium_rs.Base.{
  ap, ℕ, suc, ◌+◌, ◌*◌, ◌≤◌, ◌<◌, ◌≡◌, ◌⊎◌, none, some, List, arith, get_elem?, length, done,
  panicked, inl, inr, dec_lt, get_elem?_of_lt, get_elem?_of_ge, index_out_of_bounds,
}
use silicium_rs.Crates.Addresses.{Addresses}
use silicium_rs.Crates.BitFlags.{BitFlags}
use silicium_rs.Frame.{frame}
use silicium_rs.Frame.Ranges.{range}
use silicium_rs.FrameState.{FrameInfo}
use silicium_rs.FrameState.Slices.{update_slice}
use silicium_rs.Allocator.{Frames, effects, claim, find_window, allocate_range}
use silicium_rs.Allocator.Invariant.{used-le-length, IsArray, IsArray-get, IsWf}
use silicium_rs.Allocator.Window.{Window, NoWindow, find_window_cases}
use silicium_rs.Allocator.ClaimRange.{
  TakenSlice, TakenSlice-length, TakenSlice-IsArray, TakenSlice-used, RangeClaimed, claim_window,
}

module _ ⦃x : Addresses⦄ ⦃bits : BitFlags⦄ where
  -- The first window of `n` free frames starts at the index `k`.
  pub record IsFirst (k n : ℕ) (s : Frames) : Type 0 where
    pub free : Window k n s.array
    pub first : NoWindow 0 k n s.array

  pub record RangeAllocated (pinned k n : ℕ) (s s' : Frames) : Type 0 where
    pub fits : k + n < length s.array
    pub found : IsFirst k n s
    pub taken : TakenSlice k n s.array s'.array
    pub valid : IsWf pinned s'

  frame_at :
      (xs : List FrameInfo) (i : ℕ)
      → IsArray 0 xs
      → i < length xs
      → (a : FrameInfo) × (get_elem? xs i ≡ some a) × (a.frame ≡ frame (i * 4096))
  frame_at xs i v h =
      let (a, e) = get_elem?_of_lt xs i h in
      let p = IsArray-get 0 xs i a v e in (a, e, ap frame (omega (arith, p.placed)))

  range_taken :
      (pinned flags k n : ℕ) (s : Frames)
      → IsWf pinned s
      → find_window (length s.array + 2) 0 n s.array ≡ done (some k)
      → IsFirst k n s
      → k + n ≤ length s.array
      → RangeClaimed k n s.array (effects s) (update_slice (claim flags) k n s.array (effects s))
      → ((s' : Frames) × (allocate_range n flags s
            ≡ done (some (range (frame (k * 4096)) (frame ((k + n) * 4096))), s'))
          × RangeAllocated pinned k n s s')
        ⊎ ((allocate_range n flags s ≡ panicked index_out_of_bounds) × (k + n ≡ length s.array))
  unfolding allocate_range
  range_taken pinned flags k n s w e first fits (ys, e', q, t, m) =
      let l = TakenSlice-length k n s.array ys t in
      let v = TakenSlice-IsArray 0 k n s.array ys w.infos t in
      elim (dec_lt (k + n) (length s.array)) [
        | yes in_range ↦
            let (a, p, f) = frame_at ys k v (omega (arith, l)) in
            let (b, p', f') = frame_at ys (k + n) v (omega (arith, l)) in
            inl (
              record { array = ys; statistic = e'.statistic; memory = e'.memory },
              ground (arith, e, q, p, p', f, f'),
              record {
                fits = in_range;
                found = first;
                taken = t;
                valid = record {
                  infos = v;
                  small = omega (arith, l, w.small);
                  accounted = omega (arith, m, TakenSlice-used k n s.array ys t fits, w.accounted);
                  few_pinned = omega (arith, l, w.few_pinned);
                };
              },
            )
        | no past ↦ inr (ground (arith, e, q, get_elem?_of_ge ys (k + n)), omega arith)
      ]

  -- On a well-formed state, for a count that is a `usize`: `allocate_range` returns nothing and
  -- changes nothing exactly when there is no window of so many free frames. Otherwise it takes the
  -- first window, marks its frames as taken with one user each and no other frame, keeps the state
  -- well-formed and returns the window as a range; but it panics if that window reaches the end of
  -- the array.
  pub allocate_range_cases :
      (pinned n flags : ℕ) (s : Frames)
      → IsWf pinned s
      → n < 0x1_0000_0000_0000_0000
      → ((allocate_range n flags s ≡ done (none, s)) × NoWindow 0 (suc (length s.array)) n s.array)
        ⊎ ((k : ℕ) × IsFirst k n s
            × (((s' : Frames) × (allocate_range n flags s
                    ≡ done (some (range (frame (k * 4096)) (frame ((k + n) * 4096))), s'))
                  × RangeAllocated pinned k n s s')
                ⊎ ((allocate_range n flags s ≡ panicked index_out_of_bounds)
                    × (k + n ≡ length s.array))))
  unfolding allocate_range
  allocate_range_cases pinned n flags s w b =
      elim (find_window_cases n s.array b (omega (arith, w.small))) [
        | inl (e, h) ↦ inl (ground (arith, e), h)
        | inr (k, e, l, f, v, h) ↦
            let first : IsFirst k n s = record { free = v; first = h } in
            inr (
              k,
              first,
              range_taken pinned flags k n s w e first f (
                  claim_window flags 0 k n s.array (effects s) w.infos v f (omega (arith, w.small))
                    (omega (arith, w.accounted, w.few_pinned, w.small, used-le-length s.array))),
            )
      ]
