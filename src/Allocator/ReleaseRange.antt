-- ===== src/Allocator/ReleaseRange.antt =====
-- `deallocate_range`, and the round trip with `allocate_range`.
use mathlib.Core.Option.{some-injective}
use silicium_rs.Base.{
  sym, ◌∙◌, ap, subst, ℕ, zero, suc, ◌+◌, ◌*◌, ◌/◌, ◌≡◌, ◌≢◌, ◌≤◌, ◌<◌, ◌⊎◌, refl, true, some,
  arith, get_elem?, set, done, length, length-set, inl, inr, lt_of_get_elem?, get_elem?-set_self,
  get_elem?-set_ne, get_elem?_of_lt, done_unique, ℕ_discrete, List,
}
use silicium_rs.Crates.Addresses.{Addresses}
use silicium_rs.Crates.BitFlags.{BitFlags}
use silicium_rs.Frame.{Frame, frame, Range}
use silicium_rs.Frame.Ranges.{range}
use silicium_rs.Frame.Ranges.Laws.{IsRange, next_lem, next_at_end}
use silicium_rs.FrameState.{FrameInfo}
use silicium_rs.Allocator.{Frames, is_free, deallocate_range, allocate_range}
use silicium_rs.Allocator.Invariant.{IsWf}
use silicium_rs.Allocator.Release.{GivenBack, deallocate-IsWf}
use silicium_rs.Allocator.RoundTrip.{deallocate_last}
use silicium_rs.Allocator.ClaimRange.{TakenSlice-inside, TakenSlice-outside, TakenSlice-length}
use silicium_rs.Allocator.AllocateRange.{RangeAllocated, allocate_range_cases}

-- Each of the `n` entries from `k` on has one user.
abbrev pub OneUser : ℕ → ℕ → List FrameInfo → Type 0
OneUser k n xs =
    (j : ℕ)
    → k ≤ j
    → j < k + n
    → (info : FrameInfo) × (get_elem? xs j ≡ some info) × (info.count ≡ 1)

module _ ⦃x : Addresses⦄ ⦃bits : BitFlags⦄ where
  -- The `n` frames from `k` on are free with no user in the second state, and every other entry is
  -- as in the first.
  pub record RangeFreed (pinned k n : ℕ) (s t : Frames) : Type 0 where
    pub freed :
        (j : ℕ)
        → k ≤ j
        → j < k + n
        → (info : FrameInfo) × (get_elem? t.array j ≡ some info)
          × (is_free info ≡ true)
          × (info.count ≡ 0)
    pub others : (j : ℕ) → (j < k) ⊎ (k + n ≤ j) → get_elem? t.array j ≡ get_elem? s.array j
    pub valid : IsWf pinned t

  -- One frame and the rest of the range.
  RangeFreed-suc :
      (pinned k n : ℕ) (s t u : Frames) (f : Frame) (info : FrameInfo)
      → f.start / 4096 ≡ k
      → get_elem? s.array k ≡ some info
      → GivenBack f info s t
      → RangeFreed pinned (suc k) n t u
      → RangeFreed pinned k (suc n) s u
  RangeFreed-suc pinned k n s t u f info fk g b r =
      let arr : t.array ≡ set s.array k b.after = b.array ∙ ap (λ i. set s.array i b.after) fk in
      record {
        freed = λ j p q. elim (ℕ_discrete k j) [
          | yes e ↦ (
            b.after,
            subst (λ i. get_elem? u.array i ≡ some b.after) e
                (r.others k (inl (omega arith))
                  ∙ ap (λ xs. get_elem? xs k) arr
                  ∙ get_elem?-set_self s.array k b.after (lt_of_get_elem? s.array k info g)),
            b.free,
            b.count,
          )
          | no ne ↦ r.freed j (omega arith) (omega arith)
        ];
        others = λ j o.
            let ne : k ≢ j = λ e. omega arith in
            r.others j (omega arith)
            ∙ ap (λ xs. get_elem? xs j) arr
            ∙ get_elem?-set_ne s.array k j b.after ne;
        valid = r.valid;
      }

  OneUser-rest :
      (k n : ℕ) (s t : Frames) (f : Frame) (info : FrameInfo)
      → f.start / 4096 ≡ k
      → GivenBack f info s t
      → OneUser k (suc n) s.array
      → OneUser (suc k) n t.array
  OneUser-rest k n s t f info fk b o j p q =
      let (c, e, h) = o j (omega arith) (omega arith) in
      let ne : f.start / 4096 ≢ j = λ i. omega arith in
      (c, rw b.array (get_elem?-set_ne s.array (f.start / 4096) j b.after ne ∙ e), h)

  -- On a well-formed state, deallocating a range of frames with one user each, with more rounds
  -- than frames, returns without a panic: these frames are free and without a user, no other
  -- entry has changed, and the state is well-formed.
  pub deallocate_range_lem :
      (pinned k n fuel : ℕ) (s : Frames)
      → IsWf pinned s
      → OneUser k n s.array
      → n < fuel
      → k + n ≤ length s.array
      → (t : Frames) × (deallocate_range fuel (range (frame (k * 4096)) (frame ((k + n) * 4096))) s
          ≡ done t)
        × RangeFreed pinned k n s t
  unfolding deallocate_range
  deallocate_range_lem pinned k n zero s w o h b = absurd (omega arith)
  deallocate_range_lem pinned k zero (suc fuel) s w o h b = (
    s,
    rw (next_at_end (range (frame (k * 4096)) (frame ((k + 0) * 4096))) (omega arith)),
    record { freed = λ j p q. absurd (omega arith); others = λ j i. refl; valid = w },
  )
  deallocate_range_lem pinned k (suc n) (suc fuel) s w o h b =
      let r : Range = range (frame (k * 4096)) (frame ((k + suc n) * 4096)) in
      let v : IsRange r = record {
        start_aligned = omega arith;
        end_aligned = omega arith;
        ordered = omega arith;
        valid = omega (arith, w.small);
      } in
      let (info, g, one) = o k (omega arith) (omega arith) in
      let i : k * 4096 / 4096 ≡ k = omega arith in
      let (t, q, c) = deallocate_last (frame (k * 4096)) s info (rw i g) one in
      let len : length t.array ≡ length s.array =
        ap length c.array ∙ length-set s.array (k * 4096 / 4096) c.after in
      let (u, e, z) =
        deallocate_range_lem pinned (suc k) n fuel t
          (deallocate-IsWf pinned (frame (k * 4096)) s t w q)
          (OneUser-rest k n s t (frame (k * 4096)) info i c o) (omega arith) (omega (arith, len)) in
      let again : range (frame (k * 4096 + 4096)) (frame ((k + suc n) * 4096))
          ≡ range (frame (suc k * 4096)) (frame ((suc k + n) * 4096)) =
        ap (λ (a : ℕ). range (frame a) (frame ((k + suc n) * 4096))) (omega arith)
        ∙ ap (λ (a : ℕ). range (frame (suc k * 4096)) (frame a)) (omega arith) in
      (
        u,
        rw (next_lem r v (omega arith), q, again) e,
        RangeFreed-suc pinned k n s t u (frame (k * 4096)) info i g c z,
      )

  -- On a well-formed state, deallocating the range that `allocate_range` has returned for a count
  -- below 2^64, with more rounds than frames, returns without a panic: its frames are free and
  -- without a user again, no entry outside it differs from before the allocation, and the state is
  -- well-formed.
  pub deallocate_range-allocate_range :
      (pinned n flags fuel : ℕ) (s s' : Frames) (r : Range)
      → IsWf pinned s
      → n < 0x1_0000_0000_0000_0000
      → n < fuel
      → allocate_range n flags s ≡ done (some r, s')
      → (k : ℕ) × (r ≡ range (frame (k * 4096)) (frame ((k + n) * 4096)))
        × (t : Frames) × (deallocate_range fuel r s' ≡ done t)
        × RangeFreed pinned k n s t
  deallocate_range-allocate_range pinned n flags fuel s s' r w b h e =
      elim (allocate_range_cases pinned n flags s w b) [
        | inl (q, _) ↦ absurd (ground (arith, done_unique q e))
        | inr (k, _, inr (q, _)) ↦ cc
        | inr (k, _, inl (u, q, a)) ↦
            let same = done_unique q e in
            let range_same = some-injective _ r (ap (λ z. z.0) same) in
            let state_same : u ≡ s' = ap (λ z. z.1) same in
            let a' = subst (RangeAllocated pinned k n s) state_same a in
            let len = TakenSlice-length k n s.array s'.array a'.taken in
            let one : OneUser k n s'.array = λ j p p'.
              let (c, g) = get_elem?_of_lt s.array j (omega (arith, a'.fits)) in
              let (d, g', t) = TakenSlice-inside k n s.array s'.array j c a'.taken p p' g in
              (d, g', t.count) in
            let (t, d, z) =
              deallocate_range_lem pinned k n fuel s' a'.valid one h
                (omega (arith, len, a'.fits)) in
            (
              k,
              sym range_same,
              t,
              subst (λ (i : Range). deallocate_range fuel i s' ≡ done t) range_same d,
              record {
                freed = z.freed;
                others = λ j o. z.others j o ∙ TakenSlice-outside k n s.array s'.array j a'.taken o;
                valid = z.valid;
              },
            )
      ]
