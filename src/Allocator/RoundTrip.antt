-- ===== src/Allocator/RoundTrip.antt =====
-- A frame that is allocated and deallocated is free again.
use mathlib.Core.Option.{some-injective}
use mathlib.Core.Path.{subst₂}
use silicium_rs.Base.{
  sym, ◌∙◌, ap, subst, ℕ, ◌+◌, ◌*◌, ◌/◌, ◌≡◌, ◌≢◌, true, some, arith, get_elem?, done, add64-eq,
  sub64-eq, inl, inr, lt_of_get_elem?, get_elem?-set_self, get_elem?-set_ne, done_unique,
}
use silicium_rs.Crates.Addresses.{Addresses}
use silicium_rs.Crates.BitFlags.{BitFlags}
use silicium_rs.Frame.{Frame, frame}
use silicium_rs.FrameState.{FrameInfo}
use silicium_rs.Allocator.{Frames, is_free, allocate, deallocate}
use silicium_rs.Allocator.Invariant.{used-le-length, IsWf}
use silicium_rs.Allocator.Allocate.{Allocated, allocate_cases}
use silicium_rs.Allocator.Release.{GivenBack, deallocate_cases}

module _ ⦃x : Addresses⦄ ⦃bits : BitFlags⦄ where
  -- The frame `i` is free with no user in the second state, every other entry is as in the first,
  -- and as many frames count as allocated.
  pub record Restored (i : ℕ) (s t : Frames) : Type 0 where
    pub info : FrameInfo
    pub found : get_elem? t.array i ≡ some info
    pub free : is_free info ≡ true
    pub unused : info.count ≡ 0
    pub others : (j : ℕ) → i ≢ j → get_elem? t.array j ≡ get_elem? s.array j
    pub allocated : t.statistic.allocated ≡ s.statistic.allocated

  -- The last user goes.
  pub deallocate_last :
      (f : Frame) (s : Frames) (info : FrameInfo)
      → get_elem? s.array (f.start / 4096) ≡ some info
      → info.count ≡ 1
      → (t : Frames) × (deallocate f s ≡ done t) × GivenBack f info s t
  deallocate_last f s info g h = elim (deallocate_cases f s) [
    | inl (_, k) ↦ absurd (ground (arith, k))
    | inr (info', g', inl (_, z)) ↦ absurd (ground (arith, g'))
    | inr (info', g', inr (inl (z, _))) ↦ absurd (ground (arith, g'))
    | inr (info', g', inr (inr (_, (t, q, b)))) ↦
        let e = some-injective info' info (sym g' ∙ g) in (t, q, subst (λ c. GivenBack f c s t) e b)
  ]

  Restored-Allocated :
      (pinned flags : ℕ) (f : Frame) (s s' : Frames)
      → IsWf pinned s
      → Allocated flags (f.start / 4096) s s'
      → (t : Frames) × (deallocate f s' ≡ done t) × Restored (f.start / 4096) s t
  Restored-Allocated pinned flags f s s' w a =
      let i = f.start / 4096 in
      let lt = lt_of_get_elem? s.array i a.before a.found in
      let here = get_elem?-set_self s.array i a.after lt in
      let (t, q, b) =
        deallocate_last f s' a.after (rw a.array here) (omega (arith, a.claimed.count, a.unused)) in
      (
        t,
        q,
        record {
          info = b.after;
          found = rw b.array (
              get_elem?-set_self s'.array i b.after
                (lt_of_get_elem? s'.array i a.after (rw a.array here)));
          free = b.free;
          unused = b.count;
          others = λ j n.
              rw (b.array, get_elem?-set_ne s'.array i j b.after n, a.array)
                (get_elem?-set_ne s.array i j a.after n);
          allocated = ground (
            arith,
            b.allocated,
            a.claimed.allocated,
            w.accounted,
            w.small,
            used-le-length s.array,
            w.few_pinned,
            add64-eq s.statistic.allocated 1,
            sub64-eq (s.statistic.allocated + 1) 1,
          );
        },
      )

  -- Deallocating the frame that an allocation on a well-formed state has returned succeeds and
  -- undoes it: the frame is free and without a user again, no other entry differs from before,
  -- and neither does the number of allocated frames.
  pub deallocate-allocate :
      (pinned flags : ℕ) (s s' : Frames) (f : Frame)
      → IsWf pinned s
      → allocate flags s ≡ done (some f, s')
      → (t : Frames) × (deallocate f s' ≡ done t) × Restored (f.start / 4096) s t
  deallocate-allocate pinned flags s s' f w e = elim (allocate_cases pinned flags s w) [
    | inl (_, q) ↦ absurd (ground (arith, q))
    | inr (i, t, q, a) ↦
        let r = done_unique q e in
        let start : i * 4096 ≡ f.start =
          ap (λ (g : Frame). g.start) (some-injective (frame (i * 4096)) f (ap (λ z. z.0) r)) in
        let index : i ≡ f.start / 4096 = omega arith in
        Restored-Allocated pinned flags f s s' w
          (subst₂ (λ j z. Allocated flags j s z) index (ap (λ z. z.1) r) a)
  ]
