-- ===== src/Allocator/Release.antt =====
-- `reference` and `deallocate`: every outcome, and that they keep a well-formed state well-formed.
use silicium_rs.Base.{
  subst, ap, ℕ, ◌+◌, ◌-◌, ◌/◌, ◌≤◌, ◌<◌, ◌≡◌, refl, ◌⊎◌, true, false, none, some, arith, get_elem?,
  set, done, panicked, sub64, sub64-eq, Option-cases, inl, inr, invalid_frame, unwrap_none,
  reference_not_allocated, too_many_deallocations, done_unique, count_overflow, ℕ_discrete, dec_lt,
}
use silicium_rs.Crates.Addresses.{Addresses}
use silicium_rs.Crates.BitFlags.{BitFlags}
use silicium_rs.Frame.{Frame}
use silicium_rs.Frame.Flags
use silicium_rs.FrameState.{FrameInfo}
use silicium_rs.Allocator.{Frames, is_free, give_back, reference, deallocate}
use silicium_rs.Allocator.Invariant.{used-le-length, used-pos, IsWf, IsWf-set, IsWf-get}

module _ ⦃x : Addresses⦄ ⦃bits : BitFlags⦄ where
  -- `reference` adds one user to a frame that has some. It panics outside the array, on a frame
  -- with no user, and where the count would overflow.
  pub reference_cases :
      (f : Frame) (s : Frames)
      → ((reference f s ≡ panicked unwrap_none) × (get_elem? s.array (f.start / 4096) ≡ none))
        ⊎ ((info : FrameInfo) × (get_elem? s.array (f.start / 4096) ≡ some info)
            × (((reference f s ≡ panicked reference_not_allocated) × (info.count ≡ 0))
                ⊎ ((reference f s ≡ panicked count_overflow)
                    × (0x10000000000000000 ≤ info.count + 1))
                ⊎ ((0 < info.count)
                    × (info.count + 1 < 0x10000000000000000)
                    × (reference f s
                        ≡ done (record s {
                          array =
                              set s.array (f.start / 4096) (record info { count = info.count + 1 });
                        })))))
  unfolding reference
  reference_cases f s = elim (Option-cases (get_elem? s.array (f.start / 4096))) [
    | inl e ↦ inl (ground (arith, e, x.frame_index_lem f.start), e)
    | inr (info, e) ↦ inr (
      info,
      e,
      elim (ℕ_discrete info.count 0) [
        | yes z ↦ inl (ground (arith, e, x.frame_index_lem f.start), z)
        | no z ↦ elim (dec_lt (info.count + 1) 0x10000000000000000) [
          | no o ↦ inr (inl (ground (arith, e, x.frame_index_lem f.start), omega arith))
          | yes o ↦ inr (inr (omega arith, o, ground (arith, e, x.frame_index_lem f.start)))
        ]
      ],
    )
  ]

  -- The last user of a frame is gone.
  pub record GivenBack (f : Frame) (before : FrameInfo) (s s' : Frames) : Type 0 where
    pub after : FrameInfo
    pub array : s'.array ≡ set s.array (f.start / 4096) after
    pub memory : s'.memory ≡ s.memory
    pub allocated : s'.statistic.allocated ≡ sub64 s.statistic.allocated 1
    pub frame : after.frame ≡ before.frame
    pub count : after.count ≡ 0
    pub free : is_free after ≡ true
    pub kernel : bits.contains after.flags Flags.kernel ≡ false

  -- The flags that a frame is left with, whatever they were.
  freed_flags :
      (a : ℕ)
      → let flags = bits.insert (bits.remove a Flags.kernel) Flags.free in
        (bits.contains flags Flags.free ≡ true) × (bits.contains flags Flags.kernel ≡ false)
  freed_flags a = ground (
    arith,
    bits.contains-insert (bits.remove a Flags.kernel) 2 2,
    bits.contains-insert (bits.remove a Flags.kernel) 2 5,
    bits.contains-remove a 5 5,
  )

  give_back_state : Frame → FrameInfo → Frames → Frames
  give_back_state f info s =
      let r = give_back (record info { count = info.count - 1 }) s.statistic in
      record s { array = set s.array (f.start / 4096) r.0; statistic = r.1 }

  GivenBack-give_back_state :
      (f : Frame) (info : FrameInfo) (s : Frames)
      → info.count ≡ 1
      → GivenBack f info s (give_back_state f info s)
  unfolding give_back_state give_back
  GivenBack-give_back_state f info s h = record {
    after = (give_back (record info { count = info.count - 1 }) s.statistic).0;
    array = refl;
    memory = refl;
    allocated = ground arith;
    frame = refl;
    count = omega arith;
    free = (freed_flags _).0;
    kernel = (freed_flags _).1;
  }

  -- `deallocate` panics outside the array and on a frame with no user. It takes one user away;
  -- from a frame with more than one nothing else changes, and a frame whose last user goes becomes
  -- free, is no longer a kernel frame, and is no longer counted as allocated.
  pub deallocate_cases :
      (f : Frame) (s : Frames)
      → ((deallocate f s ≡ panicked invalid_frame) × (get_elem? s.array (f.start / 4096) ≡ none))
        ⊎ ((info : FrameInfo) × (get_elem? s.array (f.start / 4096) ≡ some info)
            × (((deallocate f s ≡ panicked too_many_deallocations) × (info.count ≡ 0))
                ⊎ ((1 < info.count)
                    × (deallocate f s
                        ≡ done (record s {
                          array =
                              set s.array (f.start / 4096) (record info { count = info.count - 1 });
                        })))
                ⊎ ((info.count ≡ 1)
                    × ((s' : Frames) × (deallocate f s ≡ done s') × GivenBack f info s s'))))
  unfolding deallocate give_back_state
  deallocate_cases f s = elim (Option-cases (get_elem? s.array (f.start / 4096))) [
    | inl e ↦ inl (ground (arith, e, x.frame_index_lem f.start), e)
    | inr (info, e) ↦ inr (
      info,
      e,
      elim (ℕ_discrete info.count 0) [
        | yes z ↦ inl (ground (arith, e, x.frame_index_lem f.start), z)
        | no z ↦ elim (ℕ_discrete info.count 1) [
          | no o ↦ inr (inl (omega arith, ground (arith, e, x.frame_index_lem f.start)))
          | yes o ↦ inr (
              inr (
                o,
                (
                  give_back_state f info s,
                  ground (arith, e, x.frame_index_lem f.start),
                  GivenBack-give_back_state f info s o,
                ),
              ))
        ]
      ],
    )
  ]

  -- `reference` keeps a well-formed state well-formed.
  pub reference-IsWf :
      (pinned : ℕ) (f : Frame) (s s' : Frames)
      → IsWf pinned s
      → reference f s ≡ done s'
      → IsWf pinned s'
  reference-IsWf pinned f s s' w e = elim (reference_cases f s) [
    | inl (q, _) ↦ cc
    | inr (info, g, inl (q, _)) ↦ cc
    | inr (info, g, inr (inl (q, _))) ↦ cc
    | inr (info, g, inr (inr (p, o, q))) ↦
        let v = IsWf-get pinned (f.start / 4096) info s w g in
        let t : Frames = record s {
          array = set s.array (f.start / 4096) (record info { count = info.count + 1 });
        } in
        subst (IsWf pinned) (done_unique q e) (
          IsWf-set pinned (f.start / 4096) info _ s t w g
            (record { placed = v.placed; free_unused = ground (arith, v.free_unused); counted = o })
            refl (ground arith))
  ]

  -- `deallocate` keeps a well-formed state well-formed.
  pub deallocate-IsWf :
      (pinned : ℕ) (f : Frame) (s s' : Frames)
      → IsWf pinned s
      → deallocate f s ≡ done s'
      → IsWf pinned s'
  deallocate-IsWf pinned f s s' w e = elim (deallocate_cases f s) [
    | inl (q, _) ↦ cc
    | inr (info, g, inl (q, _)) ↦ cc
    | inr (info, g, inr (inl (p, q))) ↦
        let v = IsWf-get pinned (f.start / 4096) info s w g in
        let t : Frames = record s {
          array = set s.array (f.start / 4096) (record info { count = info.count - 1 });
        } in
        subst (IsWf pinned) (done_unique q e) (
          IsWf-set pinned (f.start / 4096) info _ s t w g
            (record {
              placed = v.placed;
              free_unused = ground (arith, v.free_unused);
              counted = omega (arith, v.counted);
            })
            refl (ground arith))
    | inr (info, g, inr (inr (p, (t, q, b)))) ↦
        let v = IsWf-get pinned (f.start / 4096) info s w g in
        subst (IsWf pinned) (done_unique q e) (
          IsWf-set pinned (f.start / 4096) info b.after s t w g
            (record {
              placed = omega (arith, v.placed, ap (λ (f : Frame). f.start) b.frame);
              free_unused = ground (arith, b.count);
              counted = omega (arith, b.count);
            })
            b.array
            (ground (
              arith,
              b.count,
              b.allocated,
              sub64-eq s.statistic.allocated 1,
              used-pos s.array (f.start / 4096) info g,
              used-le-length s.array,
            )))
  ]
