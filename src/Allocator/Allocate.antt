-- ===== src/Allocator/Allocate.antt =====
-- `allocate` and the refusals: which frame is handed out, and what changes.
use silicium_rs.Base.{
  done_unique_state, ap, subst, ℕ, ◌*◌, ◌≡◌, refl, ◌⊎◌, true, Option, none, some, arith, get_elem?,
  set, done, add64-eq, inl, inr, lt_of_get_elem?,
}
use silicium_rs.Crates.Addresses.{Addresses}
use silicium_rs.Crates.BitFlags.{BitFlags}
use silicium_rs.Frame.{Frame, frame}
use silicium_rs.FrameState.{FrameInfo}
use silicium_rs.FrameState.Slices.Laws.{NoneIn, NoneBefore, find_cases}
use silicium_rs.Allocator.{Frames, effects, is_free, allocate}
use silicium_rs.Allocator.Invariant.{used-le-length, IsWf, IsWf-set, IsWf-get}
use silicium_rs.Allocator.Claim.{Claimed, claim_lem}

module _ ⦃x : Addresses⦄ ⦃bits : BitFlags⦄ where
  -- The frame with the index `i` is handed out: it is the first that is free, it gets one user,
  -- and no other entry changes.
  pub record Allocated (flags i : ℕ) (s s' : Frames) : Type 0 where
    pub before : FrameInfo
    pub after : FrameInfo
    pub found : get_elem? s.array i ≡ some before
    pub was_free : is_free before ≡ true
    pub first : NoneBefore is_free i s.array
    pub array : s'.array ≡ set s.array i after
    pub unused : before.count ≡ 0
    pub claimed : Claimed flags before (effects s) after (effects s')

  -- On a well-formed state `allocate` never panics. It returns nothing exactly when no frame is
  -- free, and then changes nothing; otherwise it hands out the first free frame.
  pub allocate_cases :
      (pinned flags : ℕ) (s : Frames)
      → IsWf pinned s
      → (NoneIn is_free s.array × (allocate flags s ≡ done (none, s)))
        ⊎ ((i : ℕ) × (s' : Frames) × (allocate flags s ≡ done (some (frame (i * 4096)), s'))
            × Allocated flags i s s')
  unfolding allocate
  allocate_cases pinned flags s w = elim (find_cases is_free s.array) [
    | inl (e, h) ↦ inl (h, rw (e, allocate))
    | inr (i, info, e, g, p, h) ↦
        let v = IsWf-get pinned i info s w g in
        let (info', e', q, c) =
          claim_lem flags info (effects s) (omega (arith, lt_of_get_elem? s.array i info g))
            (omega (arith, v.free_unused p)) in
        inr (
          i,
          record { array = set s.array i info'; statistic = e'.statistic; memory = e'.memory },
          ground (arith, e, q, v.placed, c.frame),
          record {
            before = info;
            after = info';
            found = g;
            was_free = p;
            first = h;
            array = refl;
            unused = v.free_unused p;
            claimed = c;
          },
        )
  ]

  Allocated-IsWf :
      (pinned flags i : ℕ) (s s' : Frames) → IsWf pinned s → Allocated flags i s s' → IsWf pinned s'
  Allocated-IsWf pinned flags i s s' w a =
      let v = IsWf-get pinned i a.before s w a.found in
      let c = a.claimed in
      IsWf-set pinned i a.before a.after s s' w a.found
        (record {
          placed = omega (arith, v.placed, ap (λ (f : Frame). f.start) c.frame);
          free_unused = ground (arith, c.taken);
          counted = omega (arith, c.count, a.unused);
        })
        a.array
        (ground (
          arith,
          used-le-length s.array,
          c.allocated,
          c.count,
          a.unused,
          add64-eq s.statistic.allocated 1,
        ))

  -- `allocate` keeps a well-formed state well-formed, also when it returns nothing.
  pub allocate-IsWf :
      (pinned flags : ℕ) (s s' : Frames) (r : Option Frame)
      → IsWf pinned s
      → allocate flags s ≡ done (r, s')
      → IsWf pinned s'
  allocate-IsWf pinned flags s s' r w e = elim (allocate_cases pinned flags s w) [
    | inl (_, q) ↦ subst (IsWf pinned) (done_unique_state q e) w
    | inr (i, t, q, a) ↦
        subst (IsWf pinned) (done_unique_state q e) (Allocated-IsWf pinned flags i s t w a)
  ]
