-- ===== src/Boot/Settling.antt =====
-- `State::setup`: what frame allocator its array and its statistics make.
use silicium_rs.Base.{
  ℕ, zero, suc, ◌+◌, ◌-◌, ◌*◌, ◌/◌, ◌%◌, ◌^◌, u64_mod, ◌≤◌, ◌<◌, ◌≡◌, ◌∙◌, inl, inr, refl, sym, ap,
  subst, arith, true, false, ◌&&◌, ltb, leb, min, some, List, [], ◌∷◌, length, get_elem?,
  lt_of_get_elem?, done, >>=-eq-done, done_injective, done_unique, add64, Bool-cases,
}
use mathlib.Core.Option.{some-injective}
use silicium_rs.Crates.Addresses.{Addresses}
use silicium_rs.Crates.BitFlags.{BitFlags}
use silicium_rs.Frame.{Stats, new_stats, frame, new}
use silicium_rs.Frame.Flags
use silicium_rs.FrameState.{FrameInfo, new_info}
use silicium_rs.FrameState.Slices.{find}
use silicium_rs.FrameState.Slices.MapSlice.{map_slice, length-map_slice}
use silicium_rs.FrameState.Setup.{
  MemoryType, MemmapEntry, usable, kernel_and_modules, bootloader_reclaimable, bad_memory, other,
  initial_flags, init_loop, mark_entries, last_usable, setup,
}
use silicium_rs.FrameState.Setup.Marks.{
  IsRegion, AreRegions, covers, marked, mark_entries_run, init_loop_lem,
}
use silicium_rs.FrameState.Setup.Result.{holds, with_array, array_frames, last_usable-le, setup_run}
use silicium_rs.Allocator.{Memory, is_free}
use silicium_rs.Allocator.Invariant.{used, used-le-length, IsInfo, IsWf}
use silicium_rs.Boot.Accounts.{
  covered, AreApart, used-zero, get_elem?-map_slice_inv, IsArray-of, slice_account, array_account,
}

module _ ⦃bits : BitFlags⦄ where
  -- Between two entries of the memory map: the frames that the entries left still cover are unused
  -- and not free, and the frames in use are counted.
  record Settling (es : List MemmapEntry) (xs : List FrameInfo) (s : Stats) : Type 0 where
    infos : (j : ℕ) (a : FrameInfo) → get_elem? xs j ≡ some a → IsInfo j a
    fresh :
        (j : ℕ) (a : FrameInfo)
        → get_elem? xs j ≡ some a
        → covered es j ≡ true
        → (a.count ≡ 0) × (is_free a ≡ false)
    counted : s.allocated ≡ used xs

  kernel_not_free :
      (a : FrameInfo) → is_free a ≡ false → ¬ (is_free (marked kernel_and_modules a) ≡ true)
  kernel_not_free a f q = ground (
    arith,
    q,
    f,
    bits.contains-insert (bits.remove a.flags Flags.poisoned) 5 2,
    bits.contains-remove a.flags 0 2,
  )

  marked-IsInfo :
      (t : MemoryType) (j : ℕ) (a : FrameInfo)
      → IsInfo j a
      → a.count ≡ 0
      → is_free a ≡ false
      → IsInfo j (marked t a)
  marked-IsInfo usable j a v z f = record {
    placed = v.placed;
    free_unused = λ _. z;
    counted = v.counted;
  }
  marked-IsInfo bad_memory j a v z f = v
  marked-IsInfo other j a v z f = elim (Bool-cases (bits.contains a.flags Flags.poisoned)) [
    | inl p ↦ rw p v
    | inr p ↦ rw p (record { placed = v.placed; free_unused = λ _. z; counted = v.counted })
  ]
  marked-IsInfo kernel_and_modules j a v z f = record {
    placed = v.placed;
    free_unused = λ q. absurd (kernel_not_free a f q);
    counted = omega arith;
  }
  marked-IsInfo bootloader_reclaimable j a v z f = record {
    placed = v.placed;
    free_unused = λ q. absurd (kernel_not_free a f q);
    counted = omega arith;
  }

  -- A region is settled.
  region-infos :
      (e : MemmapEntry) (es : List MemmapEntry) (first n : ℕ) (xs : List FrameInfo) (s : Stats)
      → ((i : ℕ) → covers e i ≡ true → covered es i ≡ false)
      → ((j : ℕ) → j < length xs → leb first j && ltb j (first + n) ≡ covers e j)
      → Settling (e ∷ es) xs s
      → (j : ℕ) (b : FrameInfo) → get_elem? (map_slice (marked e.typ) first n xs) j ≡ some b
      → IsInfo j b × (covered es j ≡ true → (b.count ≡ 0) × (is_free b ≡ false))
  region-infos e es first n xs s apart same st j b g =
      let (a, h, q) = get_elem?-map_slice_inv (marked e.typ) first n xs j b g in
      let lt = lt_of_get_elem? xs j a h in
      elim (Bool-cases (covers e j)) [
        | inl c ↦
            let (z, f) = st.fresh j a h (ground (arith, c)) in
            let here : b ≡ marked e.typ a = ground (arith, q, same j lt, c) in
            (
              subst (IsInfo j) (sym here) (marked-IsInfo e.typ j a (st.infos j a h) z f),
              λ r. absurd (ground (arith, r, apart j c)),
            )
        | inr c ↦
            let here : b ≡ a = ground (arith, q, same j lt, c) in
            (
              subst (IsInfo j) (sym here) (st.infos j a h),
              λ r. rw here (st.fresh j a h (ground (arith, c, r))),
            )
      ]

module _ ⦃x : Addresses⦄ ⦃bits : BitFlags⦄ where
  mark_entries-Settling :
      (last : ℕ) (es : List MemmapEntry) (xs : List FrameInfo) (s : Stats)
      → last * 4096 ≤ 0x1000_0000_0000
      → AreRegions es
      → AreApart es
      → length xs ≡ last
      → Settling es xs s
      → (ys : List FrameInfo) × (s' : Stats) × (mark_entries last es xs s ≡ done (ys, s'))
        × (length ys ≡ last)
        × Settling [] ys s'
  unfolding mark_entries
  mark_entries-Settling last [] xs s b h apart l st = (xs, s, refl, l, st)
  mark_entries-Settling last (e ∷ es) xs s b h apart l st =
      let first = min (e.base / 4096) last in
      let stop = min ((e.base + e.len) / 4096) last in
      let same : (j : ℕ)
          → j < length xs
          → leb first j && ltb j (first + (stop - first)) ≡ covers e j =
        λ j q. ground (arith, l) in
      let (t, q, c) =
        slice_account e.typ first (stop - first) xs s (omega (arith, st.counted, used-le-length xs))
          (λ j a p k g. (st.fresh j a g (ground (arith, same j (lt_of_get_elem? xs j a g)))).0) in
      let zs = map_slice (marked e.typ) first (stop - first) xs in
      let both = region-infos e es first (stop - first) xs s apart.0 same st in
      let (ys, s', d, n, st') =
        mark_entries-Settling last es zs t b h.1 apart.1
          (length-map_slice (marked e.typ) first (stop - first) xs ∙ l)
          (record {
            infos = λ j a g. (both j a g).0;
            fresh = λ j a g. (both j a g).1;
            counted = omega (arith, c, st.counted);
          }) in
      (ys, s', mark_entries_run last e es xs zs ys s t s' h.0 l q d, n, st')

  init_loop-allocated :
      (n i : ℕ) (s s' : Stats) (xs : List FrameInfo)
      → init_loop n i s ≡ done (xs, s')
      → s'.allocated ≡ s.allocated
  unfolding init_loop
  init_loop-allocated zero i s s' xs e = ground (arith, e)
  init_loop-allocated (suc n) i s s' xs e =
      let (p, _, f) = >>=-eq-done (x.physical_new ((i * 2 ^ x.page_shift) % u64_mod)) _ e in
      let (fr, _, g) = >>=-eq-done (new p) _ f in
      let ((ys, u), d, q) =
        >>=-eq-done
          (init_loop n (suc i)
            (record s { poisoned = add64 s.poisoned 1; total = add64 s.total 1 }))
          _ g in
      ap (λ (z : List FrameInfo × Stats). z.1.allocated) (sym (done_injective q))
      ∙ init_loop-allocated n (suc i) _ u ys d

  initial_not_free : (i : ℕ) → bits.contains (initial_flags i) Flags.free ≡ false
  unfolding initial_flags
  initial_not_free i = ground (
    arith,
    bits.contains-bit 0 2,
    bits.contains-bit 7 2,
    bits.contains-insert 1 7 2,
    bits.contains-insert 1 8 2,
    bits.contains-insert (bits.insert 1 128) 8 2,
    bits.contains-insert 1 9 2,
    bits.contains-insert (bits.insert 1 128) 9 2,
    bits.contains-insert (bits.insert 1 256) 9 2,
    bits.contains-insert (bits.insert (bits.insert 1 128) 256) 9 2,
  )

  -- Between the two loops every frame is unused and not free.
  init_loop-Settling :
      (n : ℕ) (es : List MemmapEntry) (xs : List FrameInfo) (s : Stats)
      → n * 4096 ≤ 0x1000_0000_0000
      → init_loop n 0 new_stats ≡ done (xs, s)
      → Settling es xs s
  init_loop-Settling n es xs s b e =
      let (ys, u, d, l, g) = init_loop_lem n 0 new_stats (omega arith) in
      let same : ys ≡ xs = ap (λ (z : List FrameInfo × Stats). z.0) (done_unique d e) in
      let entry : (j : ℕ) (a : FrameInfo)
          → get_elem? xs j ≡ some a
          → a ≡ new_info (frame (j * 4096)) (initial_flags (j * 4096)) =
        λ j a h.
          let h' : get_elem? ys j ≡ some a = rw same h in
          let same_index : 0 + j ≡ j = omega arith in
          some-injective a (new_info (frame (j * 4096)) (initial_flags (j * 4096))) (
            sym h'
            ∙ g j (omega (arith, l, lt_of_get_elem? ys j a h'))
            ∙ ap (λ (c : ℕ). some (new_info (frame (c * 4096)) (initial_flags (c * 4096))))
                same_index) in
      record {
        infos = λ j a h.
            rw (entry j a h)
              (record { placed = refl; free_unused = λ _. refl; counted = omega arith });
        fresh = λ j a h _. rw (entry j a h) (refl, initial_not_free (j * 4096));
        counted =
            init_loop-allocated n 0 new_stats s xs e
            ∙ sym (used-zero xs (λ j a h. ap (λ (k : FrameInfo). k.count) (entry j a h)));
      }

  with_array_not_free : (a : FrameInfo) → is_free (with_array a) ≡ false
  with_array_not_free a = ground (
    arith,
    bits.contains-insert (bits.remove a.flags Flags.free) 5 2,
    bits.contains-remove a.flags 2 2,
  )

  with_array-IsInfo : (j : ℕ) (a : FrameInfo) → IsInfo j a → IsInfo j (with_array a)
  with_array-IsInfo j a v = record {
    placed = v.placed;
    free_unused = λ q. absurd (
        ground (
          arith,
          q,
          bits.contains-insert (bits.remove a.flags Flags.free) 5 2,
          bits.contains-remove a.flags 2 2,
        ));
    counted = v.counted;
  }

  -- On a memory map of regions that the HHDM shows, of which no two cover the same frame, whose
  -- regular regions end at `top` at the latest, with a usable region that has 24 bytes for each
  -- frame below `top`, where the frames that are taken for the array lie below `top`: `setup`
  -- returns an array with the frames in order, in which every free frame has no user, and
  -- statistics that count as allocated the frames with a user and those taken for the array. Of
  -- these frames, which are as many as 8 bytes for each frame fill and no more, none is free. It is
  -- not said that no free frame holds a part of the array, whose entries have 24 bytes.
  pub setup-IsWf :
      (mmap : List MemmapEntry) (top k : ℕ) (r : MemmapEntry) (memory : Memory)
      → AreRegions mmap
      → AreApart mmap
      → last_usable mmap ≡ some top
      → find (holds (top / 4096)) mmap ≡ some (k, r)
      → IsRegion r
      → r.base / 4096 + top / 4096 * 8 / 4096 < top / 4096
      → (array : List FrameInfo) × (stats : Stats) × (setup [] mmap ≡ done (array, stats))
        × IsWf
            (array_frames r (top / 4096))
            (record { array = array; statistic = stats; memory = memory })
        × ((j : ℕ) (b : FrameInfo)
            → r.base / 4096 ≤ j
            → j ≤ r.base / 4096 + top / 4096 * 8 / 4096
            → get_elem? array j ≡ some b
            → is_free b ≡ false)
  setup-IsWf mmap top k r memory h apart e f ir b =
      let last = top / 4096 in
      let bound = last_usable-le mmap top h e in
      let first = r.base / 4096 in
      let n = array_frames r last in
      let (xs, s1, i, l, _) = init_loop_lem last 0 new_stats (omega (arith, bound)) in
      let (ys, s2, m, len, st) =
        mark_entries-Settling last mmap xs s1 (omega (arith, bound)) h apart l
          (init_loop-Settling last mmap xs s1 (omega (arith, bound)) i) in
      let (s3, q, c, u) =
        array_account first n ys s2 (omega (arith, st.counted, used-le-length ys, len, bound))
          (omega (arith, len)) in
      let zs = map_slice with_array first n ys in
      let length_zs : length zs ≡ last = length-map_slice with_array first n ys ∙ len in
      (
        zs,
        s3,
        setup_run mmap top k r xs ys zs s1 s2 s3 h e f ir b i m len q,
        record {
          infos = IsArray-of 0 zs (λ j d g.
              let (a, g', d_eq) = get_elem?-map_slice_inv with_array first n ys j d g in
              let v = st.infos j a g' in
              let same : j ≡ 0 + j = omega arith in
              subst (λ i. IsInfo i d) same
                (elim (Bool-cases (leb first j && ltb j (first + n))) [
                  | inl y ↦ subst (IsInfo j) (ground (arith, d_eq, y)) (with_array-IsInfo j a v)
                  | inr y ↦ subst (IsInfo j) (ground (arith, d_eq, y)) v
                ]));
          small = omega (arith, length_zs, bound);
          accounted = omega (arith, c, u, st.counted);
          few_pinned = omega (arith, length_zs);
        },
        λ j d lo hi g.
            let (a, g', d_eq) = get_elem?-map_slice_inv with_array first n ys j d g in
            let here : leb first j && ltb j (first + n) ≡ true = ground arith in
            let same : d ≡ with_array a = ground (arith, d_eq, here) in
            rw same (with_array_not_free a),
      )
