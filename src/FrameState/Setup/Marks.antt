-- ===== src/FrameState/Setup/Marks.antt =====
-- The loops of `State::setup` against what each frame on its own becomes.
use silicium_rs.Base.{
  ◌∙◌, ap, subst, ℕ, zero, suc, ◌+◌, ◌-◌, ◌*◌, ◌/◌, ◌%◌, ◌^◌, ◌≤◌, ◌<◌, ◌≡◌, refl, inl, inr, Bool,
  ◌&&◌, ltb, leb, min, some, List, [], ◌∷◌, arith, get_elem?, lt_of_get_elem?, length,
  if◌then◌else◌, done, Bool-cases, add64, add64-eq, u64_mod,
}
use silicium_rs.Crates.Addresses.{Addresses}
use silicium_rs.Crates.BitFlags.{BitFlags}
use silicium_rs.Frame.{Stats, frame}
use silicium_rs.Frame.Laws.{index-eq, new-eq}
use silicium_rs.Frame.Flags
use silicium_rs.FrameState.{FrameInfo, new_info}
use silicium_rs.FrameState.Slices.{update_slice}
use silicium_rs.FrameState.Slices.MapSlice.{
  map_slice, length-map_slice, get_elem?-map_slice, update_slice-map_slice,
}
use silicium_rs.FrameState.Setup.{
  MemoryType, MemmapEntry, usable, kernel_and_modules, bootloader_reclaimable, bad_memory, other,
  initial_flags, init_loop, mark, entry_bounds, mark_entries,
}

-- A region that lies in the part of memory that the HHDM shows.
abbrev pub IsRegion : MemmapEntry → Type 0
IsRegion e = e.base + e.len ≤ 0xfff_ffff_f000

abbrev pub AreRegions : List MemmapEntry → Type 0
AreRegions [] = Unit {0}
AreRegions (e ∷ es) = IsRegion e × AreRegions es

-- The whole frames up to the end of the region, from the frame of its start on.
abbrev pub covers : MemmapEntry → ℕ → Bool
covers e i = leb (e.base / 4096) i && ltb i ((e.base + e.len) / 4096)

module _ ⦃bits : BitFlags⦄ where
  -- What a frame in a region of the type becomes.
  abbrev pub marked : MemoryType → FrameInfo → FrameInfo
  marked usable info = record info {
    flags = bits.insert (bits.remove info.flags Flags.poisoned) Flags.free;
  }
  marked bad_memory info = info
  marked other info = if bits.contains info.flags Flags.poisoned then info else record info {
    flags = bits.insert (bits.remove info.flags Flags.poisoned) Flags.reserved;
  }
  marked _ info = record info {
    flags = bits.insert (bits.remove info.flags Flags.poisoned) Flags.kernel;
    count = 1;
  }

  -- What the frame with the index becomes by all regions that cover it, one after another.
  abbrev pub after_regions : List MemmapEntry → ℕ → FrameInfo → FrameInfo
  after_regions [] i info = info
  after_regions (e ∷ es) i info =
      after_regions es i (if covers e i then marked e.typ info else info)

module _ ⦃x : Addresses⦄ ⦃bits : BitFlags⦄ where
  mark-marked :
      (t : MemoryType) (info : FrameInfo) (s : Stats)
      → (s' : Stats) × (done (mark t info s) ≡ done (marked t info, s'))
  unfolding mark
  mark-marked usable info s = (_, refl)
  mark-marked bad_memory info s = (_, refl)
  mark-marked kernel_and_modules info s = (_, refl)
  mark-marked bootloader_reclaimable info s = (_, refl)
  mark-marked other info s = elim (Bool-cases (bits.contains info.flags Flags.poisoned)) [
    | inl p ↦ ((mark other info s).1, ground (arith, p))
    | inr p ↦ ((mark other info s).1, ground (arith, p))
  ]

  entry_bounds-eq :
      (last : ℕ) (e : MemmapEntry)
      → IsRegion e
      → entry_bounds last e ≡ done (min (e.base / 4096) last, min ((e.base + e.len) / 4096) last)
  unfolding entry_bounds
  entry_bounds-eq last e h = ground (
    arith,
    index-eq e.base (omega arith),
    index-eq (e.base + e.len) (omega arith),
    add64-eq e.base e.len (omega arith),
  )

  -- `mark_entries` by the run of one region and that of the others.
  pub mark_entries_run :
      (last : ℕ) (e : MemmapEntry) (es : List MemmapEntry) (xs zs ys : List FrameInfo)
      (s t s' : Stats)
      → IsRegion e
      → length xs ≡ last
      → update_slice
          (λ a c. done (mark e.typ a c))
          (min (e.base / 4096) last)
          (min ((e.base + e.len) / 4096) last - min (e.base / 4096) last)
          xs
          s
        ≡ done (zs, t)
      → mark_entries last es zs t ≡ done (ys, s')
      → mark_entries last (e ∷ es) xs s ≡ done (ys, s')
  unfolding mark_entries
  mark_entries_run last e es xs zs ys s t s' h l q d =
      let ordered : min (e.base / 4096) last ≤ min ((e.base + e.len) / 4096) last = omega arith in
      let in_range : min ((e.base + e.len) / 4096) last ≤ length xs = omega (arith, l) in
      ground (arith, entry_bounds-eq last e h, q, d)

  pub mark_entries-after_regions :
      (last : ℕ) (es : List MemmapEntry) (infos : List FrameInfo) (s : Stats)
      → AreRegions es
      → length infos ≡ last
      → (ys : List FrameInfo) × (s' : Stats) × (mark_entries last es infos s ≡ done (ys, s'))
        × (length ys ≡ last)
        × ((j : ℕ) (a : FrameInfo)
            → get_elem? infos j ≡ some a
            → get_elem? ys j ≡ some (after_regions es j a))
  unfolding mark_entries
  mark_entries-after_regions last [] infos s h l = (infos, s, refl, l, λ j a g. g)
  mark_entries-after_regions last (e ∷ es) infos s h l =
      let first = min (e.base / 4096) last in
      let stop = min ((e.base + e.len) / 4096) last in
      let r : IsRegion e = h.0 in
      let (t, q) =
        update_slice-map_slice (marked e.typ) (λ a c. done (mark e.typ a c)) (mark-marked e.typ)
          first (stop - first) infos s in
      let zs = map_slice (marked e.typ) first (stop - first) infos in
      let len : length zs ≡ last = length-map_slice (marked e.typ) first (stop - first) infos ∙ l in
      let (ys, s', d, n, g) = mark_entries-after_regions last es zs t h.1 len in
      (
        ys,
        s',
        mark_entries_run last e es infos zs ys s t s' r l q d,
        n,
        λ j a k.
            let lt = lt_of_get_elem? infos j a k in
            let same : leb first j && ltb j (first + (stop - first)) ≡ covers e j =
              ground (arith, l) in
            g j (if covers e j then marked e.typ a else a) (
              subst (λ c. get_elem? zs j ≡ some (if c then marked e.typ a else a)) same
                (get_elem?-map_slice (marked e.typ) first (stop - first) infos j a k)),
      )

  pub init_loop_lem :
      (n i : ℕ) (s : Stats)
      → (i + n) * 4096 ≤ 0x1000_0000_0000
      → (xs : List FrameInfo) × (s' : Stats) × (init_loop n i s ≡ done (xs, s'))
        × (length xs ≡ n)
        × ((j : ℕ)
            → j < n
            → get_elem? xs j
              ≡ some (new_info (frame ((i + j) * 4096)) (initial_flags ((i + j) * 4096))))
  unfolding init_loop
  init_loop_lem zero i s h = ([], s, refl, refl, λ j k. absurd (omega arith))
  init_loop_lem (suc n) i s h =
      let addr = i * 4096 in
      let shifted : (i * 2 ^ x.page_shift) % u64_mod ≡ addr =
        ground (arith, x.page_shift_lem, ap (λ (k : ℕ). i * 2 ^ k) x.page_shift_lem) in
      let s1 : Stats = record s { poisoned = add64 s.poisoned 1; total = add64 s.total 1 } in
      let (xs, s', e, l, g) = init_loop_lem n (suc i) s1 (omega arith) in
      (
        new_info (frame addr) (initial_flags addr) ∷ xs,
        s',
        ground
            (arith, shifted, x.physical_new-valid addr (omega arith), new-eq addr (omega arith), e),
        ap suc l,
        elements n i xs g,
      )
    where
      elements :
          (n i : ℕ) (xs : List FrameInfo)
          → ((j : ℕ)
              → j < n
              → get_elem? xs j
                ≡ some (new_info (frame ((suc i + j) * 4096)) (initial_flags ((suc i + j) * 4096))))
          → (j : ℕ) → j < suc n
          → get_elem? (new_info (frame (i * 4096)) (initial_flags (i * 4096)) ∷ xs) j
            ≡ some (new_info (frame ((i + j) * 4096)) (initial_flags ((i + j) * 4096)))
      elements n i xs g zero k =
          let same : i ≡ i + 0 = omega arith in
          ap (λ (a : ℕ). some (new_info (frame (a * 4096)) (initial_flags (a * 4096)))) same
      elements n i xs g (suc j) k =
          let same : suc i + j ≡ i + suc j = omega arith in
          g j (omega arith)
          ∙ ap (λ (a : ℕ). some (new_info (frame (a * 4096)) (initial_flags (a * 4096)))) same
