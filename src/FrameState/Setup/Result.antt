-- ===== src/FrameState/Setup/Result.antt =====
-- `State::setup`: the array that it makes.
use silicium_rs.Base.{
  ◌∙◌, ap, ℕ, suc, ◌+◌, ◌-◌, ◌*◌, ◌/◌, ◌%◌, ◌≤◌, ◌<◌, ◌≡◌, refl, inl, inr, Bool, ◌&&◌, ltb, leb,
  some, List, [], ◌∷◌, arith, get_elem?, length, if◌then◌else◌, done, Option-cases, add64, add64-eq,
  mul64, u64_mod,
}
use silicium_rs.Crates.Addresses.{Addresses}
use silicium_rs.Crates.BitFlags.{BitFlags}
use silicium_rs.Address.Laws.{phys_to_virt-eq, virt_to_phys-add}
use silicium_rs.Frame.{Stats, frame, new_stats}
use silicium_rs.Frame.Laws.{index-eq}
use silicium_rs.Frame.Flags
use silicium_rs.FrameState.{FrameInfo, new_info}
use silicium_rs.FrameState.Slices.{find, update_slice}
use silicium_rs.FrameState.Slices.MapSlice.{
  map_slice, length-map_slice, get_elem?-map_slice, update_slice-map_slice,
}
use silicium_rs.FrameState.Setup.{
  MemmapEntry, is_usable, size_of_frame, last_usable, find_last_usable_frame_index,
  find_array_location, initial_flags, init_loop, mark_entries, mark_array, setup,
}
use silicium_rs.FrameState.Setup.Marks.{
  IsRegion, AreRegions, after_regions, mark_entries-after_regions, init_loop_lem,
}

-- The end of the last regular region is one of the ends.
pub last_usable-le :
    (es : List MemmapEntry) (top : ℕ)
    → AreRegions es
    → last_usable es ≡ some top
    → top ≤ 0xfff_ffff_f000
unfolding last_usable
last_usable-le [] top h e = cc
last_usable-le (r ∷ es) top h e = elim (Option-cases (last_usable es)) [
  | inl q ↦ ground (arith, e, q, add64-eq r.base r.len)
  | inr (b, q) ↦ ground (arith, e, q, add64-eq r.base r.len, last_usable-le es b h.1 q)
]

-- The region that the array is placed in: the first usable one that is large enough.
abbrev pub holds : ℕ → MemmapEntry → Bool
holds last r = is_usable r && leb (last * 24) r.len

pub array_size :
    (n last : ℕ)
    → n ≡ last
    → last * 4096 ≤ 0xfff_ffff_f000
    → mul64 n size_of_frame / 4096 ≡ last * 8 / 4096
unfolding mul64
array_size n last e h = omega arith

module _ ⦃x : Addresses⦄ ⦃bits : BitFlags⦄ where
  abbrev pub with_array : FrameInfo → FrameInfo
  with_array info = record info {
    flags = bits.insert (bits.remove info.flags Flags.free) Flags.kernel;
  }

  -- What a frame becomes: by the regions that cover it, and by the array if it lies there, which
  -- the code takes to have 8 bytes for each frame.
  abbrev pub settled : List MemmapEntry → MemmapEntry → ℕ → ℕ → FrameInfo
  settled mmap r last j =
      let info = after_regions mmap j (new_info (frame (j * 4096)) (initial_flags (j * 4096))) in
      if leb (r.base / 4096) j && leb j (r.base / 4096 + last * 8 / 4096)
      then with_array info
      else info

  -- The number of frames that are taken for the array.
  abbrev pub array_frames : MemmapEntry → ℕ → ℕ
  array_frames r last = suc (r.base / 4096 + last * 8 / 4096) - r.base / 4096

  mark_array-with_array :
      (a : FrameInfo) (s : Stats) → (s' : Stats) × (done (mark_array a s) ≡ done (with_array a, s'))
  unfolding mark_array
  mark_array-with_array a s = (_, refl)

  find_last_usable_frame_index-eq :
      (mmap : List MemmapEntry) (top : ℕ)
      → last_usable mmap ≡ some top
      → top ≤ 0xfff_ffff_f000
      → find_last_usable_frame_index mmap ≡ done (top / 4096)
  unfolding find_last_usable_frame_index
  find_last_usable_frame_index-eq mmap top e b = ground (arith, e, index-eq top (omega arith))

  find_array_location-eq :
      (mmap : List MemmapEntry) (last k : ℕ) (r : MemmapEntry)
      → last * 4096 ≤ 0xfff_ffff_f000
      → find (holds last) mmap ≡ some (k, r)
      → IsRegion r
      → find_array_location mmap last ≡ done (r.base + 0xffff_8000_0000_0000)
  unfolding find_array_location mul64
  find_array_location-eq mmap last k r b f ir =
      let size : last * 24 % u64_mod ≡ last * 24 = omega arith in
      let found = ap (λ (n : ℕ). find (λ c. is_usable c && leb n c.len) mmap) size ∙ f in
      ground (
        arith,
        found,
        x.physical_new-valid r.base (omega arith),
        phys_to_virt-eq r.base (omega arith),
      )

  -- `setup` by the runs of its three loops.
  pub setup_run :
      (mmap : List MemmapEntry) (top k : ℕ) (r : MemmapEntry) (xs ys zs : List FrameInfo)
      (s1 s2 s3 : Stats)
      → AreRegions mmap
      → last_usable mmap ≡ some top
      → find (holds (top / 4096)) mmap ≡ some (k, r)
      → IsRegion r
      → r.base / 4096 + top / 4096 * 8 / 4096 < top / 4096
      → init_loop (top / 4096) 0 new_stats ≡ done (xs, s1)
      → mark_entries (top / 4096) mmap xs s1 ≡ done (ys, s2)
      → length ys ≡ top / 4096
      → update_slice
          (λ i s. done (mark_array i s))
          (r.base / 4096)
          (array_frames r (top / 4096))
          ys
          s2
        ≡ done (zs, s3)
      → setup [] mmap ≡ done (zs, s3)
  unfolding setup
  setup_run mmap top k r xs ys zs s1 s2 s3 h e f ir b i m n q =
      let last = top / 4096 in
      let first = r.base / 4096 in
      let bound = last_usable-le mmap top h e in
      let size : mul64 (length ys) size_of_frame / 4096 ≡ last * 8 / 4096 =
        array_size (length ys) last n (omega arith) in
      let end_eq : add64 first (last * 8 / 4096) ≡ first + last * 8 / 4096 =
        add64-eq first (last * 8 / 4096) (omega arith) in
      ground (
        arith,
        find_last_usable_frame_index-eq mmap top e bound,
        find_array_location-eq mmap last k r (omega arith) f ir,
        i,
        m,
        n,
        q,
        virt_to_phys-add r.base (omega arith),
        index-eq r.base (omega arith),
        size,
        end_eq,
      )

  -- On a memory map of regions that the HHDM shows, whose regular regions end at `top` at the
  -- latest, with a usable region that has 24 bytes for each frame below `top`, where the frames
  -- that are taken for the array in the first such region lie below `top`: `setup` returns without
  -- a panic, and its array has one entry for each frame below `top`, in the order of the frames;
  -- each is what the regions that cover the frame make of it one after another, and the array
  -- itself.
  pub setup-settled :
      (mmap : List MemmapEntry) (top k : ℕ) (r : MemmapEntry)
      → AreRegions mmap
      → last_usable mmap ≡ some top
      → find (holds (top / 4096)) mmap ≡ some (k, r)
      → IsRegion r
      → r.base / 4096 + top / 4096 * 8 / 4096 < top / 4096
      → (array : List FrameInfo) × (stats : Stats) × (setup [] mmap ≡ done (array, stats))
        × (length array ≡ top / 4096)
        × ((j : ℕ) → j < top / 4096 → get_elem? array j ≡ some (settled mmap r (top / 4096) j))
  setup-settled mmap top k r h e f ir b =
      let last = top / 4096 in
      let bound = last_usable-le mmap top h e in
      let (xs, s1, i, l, g) = init_loop_lem last 0 new_stats (omega (arith, bound)) in
      let (ys, s2, m, n, g') = mark_entries-after_regions last mmap xs s1 h l in
      let first = r.base / 4096 in
      let count = array_frames r last in
      let (s3, q) =
        update_slice-map_slice with_array (λ a s. done (mark_array a s)) mark_array-with_array first
          count ys s2 in
      (
        map_slice with_array first count ys,
        s3,
        setup_run mmap top k r xs ys (map_slice with_array first count ys) s1 s2 s3 h e f ir b i m n
            q,
        length-map_slice with_array first count ys ∙ n,
        λ j k.
            let same : 0 + j ≡ j = omega arith in
            let init =
              g j k
              ∙ ap (λ (c : ℕ). some (new_info (frame (c * 4096)) (initial_flags (c * 4096))))
                  same in
            let a = after_regions mmap j (new_info (frame (j * 4096)) (initial_flags (j * 4096))) in
            let bounds : leb first j && ltb j (first + count)
                ≡ leb first j && leb j (first + last * 8 / 4096) =
              ground arith in
            get_elem?-map_slice with_array first count ys j a (g' j _ init)
            ∙ ap (λ c. some (if c then with_array a else a)) bounds,
      )
