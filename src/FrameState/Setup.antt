-- ===== src/FrameState/Setup.antt =====
-- `State::setup` of src/mm/frame/state.rs: the frame array is made from the memory map.
pub mod Marks
pub mod Result
use silicium_rs.Base.{
  ℕ, zero, suc, ◌-◌, ◌*◌, ◌/◌, ◌%◌, ◌^◌, Bool, true, false, not, ◌&&◌, Option, none, some, List, [],
  ◌∷◌, ltb, leb, ◌==◌, min, length, if◌then◌else◌, Outcome, done, ◌>>=◌, ◌>>◌, guard,
  already_initialized, no_place_for_array, slice_out_of_range, u64_mod, add64, sub64, mul64,
}
use silicium_rs.Crates.Addresses.{Addresses, Virtual}
use silicium_rs.Crates.BitFlags.{BitFlags}
use silicium_rs.Address.{phys_to_virt, virt_to_phys}
use silicium_rs.Frame.{Stats, new_stats, new, index}
use silicium_rs.Frame.Flags
use silicium_rs.FrameState.{FrameInfo, new_info}
use silicium_rs.FrameState.Slices.{update_slice, find}

-- The memory map of the limine crate: the types that the source tells apart, and the others.
pub data MemoryType : Type 0 where
  usable kernel_and_modules bootloader_reclaimable bad_memory other : MemoryType

pub record MemmapEntry : Type 0 where
  pub base : ℕ
  pub len : ℕ
  pub typ : MemoryType

abbrev pub is_usable : MemmapEntry → Bool
is_usable e = elim e.typ [ usable ↦ true | _ ↦ false ]

abbrev pub is_regular : MemoryType → Bool
is_regular usable = true
is_regular kernel_and_modules = true
is_regular bootloader_reclaimable = true
is_regular _ = false

-- `size_of::<FrameInfo>()` and `size_of::<Frame>()`: three words and one word.
abbrev pub size_of_frame_info : ℕ
size_of_frame_info = 24

abbrev pub size_of_frame : ℕ
size_of_frame = 8

abbrev max_option : ℕ → Option ℕ → Option ℕ
max_option a none = some a
max_option a (some b) = if ltb a b then some b else some a

-- The largest end of a regular region.
unfoldable pub last_usable : List MemmapEntry → Option ℕ
last_usable [] = none
last_usable (e ∷ es) =
    let rest = last_usable es in
    if is_regular e.typ then max_option (add64 e.base e.len) rest else rest

module _ ⦃x : Addresses⦄ where
  unfoldable pub find_last_usable_frame_index : List MemmapEntry → Outcome ℕ
  unfolding last_usable
  find_last_usable_frame_index mmap = elim (last_usable mmap) [ none ↦ done 0 | some a ↦ index a ]

  -- The null address is 0.
  unfoldable pub find_array_location : List MemmapEntry → ℕ → Outcome Virtual
  unfolding find
  find_array_location mmap last =
      let size = mul64 last size_of_frame_info in
      elim (find (λ e. is_usable e && leb size e.len) mmap) [
        | none ↦ done 0
        | some (_, e) ↦ do physical ← x.physical_new e.base; phys_to_virt physical
      ]

module _ ⦃x : Addresses⦄ ⦃bits : BitFlags⦄ where
  -- The flags of the frame at an address before the memory map is read.
  unfoldable pub initial_flags : ℕ → ℕ
  initial_flags addr =
      let flags = Flags.poisoned in
      let flags = if ltb addr 0x10_0000 then bits.insert flags Flags.bios else flags in
      let flags = if ltb addr 0x100_0000 then bits.insert flags Flags.isa else flags in
      if ltb addr 0x1000_0000 then bits.insert flags Flags.x86 else flags

  -- The first loop, over the indices from `i` on.
  unfoldable pub init_loop : ℕ → ℕ → Stats → Outcome (List FrameInfo × Stats)
  unfolding initial_flags
  init_loop zero i stats = done ([], stats)
  init_loop (suc n) i stats = do
    let addr = (i * 2 ^ x.page_shift) % u64_mod
    physical ← x.physical_new addr
    frame ← new physical
    (infos, stats') ←
        init_loop n (suc i)
          (record stats { poisoned = add64 stats.poisoned 1; total = add64 stats.total 1 })
    done (new_info frame (initial_flags addr) ∷ infos, stats')

  -- The body of the second loop, for one frame in an entry of the given type.
  unfoldable pub mark : MemoryType → FrameInfo → Stats → FrameInfo × Stats
  mark usable info stats = (
    record info { flags = bits.insert (bits.remove info.flags Flags.poisoned) Flags.free },
    record stats { poisoned = sub64 stats.poisoned 1; usable = add64 stats.usable 1 },
  )
  mark bad_memory info stats = (info, stats)
  mark other info stats =
      if not (bits.contains info.flags Flags.poisoned)
      then (
        record info { flags = bits.insert (bits.remove info.flags Flags.poisoned) Flags.reserved },
        record stats { poisoned = sub64 stats.poisoned 1; reserved = add64 stats.reserved 1 },
      )
      else (info, stats)
  mark _ info stats = (
    record info {
      flags = bits.insert (bits.remove info.flags Flags.poisoned) Flags.kernel;
      count = 1;
    },
    record stats {
      allocated = add64 stats.allocated 1;
      poisoned = sub64 stats.poisoned 1;
      kernel = add64 stats.kernel 1;
      usable = add64 stats.usable 1;
    },
  )

  -- The frames that the array itself lies in.
  unfoldable pub mark_array : FrameInfo → Stats → FrameInfo × Stats
  mark_array info stats = (
    record info { flags = bits.insert (bits.remove info.flags Flags.free) Flags.kernel },
    record stats { allocated = add64 stats.allocated 1; kernel = add64 stats.kernel 1 },
  )

  -- `start` and `end` of an entry, as indices of the array.
  unfoldable pub entry_bounds : ℕ → MemmapEntry → Outcome (ℕ × ℕ)
  entry_bounds last e = do
    first ← index e.base
    stop ← index (add64 e.base e.len)
    done (min first last, min stop last)

  unfoldable pub mark_entries :
      ℕ → List MemmapEntry → List FrameInfo → Stats → Outcome (List FrameInfo × Stats)
  unfolding update_slice mark entry_bounds
  mark_entries last [] infos stats = done (infos, stats)
  mark_entries last (e ∷ es) infos stats = do
    (start, stop) ← entry_bounds last e
    guard (leb start stop && leb stop (length infos)) slice_out_of_range
    (infos', stats') ← update_slice (λ i s. done (mark e.typ i s)) start (stop - start) infos stats
    mark_entries last es infos' stats'

  -- The array and the statistics, from the array before (which must be empty).
  unfoldable pub setup : List FrameInfo → List MemmapEntry → Outcome (List FrameInfo × Stats)
  unfolding find_last_usable_frame_index find_array_location init_loop mark_entries mark_array
  setup frames mmap = do
    guard (length frames == 0) already_initialized
    last ← find_last_usable_frame_index mmap
    array_location ← find_array_location mmap last
    guard (not (array_location == 0)) no_place_for_array
    (array, stats) ← init_loop last 0 new_stats
    (array, stats) ← mark_entries last mmap array stats
    physical ← virt_to_phys array_location
    start ← index physical
    let stop = add64 start (mul64 (length array) size_of_frame / 4096)
    guard (leb start (suc stop) && ltb stop (length array)) slice_out_of_range
    update_slice (λ i s. done (mark_array i s)) start (suc stop - start) array stats
