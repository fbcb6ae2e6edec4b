-- ===== src/Allocator.antt =====
-- src/mm/frame/dummy_allocator.rs: the frame allocator, over the frame array of
-- src/mm/frame/state.rs and its own statistics. The two locks and the disabling of interrupts
-- make each call one step.
pub mod Invariant
pub mod Claim
pub mod Allocate
pub mod Release
pub mod History
pub mod Window
pub mod ClaimRange
pub mod AllocateRange
pub mod RoundTrip
pub mod ReleaseRange
pub mod Left
use silicium_rs.Base.{
  ℕ, zero, suc, ◌+◌, ◌-◌, ◌*◌, ◌/◌, Bool, true, false, not, ◌&&◌, ◌||◌, Option, none, some, List,
  [], ◌∷◌, ltb, leb, ◌==◌, length, get_elem?, set, if◌then◌else◌, Outcome, done, panicked, ◌>>=◌,
  ◌>>◌, guard, or_panic, add64, sub64, index_out_of_bounds, invalid_frame, unwrap_none,
  reference_not_allocated, too_many_deallocations, out_of_fuel,
}
use silicium_rs.Crates.Addresses.{Addresses, Physical, Virtual}
use silicium_rs.Crates.BitFlags.{BitFlags}
use silicium_rs.Address.{phys_to_virt}
use silicium_rs.Frame.{Frame, Range, Stats}
use silicium_rs.Frame.Flags
use silicium_rs.Frame.Ranges
use silicium_rs.FrameState.{FrameInfo, retain, release, get_frame_info}
use silicium_rs.FrameState.Slices.{update_slice, find}

-- Memory as the kernel sees it through the HHDM: the 8-byte word at each virtual address.
abbrev pub Memory : Type 0
Memory = Virtual → ℕ

-- `write_bytes(0, n)`.
unfoldable pub zero_bytes : Virtual → ℕ → Memory → Memory
zero_bytes at n memory a = if leb at a && ltb a (at + n) then 0 else memory a

-- `FRAME_STATE`, `FRAME_ALLOCATOR` and the memory.
pub record Frames : Type 0 where
  pub array : List FrameInfo
  pub statistic : Stats
  pub memory : Memory

-- What an allocation changes beside the frame's own entry.
pub record Effects : Type 0 where
  pub statistic : Stats
  pub memory : Memory

-- `Allocator::setup` and `statistics`.
unfoldable pub setup : Stats → Frames → Frames
setup statistic s = record s { statistic = statistic }

unfoldable pub statistics : Frames → Stats
statistics s = s.statistic

abbrev pub effects : Frames → Effects
effects s = record { statistic = s.statistic; memory = s.memory }

module _ ⦃bits : BitFlags⦄ where
  abbrev pub is_free : FrameInfo → Bool
  is_free info = bits.contains info.flags Flags.free

  -- `array[start..start + n].iter().all(..)`, for bounds that are in range.
  unfoldable pub all_free : ℕ → ℕ → List FrameInfo → Bool
  all_free start n [] = true
  all_free zero zero (a ∷ xs) = true
  all_free zero (suc n) (a ∷ xs) = is_free a && all_free zero n xs
  all_free (suc start) n (a ∷ xs) = all_free start n xs

  -- What `deallocate` does when the count has come to 0.
  unfoldable pub give_back : FrameInfo → Stats → FrameInfo × Stats
  give_back info stat =
      let kernel = bits.contains info.flags Flags.kernel in
      let flags = if kernel then bits.remove info.flags Flags.kernel else info.flags in
      let stat = if kernel then record stat { kernel = sub64 stat.kernel 1 } else stat in
      (
        record info { flags = bits.insert (bits.remove flags Flags.kernel) Flags.free },
        record stat { allocated = sub64 stat.allocated 1 },
      )

module _ ⦃x : Addresses⦄ ⦃bits : BitFlags⦄ where
  -- The body of the closure of `allocate` and of the loop of `allocate_range`.
  unfoldable pub claim : ℕ → FrameInfo → Effects → Outcome (FrameInfo × Effects)
  unfolding retain
  claim flags info e = do
    let kernel = bits.contains flags Flags.kernel
    let stat = record e.statistic { allocated = add64 e.statistic.allocated 1 }
    let stat = if kernel then record stat { kernel = add64 stat.kernel 1 } else stat
    let set = if kernel then bits.insert info.flags Flags.kernel else info.flags
    memory ←
        (if bits.contains flags Flags.zeroed
          then (do at ← phys_to_virt info.frame.start; done (zero_bytes at x.page_size e.memory))
          else done e.memory)
    info' ← retain (record info { flags = bits.remove set Flags.free })
    done (info', record { statistic = stat; memory = memory })

  unfoldable pub allocate : ℕ → Frames → Outcome (Option Frame × Frames)
  allocate flags s = elim (find is_free s.array) [
    | none ↦ done (none, s)
    | some (i, info) ↦ do
      (info', e) ← claim flags info (effects s)
      done (
        some info'.frame,
        record { array = set s.array i info'; statistic = e.statistic; memory = e.memory },
      )
  ]

  -- The `while` loop: the first index from `i` on where a window of `count` free frames starts.
  unfoldable pub find_window : ℕ → ℕ → ℕ → List FrameInfo → Outcome (Option ℕ)
  find_window zero i count array = panicked out_of_fuel
  find_window (suc fuel) i count array =
      let rest = find_window fuel (suc i) count array in
      if leb (add64 i count) (length array)
      then (if all_free i count array then done (some i) else rest)
      else done none

  -- The loop makes at most as many rounds as the array has frames, and one more.
  unfoldable pub allocate_range : ℕ → ℕ → Frames → Outcome (Option Range × Frames)
  allocate_range count flags s = do
    window ← find_window (length s.array + 2) 0 count s.array
    elim window [
      | none ↦ done (none, s)
      | some i ↦ do
        (array, e) ← update_slice (claim flags) i count s.array (effects s)
        first ← or_panic (get_elem? array i) index_out_of_bounds
        stop ← or_panic (get_elem? array (i + count)) index_out_of_bounds
        done (
          some (Ranges.range first.frame stop.frame),
          record { array = array; statistic = e.statistic; memory = e.memory },
        )
    ]

  unfoldable pub reference : Frame → Frames → Outcome Frames
  unfolding get_frame_info retain
  reference frame s = do
    info ← or_panic (get_frame_info s.array frame.start) unwrap_none
    guard (ltb 0 info.count) reference_not_allocated
    info' ← retain info
    done (record s { array = set s.array (x.frame_index frame.start) info' })

  unfoldable pub deallocate : Frame → Frames → Outcome Frames
  unfolding get_frame_info release
  deallocate frame s = do
    info ← or_panic (get_frame_info s.array frame.start) invalid_frame
    guard (not (info.count == 0)) too_many_deallocations
    info ← release info
    let i = x.frame_index frame.start
    if info.count == 0
        then (let (info', stat) = give_back info s.statistic in
            done (record s { array = set s.array i info'; statistic = stat }))
        else done (record s { array = set s.array i info })

  -- The loop over the range: each round takes the next frame and deallocates it.
  unfoldable pub deallocate_range : ℕ → Range → Frames → Outcome Frames
  deallocate_range zero range s = panicked out_of_fuel
  deallocate_range (suc fuel) range s = do
    (item, rest) ← Ranges.next range
    elim item [
      | none ↦ done s
      | some frame ↦ do s' ← deallocate frame s; deallocate_range fuel rest s'
    ]
