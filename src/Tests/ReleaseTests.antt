-- ===== src/Tests/ReleaseTests.antt =====
-- The release of frames, and ranges of frames.
use silicium_rs.Base.{
  ℕ, suc, ◌+◌, ◌-◌, ◌*◌, ◌/◌, ◌≡◌, ◌⊎◌, ◌<◌, ◌≤◌, done, panicked, refl, arith, none, some, length,
  get_elem?, set, add64, index_out_of_bounds, invalid_frame, unwrap_none, reference_not_allocated,
  too_many_deallocations, count_overflow,
}
use silicium_rs.Address.{phys_to_virt}
use silicium_rs.Frame.{frame}
use silicium_rs.Frame.Ranges.{range}
use silicium_rs.FrameState.{FrameInfo}
use silicium_rs.FrameState.Slices.{update_slice}
use silicium_rs.Allocator.{
  Frames, claim, all_free, find_window, allocate_range, reference, deallocate, deallocate_range,
}
use silicium_rs.Allocator.Window.{NoWindow}
use silicium_rs.Allocator.Release.{GivenBack, reference_cases, deallocate_cases}
use silicium_rs.Allocator.RoundTrip.{Restored, deallocate-allocate}
use silicium_rs.Allocator.AllocateRange.{IsFirst, RangeAllocated, allocate_range_cases}
use silicium_rs.Allocator.ReleaseRange.{RangeFreed, deallocate_range-allocate_range}
use silicium_rs.Tests.Bits.{bits}
use silicium_rs.Tests.Machine.{addresses}
use silicium_rs.Tests.AllocatorTests.{four, four-IsWf, four_after, four_after_lem, user}

deallocate-allocate_example :
    (t : Frames) × (deallocate (frame 0x2000) four_after ≡ done t) × Restored (0x2000 / 4096) four t
deallocate-allocate_example =
    deallocate-allocate 1 user four four_after (frame 0x2000) four-IsWf four_after_lem

reference_cases_example :
    ((reference (frame 0) four ≡ panicked unwrap_none) × (get_elem? four.array 0 ≡ none))
    ⊎ ((info : FrameInfo) × (get_elem? four.array 0 ≡ some info)
        × (((reference (frame 0) four ≡ panicked reference_not_allocated) × (info.count ≡ 0))
            ⊎ ((reference (frame 0) four ≡ panicked count_overflow)
                × (0x10000000000000000 ≤ info.count + 1))
            ⊎ ((0 < info.count)
                × (info.count + 1 < 0x10000000000000000)
                × (reference (frame 0) four
                    ≡ done (record four {
                      array = set four.array 0 (record info { count = info.count + 1 });
                    })))))
reference_cases_example = reference_cases (frame 0) four

deallocate_cases_example :
    ((deallocate (frame 0) four ≡ panicked invalid_frame) × (get_elem? four.array 0 ≡ none))
    ⊎ ((info : FrameInfo) × (get_elem? four.array 0 ≡ some info)
        × (((deallocate (frame 0) four ≡ panicked too_many_deallocations) × (info.count ≡ 0))
            ⊎ ((1 < info.count)
                × (deallocate (frame 0) four
                    ≡ done (record four {
                      array = set four.array 0 (record info { count = info.count - 1 });
                    })))
            ⊎ ((info.count ≡ 1)
                × ((s' : Frames) × (deallocate (frame 0) four ≡ done s')
                    × GivenBack (frame 0) info four s'))))
deallocate_cases_example = deallocate_cases (frame 0) four

-- The two free frames are the last window, so to take both panics.
allocate_range_cases_example :
    ((allocate_range 2 user four ≡ done (none, four))
      × NoWindow 0 (suc (length four.array)) 2 four.array)
    ⊎ ((k : ℕ) × IsFirst k 2 four
        × (((s' : Frames) × (allocate_range 2 user four
                ≡ done (some (range (frame (k * 4096)) (frame ((k + 2) * 4096))), s'))
              × RangeAllocated 1 k 2 four s')
            ⊎ ((allocate_range 2 user four ≡ panicked index_out_of_bounds)
                × (k + 2 ≡ length four.array))))
allocate_range_cases_example = allocate_range_cases 1 2 user four four-IsWf (omega arith)

allocate_range_test : allocate_range 2 user four ≡ panicked index_out_of_bounds
unfolding allocate_range find_window all_free update_slice claim phys_to_virt add64
allocate_range_test = refl

one_frame_test :
    allocate_range 1 user four ≡ done (some (range (frame 0x2000) (frame 0x3000)), four_after)
unfolding allocate_range find_window all_free update_slice claim phys_to_virt add64
one_frame_test = refl

deallocate_range-allocate_range_example :
    (k : ℕ) × (range (frame 0x2000) (frame 0x3000)
      ≡ range (frame (k * 4096)) (frame ((k + 1) * 4096)))
    × (t : Frames) × (deallocate_range 2 (range (frame 0x2000) (frame 0x3000)) four_after ≡ done t)
    × RangeFreed 1 k 1 four t
deallocate_range-allocate_range_example =
    deallocate_range-allocate_range 1 1 user 2 four four_after (range (frame 0x2000) (frame 0x3000))
      four-IsWf (omega arith) (omega arith) one_frame_test
