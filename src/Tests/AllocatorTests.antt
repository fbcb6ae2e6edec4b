-- ===== src/Tests/AllocatorTests.antt =====
-- The frame allocator on an array of four frames.
use silicium_rs.Base.{
  ℕ, ◌*◌, ◌≡◌, ◌⊎◌, ◌<◌, done, ◌>>=◌, refl, arith, List, [], ◌∷◌, Option, none, some, Outcome,
  add64,
}
use silicium_rs.Address.{phys_to_virt}
use silicium_rs.Frame.{Frame, frame, new_stats}
use silicium_rs.Frame.Flags
use silicium_rs.FrameState.{FrameInfo}
use silicium_rs.FrameState.Slices.{find}
use silicium_rs.FrameState.Slices.Laws.{NoneIn}
use silicium_rs.Allocator.{Frames, is_free, allocate, claim, deallocate, reference, zero_bytes}
use silicium_rs.Allocator.Invariant.{IsWf}
use silicium_rs.Allocator.Allocate.{Allocated, allocate_cases}
use silicium_rs.Allocator.History.{
  Call, allocates, references, deallocates, Step, users, step, run, step-Step, NotAmong,
  run-NotAmong,
}
use silicium_rs.Tests.Bits.{bits}
use silicium_rs.Tests.Machine.{addresses}

abbrev pub entry : ℕ → ℕ → ℕ → FrameInfo
entry i flags count = record { flags = flags; frame = frame (i * 4096); count = count }

-- Frame 0 has two users, frame 1 holds the array, frames 2 and 3 are free.
abbrev pub four : Frames
four = record {
  array =
      entry 0 Flags.kernel 2
      ∷ entry 1 Flags.kernel 0
      ∷ entry 2 Flags.free 0
      ∷ entry 3 Flags.free 0
      ∷ [];
  statistic = record new_stats { total = 4; usable = 4; allocated = 2; kernel = 2 };
  memory = λ a. a;
}

pub four-IsWf : IsWf 1 four
four-IsWf = record {
  infos = ground arith;
  small = omega arith;
  accounted = refl;
  few_pinned = omega arith;
}

abbrev pub user : ℕ
user = Flags.zeroed

four_allocated : Outcome (Option Frame × Frames)
unfolding allocate find claim phys_to_virt add64
four_allocated = allocate user four

allocate_test : (four_allocated >>= λ r. done r.0) ≡ done (some (frame 0x2000))
unfolding four_allocated
allocate_test = refl

-- The frame's words are zero afterwards, the others are kept.
abbrev two_words : Option Frame × Frames → ℕ × ℕ
two_words (r, s) = (s.memory 0xffff_8000_0000_2008, s.memory 0xffff_8000_0000_3000)

allocate_zeroes : (four_allocated >>= λ r. done (two_words r)) ≡ done (0, 0xffff_8000_0000_3000)
unfolding four_allocated zero_bytes
allocate_zeroes = refl

allocate_cases_example :
    (NoneIn is_free four.array × (allocate user four ≡ done (none, four)))
    ⊎ ((i : ℕ) × (s' : Frames) × (allocate user four ≡ done (some (frame (i * 4096)), s'))
        × Allocated user i four s')
allocate_cases_example = allocate_cases 1 user four four-IsWf

-- The state after the allocation.
abbrev pub four_after : Frames
four_after = record {
  array = entry 0 Flags.kernel 2 ∷ entry 1 Flags.kernel 0 ∷ entry 2 0 1 ∷ entry 3 Flags.free 0 ∷ [];
  statistic = record new_stats { total = 4; usable = 4; allocated = 3; kernel = 2 };
  memory = zero_bytes 0xffff_8000_0000_2000 4096 (λ a. a);
}

pub four_after_lem : allocate user four ≡ done (some (frame 0x2000), four_after)
unfolding four_allocated
four_after_lem = refl

step-Step_example :
    Step (users four) (allocates user) (some (frame 0x2000)) (users four_after) × IsWf 1 four_after
step-Step_example =
    step-Step 1 (allocates user) four four_after (some (frame 0x2000)) four-IsWf
      (unfold step in four_after_lem)

abbrev history : List Call
history = allocates user ∷ references (frame 0x2000) ∷ deallocates (frame 0x2000) ∷ []

abbrev four_later : Frames
four_later = four_after

history_lem : run history four ≡ done (some (frame 0x2000) ∷ none ∷ none ∷ [], four_later)
unfolding run step four_allocated reference deallocate
history_lem = refl

run-NotAmong_example :
    NotAmong 0 (some (frame 0x2000) ∷ none ∷ none ∷ []) × (0 < users four_later 0)
run-NotAmong_example =
    run-NotAmong 1 0 history four four_later (some (frame 0x2000) ∷ none ∷ none ∷ []) four-IsWf
      (omega arith) (tt, (tt, (ground arith, tt))) history_lem
