-- ===== src/FrameState.antt =====
-- src/mm/frame/state.rs: the information kept for each frame, and the array of all frames.
pub mod Slices
pub mod Setup
use silicium_rs.Base.{
  ℕ, zero, suc, ◌+◌, ◌-◌, ◌<◌, Option, none, some, List, ◌==◌, ltb, if◌then◌else◌, get_elem?,
  u64_mod, Outcome, done, panicked, count_overflow, frame_not_retained,
}
use silicium_rs.Crates.Addresses.{Addresses, Physical}
use silicium_rs.Frame.{Frame}

pub record FrameInfo : Type 0 where
  pub flags : ℕ
  pub frame : Frame
  pub count : ℕ

abbrev pub new_info : Frame → ℕ → FrameInfo
new_info frame flags = record { flags = flags; frame = frame; count = 0 }

-- `u64::checked_add` and `u64::checked_sub`.
abbrev pub checked_add : ℕ → ℕ → Option ℕ
checked_add a b = if ltb (a + b) u64_mod then some (a + b) else none

abbrev pub checked_sub : ℕ → ℕ → Option ℕ
checked_sub a b = if ltb a b then none else some (a - b)

unfoldable pub retain : FrameInfo → Outcome FrameInfo
retain info = elim (checked_add info.count 1) [
  | some count ↦ done (record info { count = count })
  | none ↦ panicked count_overflow
]

unfoldable pub release : FrameInfo → Outcome FrameInfo
release info = elim (checked_sub info.count 1) [
  | some count ↦ done (record info { count = count })
  | none ↦ panicked frame_not_retained
]

module _ ⦃x : Addresses⦄ where
  -- `get_frame_info`. For `get_frame_info_mut` the caller writes the changed value back at the
  -- frame's index.
  unfoldable pub get_frame_info : List FrameInfo → Physical → Option FrameInfo
  get_frame_info frames address = get_elem? frames (x.frame_index address)
