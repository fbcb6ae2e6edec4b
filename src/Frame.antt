-- ===== src/Frame.antt =====
-- src/mm/frame/mod.rs: frames, statistics and flags; `Ranges` has the ranges of frames.
pub mod Ranges
pub mod Flags
pub mod Laws
use silicium_rs.Base.{
  ℕ, Bool, false, ltb, leb, if◌then◌else◌, Outcome, done, ◌>>=◌, ◌>>◌, guard, frame_not_aligned,
  mul64,
}
use silicium_rs.Crates.Addresses.{Addresses, Physical}

pub record NotAligned : Type 0 where
  pub address : Physical
  pub alignment : ℕ

-- A newtype; `start` reads the address.
pub record Frame : Type 0 where
  pub start : Physical

pub data Tried : Type 0 where
  ok : Frame → Tried
  err : NotAligned → Tried

abbrev pub frame : Physical → Frame
frame a = record { start = a }

-- `Range.end` is exclusive.
pub record Range : Type 0 where
  pub start : Frame
  pub end : Frame

pub record Stats : Type 0 where
  pub total : ℕ
  pub usable : ℕ
  pub allocated : ℕ
  pub reserved : ℕ
  pub kernel : ℕ
  pub borrowed : ℕ
  pub poisoned : ℕ

abbrev pub new_stats : Stats
new_stats = record {
  total = 0;
  usable = 0;
  allocated = 0;
  reserved = 0;
  kernel = 0;
  borrowed = 0;
  poisoned = 0;
}

module _ ⦃x : Addresses⦄ where
  unfoldable pub new : Physical → Outcome Frame
  new address = do guard (x.is_page_aligned address) frame_not_aligned; done (frame address)

  unfoldable pub from_u64 : ℕ → Outcome Frame
  unfolding new
  from_u64 address = x.physical_new address >>= new

  unfoldable pub try_new : Physical → Tried
  try_new address =
      if x.is_page_aligned address
      then ok (frame address)
      else err (record { address = address; alignment = 4096 })

  unfoldable pub contains : Frame → Physical → Outcome Bool
  contains f address =
      if leb f.start address
      then (do last ← x.physical_add f.start 4096; done (ltb address last))
      else done false

  unfoldable pub end : Frame → Outcome Physical
  end f = x.physical_add f.start x.page_size

  unfoldable pub add : Frame → ℕ → Outcome Frame
  unfolding new
  add f rhs = x.physical_add f.start (mul64 rhs 4096) >>= new

  unfoldable pub add_assign : Frame → ℕ → Outcome Frame
  add_assign f rhs = do address ← x.physical_add f.start (mul64 rhs 4096); done (frame address)

  unfoldable pub sub : Frame → ℕ → Outcome Frame
  unfolding new
  sub f rhs = x.physical_sub f.start (mul64 rhs 4096) >>= new

  unfoldable pub sub_assign : Frame → ℕ → Outcome Frame
  sub_assign f rhs = do address ← x.physical_sub f.start (mul64 rhs 4096); done (frame address)

  unfoldable pub index : ℕ → Outcome ℕ
  index address = do physical ← x.physical_new address; done (x.frame_index physical)
