-- ===== src/Crates/SegmentTables.antt =====
-- The global descriptor table of the x86_64 crate. A descriptor of a task state segment takes two
-- entries, all others one.
use silicium_rs.Base.{ℕ, ◌+◌, ◌≤◌, ◌<◌, ◌≡◌, Option, some, Outcome, done}

pub data SegmentDescriptor : Type 0 where
  null kernel_code64 kernel_data user_code64 user_data : SegmentDescriptor
  -- that of the task state segment of a core
  tss : ℕ → SegmentDescriptor

abbrev pub width : SegmentDescriptor → ℕ
width (tss id) = 2
width d = 1

pub record SegmentTables (entries : ℕ) : Type 1 where
  pub Table : Type 0
  pub set_descriptor : ℕ → SegmentDescriptor → Table → Outcome Table
  -- The descriptor that an entry is of.
  pub descriptor_at : ℕ → Table → Option SegmentDescriptor
  pub set_descriptor_lem :
      (i : ℕ) (d : SegmentDescriptor) (t : Table)
      → i + width d ≤ entries
      → (t' : Table) × (set_descriptor i d t ≡ done t')
        × ((j : ℕ) → i ≤ j → j < i + width d → descriptor_at j t' ≡ some d)
        × ((j : ℕ) → j < i → descriptor_at j t' ≡ descriptor_at j t)
        × ((j : ℕ) → i + width d ≤ j → descriptor_at j t' ≡ descriptor_at j t)
