-- ===== src/Crates.antt =====
-- The crates that the kernel calls and whose code is not in the repository. Each is a record of
-- the operations that the kernel uses with the documented behaviour that it relies on; the
-- definitions that call a crate take its record as an instance argument.
pub mod BitFlags
pub mod Addresses
pub mod PageTables
pub mod VirtualRanges
pub mod InterruptTables
pub mod SegmentTables
