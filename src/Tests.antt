-- ===== src/Tests.antt =====
-- The theorems at concrete inputs, over a concrete model of the crates.
pub mod Bits
pub mod Machine
pub mod FrameTests
pub mod AllocatorTests
pub mod Entries
pub mod ReleaseTests
pub mod PagingTests
pub mod SetupTests
pub mod VmmTests
pub mod PageFaultTests
pub mod InterruptTests
pub mod RegionTests
pub mod SmpTests
pub mod BootTests
pub mod CoresTests
