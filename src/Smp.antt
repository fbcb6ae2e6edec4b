-- ===== src/Smp.antt =====
-- src/arch/smp.rs, src/arch/gdt.rs and src/arch/tss.rs: what each core has of its own, and the start
-- of the cores.
pub mod Local
pub mod System
pub mod Totals
pub mod Counted
pub mod Progress
pub mod Start
pub mod Ends
pub mod Storage
pub mod Apart
pub mod Segments
