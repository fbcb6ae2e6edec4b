-- ===== src/Interrupts.antt =====
-- src/arch/idt.rs, src/arch/irq.rs and src/arch/exception.rs: the interrupt table and the handlers.
pub mod Stubs
pub mod Setup
pub mod Vectors
pub mod ErrorCodes
pub mod Handlers
pub mod Delivery
pub mod Runs
pub mod Faults
