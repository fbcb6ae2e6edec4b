-- ===== src/Crates/InterruptTables.antt =====
-- The interrupt descriptor table of the x86_64 crate. A handler's address is the handler.
use silicium_rs.Base.{ℕ, ◌<◌, ◌≡◌, ◌≢◌, Option, some}

pub record InterruptTables (Handler : Type 0) : Type 1 where
  pub Table : Type 0
  pub Descriptor : Type 0
  pub DescriptorFlags : Type 0
  pub capacity : ℕ
  -- `DescriptorFlags::new().set_privilege_level(Privilege::KERNEL).present(true).build()`
  pub kernel_present : DescriptorFlags
  -- `Descriptor::new().set_handler_addr(handler).set_options(flags).build()`
  pub descriptor : Handler → DescriptorFlags → Descriptor
  pub set_descriptor : ℕ → Descriptor → Table → Table
  -- The handler that the processor enters at a vector.
  pub handler : ℕ → Table → Option Handler
  -- `PageFaultErrorCode::from_bits_truncate`
  pub fault_code : ℕ → ℕ
  pub capacity_lem : capacity ≡ 256
  pub handler-set_self :
      (v : ℕ) (h : Handler) (t : Table)
      → v < 256
      → handler v (set_descriptor v (descriptor h kernel_present) t) ≡ some h
  pub handler-set_ne :
      (v w : ℕ) (d : Descriptor) (t : Table)
      → v ≢ w
      → handler w (set_descriptor v d t) ≡ handler w t
