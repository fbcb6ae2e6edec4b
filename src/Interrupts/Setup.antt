-- ===== src/Interrupts/Setup.antt =====
-- The interrupt table at the end of `idt::setup`, `irq::setup` and `exception::setup`.
use silicium_rs.Base.{
  ℕ, zero, suc, ◌+◌, ltb, Outcome, done, ◌>>=◌, ◌>>◌, guard, idt_index_too_large,
}
use silicium_rs.Crates.InterruptTables.{InterruptTables}
use silicium_rs.Paging.{tlb_shootdown_vector}
use silicium_rs.Interrupts.Stubs.{
  Stub, ExceptionStub, exception, irq, idt, unknown_interrupt, tlb_shootdown, clock_tick, pit_tick,
  ignore_irq, divide_by_zero, debug, non_maskable_interrupt, breakpoint, overflow,
  bound_range_exceeded, invalid_opcode, device_not_available, double_fault,
  coprocessor_segment_overrun, invalid_tss, segment_not_present, stack_segment_fault,
  general_protection_fault, page_fault, reserved_1, x87_floating_point, alignment_check,
  machine_check, simd, virtualization, control_protection, reserved_2, reserved_3, reserved_4,
  reserved_5, reserved_6, reserved_7, hypervisor_injection, security_exception, reserved_8,
}

abbrev pub irq_base : ℕ
irq_base = 32

abbrev pub clock_tick_vector : ℕ
clock_tick_vector = 0xF1

module _ ⦃tables : InterruptTables Stub⦄ where
  -- `set_descriptor` with a descriptor of the handler for the kernel.
  abbrev pub install : ℕ → Stub → tables.Table → tables.Table
  install v h t = tables.set_descriptor v (tables.descriptor h tables.kernel_present) t

  -- The loop of `idt::setup`, `n` indices from `i` on.
  unfoldable pub install_default : ℕ → ℕ → tables.Table → Outcome tables.Table
  install_default zero i t = done t
  install_default (suc n) i t =
      guard (ltb i 256) idt_index_too_large
      >> install_default n (suc i) (install i (idt unknown_interrupt) t)

  unfoldable pub idt_setup : tables.Table → Outcome tables.Table
  idt_setup t = do
    t ← install_default tables.capacity 0 t
    let t = install tlb_shootdown_vector (idt tlb_shootdown) t
    done (install clock_tick_vector (idt clock_tick) t)

  -- The loop of `irq::setup`.
  unfoldable pub install_irqs : ℕ → ℕ → tables.Table → tables.Table
  install_irqs zero i t = t
  install_irqs (suc n) i t = install_irqs n (suc i) (install (irq_base + i) (irq ignore_irq) t)

  unfoldable pub irq_setup : tables.Table → tables.Table
  irq_setup t = install irq_base (irq pit_tick) (install_irqs 16 0 t)

  unfoldable pub register_exception_handler : ℕ → ExceptionStub → tables.Table → tables.Table
  register_exception_handler index handler t = install index (exception handler) t

  -- The calls of `exception::setup`, in order.
  unfoldable pub exception_setup : tables.Table → tables.Table
  exception_setup t =
      let t = register_exception_handler 0 divide_by_zero t in
      let t = register_exception_handler 1 debug t in
      let t = register_exception_handler 2 non_maskable_interrupt t in
      let t = register_exception_handler 3 breakpoint t in
      let t = register_exception_handler 4 overflow t in
      let t = register_exception_handler 5 bound_range_exceeded t in
      let t = register_exception_handler 6 invalid_opcode t in
      let t = register_exception_handler 7 device_not_available t in
      let t = register_exception_handler 8 double_fault t in
      let t = register_exception_handler 9 coprocessor_segment_overrun t in
      let t = register_exception_handler 10 invalid_tss t in
      let t = register_exception_handler 11 segment_not_present t in
      let t = register_exception_handler 12 stack_segment_fault t in
      let t = register_exception_handler 13 general_protection_fault t in
      let t = register_exception_handler 14 page_fault t in
      let t = register_exception_handler 15 reserved_1 t in
      let t = register_exception_handler 16 x87_floating_point t in
      let t = register_exception_handler 17 alignment_check t in
      let t = register_exception_handler 18 machine_check t in
      let t = register_exception_handler 19 simd t in
      let t = register_exception_handler 20 virtualization t in
      let t = register_exception_handler 21 control_protection t in
      let t = register_exception_handler 22 reserved_2 t in
      let t = register_exception_handler 23 reserved_3 t in
      let t = register_exception_handler 24 reserved_4 t in
      let t = register_exception_handler 25 reserved_5 t in
      let t = register_exception_handler 26 reserved_6 t in
      let t = register_exception_handler 27 reserved_7 t in
      let t = register_exception_handler 28 hypervisor_injection t in
      let t = register_exception_handler 29 virtualization t in
      let t = register_exception_handler 30 security_exception t in
      let t = register_exception_handler 31 reserved_8 t in t
