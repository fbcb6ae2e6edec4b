-- ===== src/Interrupts/Handlers.antt =====
-- The handlers of src/arch/exception.rs, src/arch/irq.rs and src/arch/idt.rs.
use silicium_rs.Base.{
  ℕ, ◌+◌, ◌^◌, ◌%◌, ◌≡◌, Bool, ◌||◌, ◌&&◌, some, ◌∷◌, ltb, leb, ◌==◌, if◌then◌else◌, Outcome, done,
  panicked, ◌>>=◌, ◌>>◌, guard, irq_number_too_large, unrecoverable_page_fault,
  unknown_interrupt_exception, divide_by_zero_exception, debug_exception, breakpoint_exception,
  overflow_exception, bound_range_exceeded_exception, invalid_opcode_exception,
  device_not_available_exception, double_fault_exception, coprocessor_segment_overrun_exception,
  invalid_tss_exception, segment_not_present_exception, stack_segment_fault_exception,
  general_protection_fault_exception, reserved_exception, x87_floating_point_exception,
  alignment_check_exception, machine_check_exception, simd_floating_point_exception,
  virtualization_exception, control_protection_exception, hypervisor_injection_exception,
  security_exception,
}
use silicium_rs.Crates.Addresses.{Addresses}
use silicium_rs.Crates.BitFlags.{BitFlags}
use silicium_rs.Crates.PageTables.{PageTables}
use silicium_rs.Crates.VirtualRanges.{VirtualRanges}
use silicium_rs.Crates.InterruptTables.{InterruptTables}
use silicium_rs.Paging.{Cpu, Event, flush_all, send_ipi, send_eoi, pic_eoi}
use silicium_rs.PageFault
use silicium_rs.PageFault.{Kernel, PageFaultResult, resolved, unresolved}
use silicium_rs.Interrupts.Setup.{clock_tick_vector}
use silicium_rs.Interrupts.Stubs.{
  Stub, exception, irq, idt, ExceptionHandler, IrqHandler, IdtHandler, exception_macro, irq_macro,
  idt_macro, stub_number, stub_dummy_code, pit_tick_handler, ignore_irq_handler,
  unknown_interrupt_handler, tlb_shootdown_handler, clock_tick_handler, divide_by_zero_handler,
  debug_handler, non_maskable_interrupt_handler, breakpoint_handler, overflow_handler,
  bound_range_exceeded_handler, invalid_opcode_handler, device_not_available_handler,
  double_fault_handler, coprocessor_segment_overrun_handler, invalid_tss_handler,
  segment_not_present_handler, stack_segment_fault_handler, general_protection_fault_handler,
  page_fault_handler, reserved_handler, x87_floating_point_handler, alignment_check_handler,
  machine_check_handler, simd_floating_point_handler, virtualization_handler,
  control_protection_handler, hypervisor_injection_handler, vmm_communication_handler,
  security_exception_handler,
}

-- The fields of `cpu::State` that a handler reads.
pub record State : Type 0 where
  pub number : ℕ
  pub code : ℕ

-- `TICKS`, the register CR2 of the core, and what the page fault handler works on.
pub record Core : Type 0 where
  pub kernel : Kernel
  pub cr2 : ℕ
  pub ticks : ℕ

-- What a handler that does not panic comes to: it returns, or it stops the core.
pub data Ending : Type 0 where
  returned frozen : Core → Ending

-- The exceptions at which the processor pushes an error code.
abbrev pub pushes_code : ℕ → Bool
pushes_code v = v == 8 || (leb 10 v && leb v 14) || v == 17 || v == 21 || v == 29 || v == 30

abbrev pub set_cpu : Cpu → Core → Core
set_cpu p c = record c {
  kernel = record c.kernel { machine = record c.kernel.machine { cpu = p } };
}

abbrev pub cpu_of : Core → Cpu
cpu_of c = c.kernel.machine.cpu

-- The core or a controller is told something.
abbrev pub tell : Event → Cpu → Cpu
tell e p = record p { events = e ∷ p.events }

unfoldable pub irq_handler : IrqHandler → State → Core → Outcome Ending
irq_handler pit_tick_handler s c = do
  let c = record c { ticks = (c.ticks + 1) % 2 ^ 64 }
  let p = tell (send_ipi clock_tick_vector) (cpu_of c)
  guard (ltb s.number 256) irq_number_too_large
  done (returned (set_cpu (tell (pic_eoi s.number) p) c))
irq_handler ignore_irq_handler s c = done (returned c)

unfoldable pub idt_handler : IdtHandler → State → Core → Outcome Ending
idt_handler unknown_interrupt_handler s c = panicked unknown_interrupt_exception
idt_handler tlb_shootdown_handler s c =
    done (returned (set_cpu (tell send_eoi (flush_all (cpu_of c))) c))
idt_handler clock_tick_handler s c = done (returned (set_cpu (tell send_eoi (cpu_of c)) c))

-- The state that a stub passes to its handler, if the processor pushes the code at the vectors
-- where it does. A stub that expects the other layout passes what else is on the stack.
unfoldable pub passed_state : Stub → ℕ → ℕ → State → State
passed_state h v code other =
    if stub_dummy_code h
    then (if pushes_code v then other else record { number = stub_number h; code = 0 })
    else if pushes_code v
    then record { number = stub_number h; code = code }
    else other

module _ ⦃x : Addresses⦄ ⦃bits : BitFlags⦄ ⦃pt : PageTables⦄ ⦃ranges : VirtualRanges⦄
    ⦃tables : InterruptTables Stub⦄ where
  unfoldable pub exception_handler : ExceptionHandler → State → Core → Outcome Ending
  exception_handler divide_by_zero_handler s c = panicked divide_by_zero_exception
  exception_handler debug_handler s c = panicked debug_exception
  exception_handler non_maskable_interrupt_handler s c = done (frozen c)
  exception_handler breakpoint_handler s c = panicked breakpoint_exception
  exception_handler overflow_handler s c = panicked overflow_exception
  exception_handler bound_range_exceeded_handler s c = panicked bound_range_exceeded_exception
  exception_handler invalid_opcode_handler s c = panicked invalid_opcode_exception
  exception_handler device_not_available_handler s c = panicked device_not_available_exception
  exception_handler double_fault_handler s c = panicked double_fault_exception
  exception_handler coprocessor_segment_overrun_handler s c =
      panicked coprocessor_segment_overrun_exception
  exception_handler invalid_tss_handler s c = panicked invalid_tss_exception
  exception_handler segment_not_present_handler s c = panicked segment_not_present_exception
  exception_handler stack_segment_fault_handler s c = panicked stack_segment_fault_exception
  exception_handler general_protection_fault_handler s c =
      panicked (general_protection_fault_exception s.code)
  exception_handler page_fault_handler s c = do
    addr ← x.virtual_new c.cr2
    (result, k) ← PageFault.page_fault (tables.fault_code s.code) addr c.kernel
    elim result [
      | resolved _ ↦ done (returned (record c { kernel = k }))
      | unresolved _ ↦ panicked unrecoverable_page_fault
    ]
  exception_handler reserved_handler s c = panicked reserved_exception
  exception_handler x87_floating_point_handler s c = panicked x87_floating_point_exception
  exception_handler alignment_check_handler s c = panicked alignment_check_exception
  exception_handler machine_check_handler s c = panicked machine_check_exception
  exception_handler simd_floating_point_handler s c = panicked simd_floating_point_exception
  exception_handler virtualization_handler s c = panicked virtualization_exception
  exception_handler control_protection_handler s c = panicked control_protection_exception
  exception_handler hypervisor_injection_handler s c = panicked hypervisor_injection_exception
  exception_handler vmm_communication_handler s c = panicked hypervisor_injection_exception
  exception_handler security_exception_handler s c = panicked security_exception

  -- The call of the handler that the macro's stub makes.
  unfoldable pub call_handler : Stub → State → Core → Outcome Ending
  unfolding exception_macro irq_macro idt_macro
  call_handler (exception e) s c = exception_handler (exception_macro e).handler s c
  call_handler (irq i) s c = irq_handler (irq_macro i).handler s c
  call_handler (idt i) s c = idt_handler (idt_macro i).handler s c

  -- An interrupt at a vector, with the error code that the processor has for it.
  pub data Interrupt (t : tables.Table) (v code : ℕ) (c : Core) (r : Outcome Ending) : Type 0 where
    enter :
        (h : Stub) (other : State)
        → tables.handler v t ≡ some h
        → call_handler h (passed_state h v code other) c ≡ r
        → Interrupt t v code c r
