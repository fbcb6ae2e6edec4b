-- ===== src/Interrupts/Stubs.antt =====
-- The functions that `interrupt_handler!` makes in src/arch/exception.rs, src/arch/irq.rs and
-- src/arch/idt.rs, with the macro's arguments.
use silicium_rs.Base.{ℕ, ◌^◌, ◌-◌, Bool, true, false}

-- What the processor enters. Each calls a handler of the same file.
pub data ExceptionStub : Type 0 where
  divide_by_zero debug non_maskable_interrupt breakpoint overflow bound_range_exceeded :
      ExceptionStub
  invalid_opcode device_not_available double_fault coprocessor_segment_overrun : ExceptionStub
  invalid_tss segment_not_present stack_segment_fault general_protection_fault : ExceptionStub
  page_fault reserved_1 x87_floating_point alignment_check machine_check simd : ExceptionStub
  virtualization control_protection reserved_2 reserved_3 reserved_4 reserved_5 : ExceptionStub
  reserved_6 reserved_7 hypervisor_injection vmm_communication security_exception : ExceptionStub
  reserved_8 : ExceptionStub

pub data IrqStub : Type 0 where
  pit_tick ignore_irq : IrqStub

pub data IdtStub : Type 0 where
  unknown_interrupt tlb_shootdown clock_tick : IdtStub

pub data Stub : Type 0 where
  exception : ExceptionStub → Stub
  irq : IrqStub → Stub
  idt : IdtStub → Stub

pub data ExceptionHandler : Type 0 where
  divide_by_zero_handler debug_handler non_maskable_interrupt_handler : ExceptionHandler
  breakpoint_handler overflow_handler bound_range_exceeded_handler : ExceptionHandler
  invalid_opcode_handler device_not_available_handler double_fault_handler : ExceptionHandler
  coprocessor_segment_overrun_handler invalid_tss_handler segment_not_present_handler :
      ExceptionHandler
  stack_segment_fault_handler general_protection_fault_handler page_fault_handler : ExceptionHandler
  reserved_handler x87_floating_point_handler alignment_check_handler : ExceptionHandler
  machine_check_handler simd_floating_point_handler virtualization_handler : ExceptionHandler
  control_protection_handler hypervisor_injection_handler vmm_communication_handler :
      ExceptionHandler
  security_exception_handler : ExceptionHandler

pub data IrqHandler : Type 0 where
  pit_tick_handler ignore_irq_handler : IrqHandler

pub data IdtHandler : Type 0 where
  unknown_interrupt_handler tlb_shootdown_handler clock_tick_handler : IdtHandler

-- The arguments of the macro: the number that is pushed, the handler, and whether a 0 is pushed in
-- the place of an error code.
pub record InterruptHandler (Handler : Type 0) : Type 0 where
  pub number : ℕ
  pub handler : Handler
  pub dummy_code : Bool

abbrev interrupt_handler : {Handler : Type 0} → ℕ → Handler → Bool → InterruptHandler Handler
interrupt_handler n h d = record { number = n; handler = h; dummy_code = d }

unfoldable pub exception_macro : ExceptionStub → InterruptHandler ExceptionHandler
exception_macro divide_by_zero = interrupt_handler 0 divide_by_zero_handler true
exception_macro debug = interrupt_handler 1 debug_handler true
exception_macro non_maskable_interrupt = interrupt_handler 2 non_maskable_interrupt_handler true
exception_macro breakpoint = interrupt_handler 3 breakpoint_handler true
exception_macro overflow = interrupt_handler 4 overflow_handler true
exception_macro bound_range_exceeded = interrupt_handler 5 bound_range_exceeded_handler true
exception_macro invalid_opcode = interrupt_handler 6 invalid_opcode_handler true
exception_macro device_not_available = interrupt_handler 7 device_not_available_handler true
exception_macro double_fault = interrupt_handler 8 double_fault_handler false
exception_macro coprocessor_segment_overrun =
    interrupt_handler 9 coprocessor_segment_overrun_handler true
exception_macro invalid_tss = interrupt_handler 10 invalid_tss_handler false
exception_macro segment_not_present = interrupt_handler 11 segment_not_present_handler false
exception_macro stack_segment_fault = interrupt_handler 12 stack_segment_fault_handler false
exception_macro general_protection_fault =
    interrupt_handler 13 general_protection_fault_handler false
exception_macro page_fault = interrupt_handler 14 page_fault_handler false
exception_macro reserved_1 = interrupt_handler 15 reserved_handler true
exception_macro x87_floating_point = interrupt_handler 16 x87_floating_point_handler true
exception_macro alignment_check = interrupt_handler 17 alignment_check_handler false
exception_macro machine_check = interrupt_handler 18 machine_check_handler true
exception_macro simd = interrupt_handler 19 simd_floating_point_handler true
exception_macro virtualization = interrupt_handler 20 virtualization_handler true
exception_macro control_protection = interrupt_handler 21 control_protection_handler false
exception_macro reserved_2 = interrupt_handler 22 reserved_handler true
exception_macro reserved_3 = interrupt_handler 23 reserved_handler true
exception_macro reserved_4 = interrupt_handler 24 reserved_handler true
exception_macro reserved_5 = interrupt_handler 25 reserved_handler true
exception_macro reserved_6 = interrupt_handler 26 reserved_handler true
exception_macro reserved_7 = interrupt_handler 27 reserved_handler true
exception_macro hypervisor_injection = interrupt_handler 28 hypervisor_injection_handler true
exception_macro vmm_communication = interrupt_handler 29 vmm_communication_handler false
exception_macro security_exception = interrupt_handler 30 security_exception_handler false
exception_macro reserved_8 = interrupt_handler 31 reserved_handler true

unfoldable pub irq_macro : IrqStub → InterruptHandler IrqHandler
irq_macro pit_tick = interrupt_handler 32 pit_tick_handler true
irq_macro ignore_irq = interrupt_handler 0xFF ignore_irq_handler true

-- The number -1 is the word with all bits set.
unfoldable pub idt_macro : IdtStub → InterruptHandler IdtHandler
idt_macro unknown_interrupt = interrupt_handler (2 ^ 64 - 1) unknown_interrupt_handler true
idt_macro tlb_shootdown = interrupt_handler 0xF0 tlb_shootdown_handler true
idt_macro clock_tick = interrupt_handler 0xF1 clock_tick_handler true

unfoldable pub stub_number : Stub → ℕ
unfolding exception_macro irq_macro idt_macro
stub_number (exception e) = (exception_macro e).number
stub_number (irq i) = (irq_macro i).number
stub_number (idt i) = (idt_macro i).number

unfoldable pub stub_dummy_code : Stub → Bool
unfolding exception_macro irq_macro idt_macro
stub_dummy_code (exception e) = (exception_macro e).dummy_code
stub_dummy_code (irq i) = (irq_macro i).dummy_code
stub_dummy_code (idt i) = (idt_macro i).dummy_code
