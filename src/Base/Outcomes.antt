-- ===== src/Base/Outcomes.antt =====
-- What a run of kernel code comes to: a value, or a panic, which halts the machine.
use Prim.Native.Nat.{ℕ}
use mathlib.Core.Path.{◌≡◌, refl, ap}
use mathlib.Core.Option.{Option, none, some}
use mathlib.Core.Bool.{Bool, true, false}

-- One constructor for each `panic!`, `assert!`, `expect` or `unwrap`, and for the checks that the
-- compiler inserts.
pub data Panic : Type 0 where
  invalid_address : Panic
  frame_not_aligned : Panic
  count_overflow : Panic
  frame_not_retained : Panic
  already_initialized : Panic
  no_place_for_array : Panic
  slice_out_of_range : Panic
  index_out_of_bounds : Panic
  invalid_frame : Panic
  reference_not_allocated : Panic
  too_many_deallocations : Panic
  unwrap_none : Panic
  not_in_hhdm : Panic
  not_implemented : Panic
  page_already_mapped : Panic
  unrecoverable_page_fault : Panic
  divide_by_zero_exception : Panic
  debug_exception : Panic
  breakpoint_exception : Panic
  overflow_exception : Panic
  bound_range_exceeded_exception : Panic
  invalid_opcode_exception : Panic
  device_not_available_exception : Panic
  double_fault_exception : Panic
  coprocessor_segment_overrun_exception : Panic
  invalid_tss_exception : Panic
  segment_not_present_exception : Panic
  stack_segment_fault_exception : Panic
  reserved_exception : Panic
  x87_floating_point_exception : Panic
  alignment_check_exception : Panic
  machine_check_exception : Panic
  simd_floating_point_exception : Panic
  virtualization_exception : Panic
  control_protection_exception : Panic
  hypervisor_injection_exception : Panic
  security_exception : Panic
  unknown_interrupt_exception : Panic
  general_protection_fault_exception : ℕ → Panic
  irq_number_too_large : Panic
  idt_index_too_large : Panic
  map_refused : Panic
  no_virtual_memory : Panic
  no_local_storage : Panic
  selector_too_large : Panic
  no_core_found : Panic
  too_many_cores : Panic
  no_stack_size : Panic
  no_memory_map : Panic
  no_direct_mapping : Panic
  no_root_pointer : Panic
  no_core_information : Panic
  direct_mapping_elsewhere : Panic
  out_of_fuel : Panic

pub data Outcome {ℓ} (A : Type ℓ) : Type ℓ where
  done : A → Outcome A
  panicked : Panic → Outcome A

infixl 5 ◌>>=◌ ◌>>◌
abbrev pub ◌>>=◌ {ℓ κ} : {A : Type ℓ} {B : Type κ} → Outcome A → (A → Outcome B) → Outcome B
done a >>= f = f a
panicked p >>= f = panicked p

abbrev pub ◌>>◌ {ℓ} : {B : Type ℓ} → Outcome (Unit {0}) → Outcome B → Outcome B
m >> k = m >>= λ _. k

-- `assert!(b)`.
abbrev pub guard : Bool → Panic → Outcome (Unit {0})
guard true p = done tt
guard false p = panicked p

-- `unwrap` and `expect`.
abbrev pub or_panic {ℓ} : {A : Type ℓ} → Option A → Panic → Outcome A
or_panic none p = panicked p
or_panic (some a) p = done a

pub >>=-eq-done {ℓ κ} :
    {A : Type ℓ} {B : Type κ} (m : Outcome A) (f : A → Outcome B) {b : B}
    → (m >>= f) ≡ done b
    → (a : A) × (m ≡ done a) × (f a ≡ done b)
>>=-eq-done (done a) f h = (a, refl, h)
>>=-eq-done (panicked p) f h = cc

-- A run has one outcome.
pub done_unique {ℓ} : {A : Type ℓ} {m : Outcome A} {a b : A} → m ≡ done a → m ≡ done b → a ≡ b
done_unique p q = cc

pub done_unique_state {ℓ κ} :
    {A : Type ℓ} {S : Type κ} {m : Outcome (A × S)} {a b : A} {s t : S}
    → m ≡ done (a, s)
    → m ≡ done (b, t)
    → s ≡ t
done_unique_state p q = ap (λ r. r.1) (done_unique p q)

pub done_injective {ℓ} : {A : Type ℓ} {a b : A} → done a ≡ done b → a ≡ b
done_injective p = cc
