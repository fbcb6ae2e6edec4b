-- ===== src/Tests/InterruptTests.antt =====
-- Interrupts on the table that the kernel sets up, which is a function from the vectors here.
use silicium_rs.Base.{
  ℕ, ◌-◌, ◌^◌, ◌<◌, ◌≡◌, ◌≢◌, ◌==◌, Option, none, some, List, [], ◌∷◌, Outcome, done, panicked,
  Panic, refl, arith, ltb, lt→ltb, if◌then◌else◌, eq→==, ne→==, true, not, divide_by_zero_exception,
}
use silicium_rs.Crates.InterruptTables.{InterruptTables}
use silicium_rs.Interrupts.Stubs.{Stub, exception_macro, stub_number, stub_dummy_code}
use silicium_rs.Interrupts.Vectors.{vector_stub, setup_table, IsSetUp, setup_table-vector_stub}
use silicium_rs.Interrupts.Handlers.{
  State, Core, Ending, frozen, Interrupt, enter, pushes_code, exception_handler, call_handler,
  passed_state,
}
use silicium_rs.Interrupts.ErrorCodes.{vector_stub-dummy_code}
use silicium_rs.Interrupts.Runs.{Serves, Served, Serves-Served}
use silicium_rs.Interrupts.Faults.{Interrupt-frozen, FaultEnd, Interrupt-FaultEnd}
use silicium_rs.Tests.Bits.{bits}
use silicium_rs.Tests.Machine.{addresses}
use silicium_rs.Tests.Entries.{page_tables}
use silicium_rs.Tests.PagingTests.{tables, paged-IsPaged}
use silicium_rs.Tests.VmmTests.{ranges}
use silicium_rs.Tests.PageFaultTests.{running}

abbrev pub Vectors : Type 0
Vectors = ℕ → Option Stub

abbrev pub update : ℕ → Stub → Vectors → Vectors
update v h t w = if v == w then some h else t w

instance abbrev pub tables_of_stubs : InterruptTables Stub
tables_of_stubs = record {
  Table = Vectors;
  Descriptor = Stub;
  DescriptorFlags = Unit;
  capacity = 256;
  kernel_present = tt;
  descriptor = λ h _. h;
  set_descriptor = update;
  handler = λ v t. t v;
  fault_code = λ c. c;
  capacity_lem = refl;
  handler-set_self = λ v h t p. rw (eq→== v v refl) refl;
  handler-set_ne = λ v w d t n. rw (ne→== v w n) refl;
}

setup_table-vector_stub_example :
    (t : Vectors) × (setup_table (λ _. none) ≡ done t)
    × ((v : ℕ) → v < 256 → t v ≡ some (vector_stub v))
setup_table-vector_stub_example = setup_table-vector_stub (λ _. none)

abbrev fault : ℕ
fault = 14

abbrev division : ℕ
division = 0

vector_stub-dummy_code_example :
    (fault ≢ 29 → stub_dummy_code (vector_stub fault) ≡ not (pushes_code fault))
    × (fault < 32 → fault ≢ 29 → stub_number (vector_stub fault) ≡ fault)
    × (fault ≡ 29
        → (stub_dummy_code (vector_stub fault) ≡ true)
          × (pushes_code fault ≡ true)
          × (stub_number (vector_stub fault) ≡ 20))
vector_stub-dummy_code_example = vector_stub-dummy_code fault

abbrev set_up : Vectors
set_up v = if ltb v 256 then some (vector_stub v) else none

set_up-IsSetUp : IsSetUp set_up
set_up-IsSetUp v p = rw (lt→ltb v 256 p) refl

-- Before the last tick that the counter holds.
abbrev core : Core
core = record { kernel = running; cr2 = 0xFFFF_9000_0000_0123; ticks = 2 ^ 64 - 1 }

abbrev vectors : List ℕ
vectors = 32 ∷ 0xF0 ∷ 33 ∷ 32 ∷ 0xF1 ∷ []

Serves-Served_example :
    ((d : Core) × Serves set_up vectors core d)
    × ((d : Core) → Serves set_up vectors core d → Served vectors core d)
Serves-Served_example = Serves-Served set_up vectors core set_up-IsSetUp refl (omega arith)

abbrev nothing : State
nothing = record { number = 0; code = 0 }

divide_by_zero : Interrupt set_up 0 0 core (panicked divide_by_zero_exception)
unfolding vector_stub call_handler exception_handler exception_macro passed_state stub_dummy_code
divide_by_zero = enter (vector_stub 0) nothing refl refl

abbrev panic : Outcome Ending
panic = panicked divide_by_zero_exception

Interrupt-frozen_example :
    (division ≡ 2 → panic ≡ done (frozen core))
    × (division ≢ 2 → (p : Panic) × (panic ≡ panicked p))
Interrupt-frozen_example =
    Interrupt-frozen set_up 0 0 core panic set_up-IsSetUp (omega arith) (omega arith) divide_by_zero

-- A write to a page of the heap that is not mapped.
abbrev heap_fault : Outcome Ending
heap_fault = call_handler (vector_stub 14) (passed_state (vector_stub 14) 14 2 nothing) core

Interrupt-FaultEnd_example : FaultEnd 1 tables 2 core heap_fault
Interrupt-FaultEnd_example =
    Interrupt-FaultEnd 1 tables set_up 2 core heap_fault set_up-IsSetUp paged-IsPaged refl
      (omega arith) refl (enter (vector_stub 14) nothing refl refl)
