-- ===== src/Lib.antt =====
-- Silicium, a kernel for x86_64 in Rust: its physical memory, its page tables, its page faults,
-- its vmalloc space, its interrupts and the start of its cores.
--
-- A frame is 4096 bytes of physical memory. At the start `State::setup` makes an array with one
-- entry for each frame out of the boot loader's memory map; the frame allocator hands frames out of
-- the array, counts their users and takes them back. The paging code allocates frames for page
-- tables and writes entries that map virtual pages to frames. A page fault in the heap or in an area
-- of the vmalloc space is resolved by allocating a frame and mapping it. The interrupt table leads the
-- processor from a vector to a handler, of which that of the page fault calls the paging code. Physical
-- memory of devices is mapped into areas of the vmalloc space. The first core tells the others to
-- start; each of them takes its thread local storage from the vmalloc space, its task state segment
-- from the descriptor table and its root table from the initial one, and counts itself.
--
-- The files and the code they model:
--   Base, with Base/Tests, Base/Lists, Base/Outcomes and Base/Word: the names that all files share;
--     `Outcome`, a value or a panic; lists, comparisons and 64-bit arithmetic on ℕ.
--   Crates/*: the crates x86_64, bitflags and limine, whose code is not in the repository, as records of the
--     operations that the kernel calls with the documented behaviour that it relies on. A definition
--     that calls a crate takes its record as an instance argument. Tests/Bits, Tests/Machine,
--     Tests/Entries, Tests/VmmTests, Tests/InterruptTests and Tests/SmpTests hold instances of them.
--   Address: src/arch/address.rs, the direct map of physical memory (HHDM).
--   Frame, Frame/Flags, Frame/Ranges: src/mm/frame/mod.rs.
--   FrameState, FrameState/Slices, FrameState/Setup: src/mm/frame/state.rs.
--   Allocator: src/mm/frame/dummy_allocator.rs. The state `Frames` is the frame array, the
--     statistics and the memory. Allocator/Invariant has the well-formedness, the other files below
--     it the operations, Allocator/History the specification by numbers of users.
--   Paging: src/arch/paging.rs. A reference to an entry is the entry's virtual address, a write of
--     an entry changes one word of memory. Paging/Space ties the tables that memory holds to the
--     frame allocator; Paging/Walk is the walk as a relation. Paging/Start is the loop of
--     `setup`.
--   Vmm: src/mm/vmm.rs. A BTreeMap is the list of its entries in the order of the keys.
--   PageFault: the page fault handler of src/arch/paging.rs and `handle_demand_paging` of
--     src/mm/allocator.rs.
--   Current: TableRoot and the operations on the active table, of src/arch/paging.rs; Current/Init is
--     `setup` with the first uses of `INIT_TABLE` and `ACTIVE_TABLE`.
--   Interrupts: Interrupts/Stubs has the arguments of `interrupt_handler!`, Interrupts/Setup the table,
--     Interrupts/Handlers the handlers of src/arch/exception.rs, src/arch/idt.rs and src/arch/irq.rs.
--     The other files below it are about the table once it is set up.
--   Acpi: the mappings of src/arch/acpi.rs.
--   Smp: Smp/Local is what each core has of its own, of src/arch/smp.rs, src/arch/gdt.rs and
--     src/arch/tss.rs; Smp/System has `start_cpus` and `ap_start` as steps on a common state.
--   Boot: `check_around` and `start` of src/main.rs up to the end of `init_bsp`, with `setup` of
--     src/mm/mod.rs and `init_bsp` of src/arch/mod.rs. Boot/Accounts and Boot/Settling are about the
--     counts that `State::setup` makes, Boot/Ready and Boot/Prepared about the composition,
--     Boot/Cores about the start of the other cores after it.
--   Tests/*: the theorems at concrete inputs, and runs of the code.
--
-- Choices. Numbers are natural numbers; arithmetic of `u64` and `usize` wraps around at 2^64, as in a
-- release build, wherever the source does not use a checked operation, and a multiplication by a
-- constant likewise. A panic ends a run. Where one core runs, locks and disabled interrupts make each
-- operation one step, so that the state is passed from call to call. Memory is a function from the virtual address of a
-- word to its value, through the HHDM. A page table level is the number of levels below it, which the
-- walks recurse on.
--
-- Fuel. `find_window` is called with two more rounds than the array has frames, and it ends earlier;
-- `deallocate_range` and the loop over a range take fuel as an argument, and more rounds than the
-- range has frames are enough.
--
-- Interleaving. In Smp/System each step of a core takes one lock at most, so that an allocation of an
-- area is two steps, between which the core holds the area, and a clone of a table is two, between
-- which it holds the frame; the steps of the cores come in any order. Elsewhere one core runs.
--
-- Not modelled: the tables of ACPI, which the crate acpi parses, logging, the panic handler and the
-- assembly of the entry points; `start` after `init_bsp`, except `start_cpus`; the timer and the
-- interrupt controller of crates, which `init_bsp` sets up; the release of a `TableRoot`; the writes into
-- thread local storage, of which only the structure is kept, and the page faults that they raise; the
-- bytes of the frame array, which is a list beside the memory; the heap itself, which is the crate
-- linked_list_allocator.
pub mod Base
pub mod Crates
pub mod Address
pub mod Frame
pub mod FrameState
pub mod Allocator
pub mod Paging
pub mod Vmm
pub mod PageFault
pub mod Boot
pub mod Current
pub mod Acpi
pub mod Smp
pub mod Interrupts
pub mod Tests
