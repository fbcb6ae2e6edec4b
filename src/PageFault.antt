-- ===== src/PageFault.antt =====
-- The page fault handler of src/arch/paging.rs, and the demand paging of the heap in
-- src/mm/allocator.rs.
pub mod Demand
pub mod Resolved
use silicium_rs.Base.{
  ℕ, ◌^◌, Bool, true, false, not, ◌&&◌, Option, none, some, ltb, leb, if◌then◌else◌, Outcome, done,
  ◌>>=◌,
}
use silicium_rs.Crates.Addresses.{Addresses, Virtual}
use silicium_rs.Crates.BitFlags.{BitFlags}
use silicium_rs.Crates.PageTables.{PageTables}
use silicium_rs.Crates.VirtualRanges.{VirtualRanges}
use silicium_rs.Address.{phys_to_virt}
use silicium_rs.Allocator
use silicium_rs.Allocator.{Memory, Frames}
use silicium_rs.Paging.{
  Machine, MapResult, MapError, ok, err, out_of_memory, already_mapped, map, fetch_pte, present,
  writable, kernel_zeroed, shootdown,
}
use silicium_rs.Vmm
use silicium_rs.Vmm.{
  Vmm, Handled, handled, failed, missing_page, oom_error, vmalloc_start, vmalloc_end,
}

abbrev pub heap_start : Virtual
heap_start = 0xFFFF_9000_0000_0000

abbrev pub heap_end : Virtual
heap_end = 0xFFFF_A000_0000_0000

-- `PageFaultError`, the others of which are with the vmalloc space.
abbrev pub unknown : ℕ
unknown = 0

abbrev pub protection_violation : ℕ
protection_violation = 2 ^ 2

abbrev pub write_protected : ℕ
write_protected = 2 ^ 3

abbrev pub not_executable : ℕ
not_executable = 2 ^ 4

abbrev pub already_mapped_error : ℕ
already_mapped_error = 2 ^ 7

pub data PageFaultType : Type 0 where
  lazy_tlb_invalidation demand_paging : PageFaultType

pub data PageFaultResult : Type 0 where
  resolved : PageFaultType → PageFaultResult
  unresolved : ℕ → PageFaultResult

-- What the handler reads and changes. `EARLY`, the register CR3 and `ACTIVE_TABLE` select the
-- root table.
pub record Kernel : Type 0 where
  pub machine : Machine
  pub vmm : Vmm
  pub early : Bool
  pub cr3 : ℕ
  pub active : Virtual

module _ ⦃x : Addresses⦄ ⦃bits : BitFlags⦄ ⦃pt : PageTables⦄ where
  abbrev pub heap_flags : ℕ
  heap_flags = bits.union (bits.union present writable) (2 ^ pt.no_execute_bit)

  -- `handle_demand_paging` of the heap.
  unfoldable pub handle_heap : Virtual → Virtual → Frames → Outcome (Handled × Frames)
  handle_heap table addr s = do
    (found, s) ← Allocator.allocate kernel_zeroed s
    elim found [
      | none ↦ done (failed oom_error, s)
      | some frame ↦ do
        (result, s) ← map table addr frame heap_flags s
        elim result [
          | ok ↦ done (handled, s)
          | err out_of_memory ↦ done (failed oom_error, s)
          | err already_mapped ↦ done (failed already_mapped_error, s)
        ]
    ]

  -- `active_table`: the root table that CR3 holds.
  unfoldable pub active_table : ℕ → Outcome Virtual
  active_table cr3 = do physical ← x.physical_new (x.page_mask cr3); phys_to_virt physical

  -- The reasons of a fault that cannot be resolved, added to those of the demand paging.
  unfoldable pub fault_reasons : ℕ → Option Virtual → ℕ → Memory → ℕ
  fault_reasons code entry error m =
      if bits.contains code (2 ^ pt.protection_violation_bit)
      then elim entry [
        | none ↦ error
        | some pte ↦
            if not (pt.is_writable (m pte)) && bits.contains code (2 ^ pt.write_access_bit)
            then bits.union error write_protected
            else if not (pt.is_executable (m pte))
                && bits.contains code (2 ^ pt.instruction_fetch_bit)
            then bits.union error not_executable
            else bits.union error protection_violation
      ]
      else bits.union error missing_page

module _ ⦃x : Addresses⦄ ⦃bits : BitFlags⦄ ⦃pt : PageTables⦄ ⦃ranges : VirtualRanges⦄ where
  unfoldable pub handle_demand_paging :
      Virtual → Virtual → Vmm → Frames → Outcome (Handled × Frames)
  handle_demand_paging table addr vmm s =
      if leb heap_start addr && ltb addr heap_end
      then handle_heap table addr s
      else if leb vmalloc_start addr && ltb addr vmalloc_end
      then Vmm.handle_demand_paging table addr vmm.used s
      else done (failed unknown, s)

  -- The end of `handle_page_fault`.
  unfoldable pub unrecoverable :
      Virtual → ℕ → Virtual → ℕ → Machine → Outcome (PageFaultResult × Machine)
  unrecoverable table code addr error s = do
    entry ← fetch_pte pt.page_map_level4 table addr s.frames.memory
    done (unresolved (fault_reasons code entry error s.frames.memory), s)

  unfoldable pub handle_page_fault :
      Virtual → ℕ → Virtual → Vmm → Machine → Outcome (PageFaultResult × Machine)
  handle_page_fault table code addr vmm s = do
    entry ← fetch_pte pt.page_map_level4 table addr s.frames.memory
    let here : Bool = elim entry [ none ↦ false | some pte ↦ pt.is_present (s.frames.memory pte) ]
    let violation = bits.contains code (2 ^ pt.protection_violation_bit)
    if here && not violation
        then done (resolved lazy_tlb_invalidation, record s { cpu = shootdown s.cpu })
        else if not here && not violation
        then (do
          (result, frames) ← handle_demand_paging table addr vmm s.frames
          elim result [
            | handled ↦ done (resolved demand_paging, record s { frames = frames })
            | failed e ↦
                unrecoverable table code addr (bits.union unknown e) (record s { frames = frames })
          ])
        else unrecoverable table code addr unknown s

  unfoldable pub page_fault : ℕ → Virtual → Kernel → Outcome (PageFaultResult × Kernel)
  page_fault code addr k = do
    table ← (if k.early then active_table k.cr3 else done k.active)
    (result, machine) ← handle_page_fault table code addr k.vmm k.machine
    done (result, record k { machine = machine })
