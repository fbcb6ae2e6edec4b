-- ===== src/Tests/PageFaultTests.antt =====
-- A write to a page that is not mapped, and to one that is, in the kernel's own address space.
use silicium_rs.Base.{ℕ, ◌≡◌, ◌+◌, done, refl, arith, false, [], ◌∷◌, add64}
use silicium_rs.Address.{phys_to_virt}
use silicium_rs.Frame.{new_stats}
use silicium_rs.Frame.Flags
use silicium_rs.FrameState.Slices.{find}
use silicium_rs.Allocator
use silicium_rs.Allocator.{Frames, claim, zero_bytes}
use silicium_rs.Paging.{
  Machine, write, map, creat_and_fetch_pte, ensure_entry, next_table, frame_to_map,
}
use silicium_rs.Paging.Space.{Typing}
use silicium_rs.Paging.Served.{Served}
use silicium_rs.Vmm.{handled}
use silicium_rs.PageFault.{handle_heap, PageFaultResult, Kernel, page_fault, handle_demand_paging}
use silicium_rs.PageFault.Resolved.{Verdict, page_fault-Verdict}
use silicium_rs.PageFault.Demand.{IsMappable, handle_demand_paging-IsMappable}
use silicium_rs.Tests.Bits.{bits}
use silicium_rs.Tests.Machine.{addresses}
use silicium_rs.Tests.Entries.{page_tables}
use silicium_rs.Tests.PagingTests.{machine, root, tables, paged, paged-IsPaged}
use silicium_rs.Tests.VmmTests.{ranges, later}
use silicium_rs.Tests.AllocatorTests.{entry}

abbrev pub running : Kernel
running = record { machine = machine; vmm = later; early = false; cr3 = 0x10_0000; active = root }

page_fault-Verdict_example :
    (r : PageFaultResult) × (s' : Machine) × (after : Typing) × (page_fault 2 0xFFFF_9000_0000_0123
        running
      ≡ done (r, record running { machine = s' }))
    × Served 1 tables after paged s'.frames
    × Verdict root 2 0xFFFF_9000_0000_0123 machine r s'
page_fault-Verdict_example =
    page_fault-Verdict 1 tables 2 0xFFFF_9000_0000_0123 running paged-IsPaged refl (omega arith)

-- The heap shares the tables of the page that is mapped; its second page is not mapped.
abbrev with_heap : Frames
with_heap = record paged { memory = write paged.memory (root + 0x900) 0x10_1003 }

abbrev heap_page : ℕ
heap_page = 0xFFFF_9000_0000_1000

abbrev served : Frames
served = record {
  array =
      entry 0 Flags.kernel 2
      ∷ entry 1 Flags.kernel 0
      ∷ entry 2 Flags.kernel 1
      ∷ entry 3 Flags.free 0
      ∷ [];
  statistic = record new_stats { total = 4; usable = 4; allocated = 3; kernel = 3 };
  memory =
      write (zero_bytes 0xffff_8000_0000_2000 4096 with_heap.memory) (root + 0x3008)
        0x8000_0000_0000_2003;
}

heap_test : handle_demand_paging root heap_page later with_heap ≡ done (handled, served)
unfolding handle_demand_paging handle_heap map creat_and_fetch_pte ensure_entry next_table
    phys_to_virt add64 Allocator.allocate find claim frame_to_map zero_bytes
heap_test = refl

handle_demand_paging-IsMappable_example : IsMappable heap_page later
handle_demand_paging-IsMappable_example =
    handle_demand_paging-IsMappable root heap_page later with_heap served heap_test
