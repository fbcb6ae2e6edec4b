-- ===== src/Boot/Prepared.antt =====
-- `start` up to the end of `init_bsp`: every part is set up.
use silicium_rs.Base.{ℕ, ◌≡◌}
use silicium_rs.Crates.Addresses.{Addresses}
use silicium_rs.Crates.BitFlags.{BitFlags}
use silicium_rs.Crates.PageTables.{PageTables}
use silicium_rs.Crates.VirtualRanges.{VirtualRanges}
use silicium_rs.Crates.SegmentTables.{SegmentTables}
use silicium_rs.Vmm
use silicium_rs.Vmm.{
  Vmm, map_flag, zeroed_flag, align_size, insert_free_vma, insert_free, push_free, virtual_range,
  vmalloc_start, vmalloc_end,
}
use silicium_rs.Vmm.FirstFit.{IsVmm}
use silicium_rs.Smp.Local.{gdt_entries, current_id}
use silicium_rs.Boot.RootTables.{IsTables}
use silicium_rs.Crates.InterruptTables.{InterruptTables}
use silicium_rs.Interrupts.Stubs.{Stub}
use silicium_rs.Interrupts.Vectors.{IsSetUp}
use silicium_rs.Smp.Segments.{HasSegments, HasTask}
use silicium_rs.Boot.{Booted}

module _ ⦃x : Addresses⦄ ⦃bits : BitFlags⦄ ⦃pt : PageTables⦄ ⦃ranges : VirtualRanges⦄
    ⦃gdt : SegmentTables gdt_entries⦄ ⦃tables : InterruptTables Stub⦄ where
  -- What the other cores and the interrupts find.
  pub record IsPrepared (pinned boot : ℕ) (k : Booted) : Type 0 where
    pub vectors : IsSetUp k.idt
    pub segments : HasSegments k.first.gdt_table
    pub task : HasTask 0 k.first.gdt_table
    pub id : current_id k.first.local ≡ 0
    pub areas : IsVmm k.first.vmm
    pub tables_ready : IsTables pinned boot k.first.tables k.first.frames
