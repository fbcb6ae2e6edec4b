-- ===== src/Boot.antt =====
-- `check_around` and `start` of src/main.rs, `setup` of src/mm/mod.rs and `init_bsp` of src/arch/mod.rs: the
-- parts of the kernel are set up one after another, from what the bootloader has answered.
pub mod Accounts
pub mod Settling
pub mod RootTables
pub mod Ready
pub mod Prepared
pub mod Cores
use silicium_rs.Base.{
  ℕ, Bool, true, false, Option, none, some, List, ◌==◌, Outcome, done, ◌>>=◌, ◌>>◌, guard, or_panic,
  unwrap_none, no_stack_size, no_memory_map, no_direct_mapping, no_root_pointer,
  no_core_information, direct_mapping_elsewhere,
}
use silicium_rs.Crates.Addresses.{Addresses, Virtual}
use silicium_rs.Crates.BitFlags.{BitFlags}
use silicium_rs.Crates.PageTables.{PageTables}
use silicium_rs.Crates.VirtualRanges.{VirtualRanges}
use silicium_rs.Crates.SegmentTables.{SegmentTables}
use silicium_rs.FrameState.Setup.{MemmapEntry}
use silicium_rs.FrameState.Setup
use silicium_rs.Allocator
use silicium_rs.Allocator.{Frames}
use silicium_rs.Current.Init
use silicium_rs.Current.Init.{Tables}
use silicium_rs.Vmm
use silicium_rs.Vmm.{Vmm}
use silicium_rs.Smp.Local.{gdt_entries, SmpInfo, ThreadLocalInfo, gdt_setup, bsp_setup, install}
use silicium_rs.Crates.InterruptTables.{InterruptTables}
use silicium_rs.Interrupts.Stubs.{Stub}
use silicium_rs.Interrupts.Vectors.{setup_table}

-- The answers of the bootloader to the `LIMINE_` requests: `none` where `get_response` has none.
pub record Responses : Type 0 where
  pub stack : Option (Unit {0})
  pub memmap : Option (List MemmapEntry)
  pub hhdm : Option ℕ
  pub rsdp : Option Virtual
  pub smp : Option (List SmpInfo)

-- `is_some`.
abbrev pub is_some {ℓ} : {A : Type ℓ} → Option A → Bool
is_some none = false
is_some (some a) = true

abbrev pub hhdm_start : Virtual
hhdm_start = 0xFFFF_8000_0000_0000

unfoldable pub check_around : Responses → Outcome (Unit {0})
check_around r = do
  guard (is_some r.stack) no_stack_size
  guard (is_some r.memmap) no_memory_map
  guard (is_some r.hhdm) no_direct_mapping
  guard (is_some r.rsdp) no_root_pointer
  guard (is_some r.smp) no_core_information
  offset ← or_panic r.hhdm unwrap_none
  guard (offset == hhdm_start) direct_mapping_elsewhere

module _ ⦃x : Addresses⦄ ⦃bits : BitFlags⦄ ⦃ranges : VirtualRanges⦄ where
  -- `setup` of src/mm/mod.rs, without the heap of the crate.
  unfoldable pub mm_setup : Responses → Frames → Vmm → Outcome (Frames × Vmm)
  mm_setup r s vmm = do
    mmap ← or_panic r.memmap unwrap_none
    (array, statistic) ← Setup.setup s.array mmap
    done (Allocator.setup statistic (record s { array = array }), Vmm.setup vmm)

module _ ⦃x : Addresses⦄ ⦃bits : BitFlags⦄ ⦃pt : PageTables⦄ ⦃ranges : VirtualRanges⦄
    ⦃gdt : SegmentTables gdt_entries⦄ where
  -- What `init_bsp` changes; `local` is the structure that FS and GS are set to.
  pub record FirstCore : Type 0 where
    pub local : ThreadLocalInfo
    pub tables : Tables
    pub frames : Frames
    pub vmm : Vmm
    pub gdt_table : gdt.Table

  -- `init_bsp`, without the two devices of the crate. The boot loader has left `cr3` in CR3.
  unfoldable pub init_bsp : ℕ → ℕ → Responses → Frames → Vmm → gdt.Table → Outcome FirstCore
  init_bsp per_cpu_size cr3 r frames vmm t = do
    cpus ← or_panic r.smp unwrap_none
    (local, vmm) ← bsp_setup per_cpu_size cpus vmm
    (tables, frames) ← Init.setup cr3 frames
    (_, t) ← install 0 t
    done (record { local = local; tables = tables; frames = frames; vmm = vmm; gdt_table = t })

module _ ⦃x : Addresses⦄ ⦃bits : BitFlags⦄ ⦃pt : PageTables⦄ ⦃ranges : VirtualRanges⦄
    ⦃gdt : SegmentTables gdt_entries⦄ ⦃tables : InterruptTables Stub⦄ where
  pub record Booted : Type 0 where
    pub first : FirstCore
    pub idt : tables.Table

  -- `start` up to the end of `init_bsp`.
  unfoldable pub prepare :
      ℕ → ℕ → Responses → gdt.Table → tables.Table → Frames → Vmm → Outcome Booted
  prepare per_cpu_size cr3 r t idt frames vmm = do
    check_around r
    t ← gdt_setup t
    idt ← setup_table idt
    (frames, vmm) ← mm_setup r frames vmm
    first ← init_bsp per_cpu_size cr3 r frames vmm t
    done (record { first = first; idt = idt })
