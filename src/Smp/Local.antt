-- ===== src/Smp/Local.antt =====
-- The storage, the task state segment and the page table of a core.
use silicium_rs.Base.{
  ℕ, ◌+◌, ◌*◌, ◌^◌, ltb, ◌==◌, if◌then◌else◌, Option, none, some, List, [], ◌∷◌, Outcome, done,
  panicked, ◌>>=◌, ◌>>◌, guard, or_panic, unwrap_none, no_local_storage, selector_too_large,
  not_implemented, not,
}
use silicium_rs.Crates.Addresses.{Addresses, Virtual}
use silicium_rs.Crates.BitFlags.{BitFlags}
use silicium_rs.Crates.VirtualRanges.{VirtualRanges}
use silicium_rs.Crates.SegmentTables.{
  SegmentTables, null, kernel_code64, kernel_data, user_code64, user_data, tss,
}
use silicium_rs.Vmm
use silicium_rs.Vmm.{
  Vmm, VirtualArea, allocated, refused, map_flag, zeroed_flag, atomic_flag, find_free_first_fit,
  align_size, area_flags, insert_used_vma,
}

abbrev pub max_cpu : ℕ
max_cpu = 32

abbrev pub selector_base : ℕ
selector_base = 6

-- The length of `GDT`.
abbrev pub gdt_entries : ℕ
gdt_entries = 6 + max_cpu * 2

-- The fields of `LimineSmpInfo` that are read.
pub record SmpInfo : Type 0 where
  pub processor_id : ℕ
  pub lapic_id : ℕ

pub record ThreadLocalInfo : Type 0 where
  pub self_ptr : Virtual
  pub tls_base : Virtual
  pub lapic_id : ℕ
  pub cpu_id : ℕ

-- `size_of::<ThreadLocalInfo>()`, two addresses and two words of 32 bits.
abbrev pub info_size : ℕ
info_size = 24

-- The size of the storage, for the size of the section of per-core data.
abbrev pub storage_size : ℕ → ℕ
storage_size per_cpu_size = per_cpu_size + info_size

module _ ⦃x : Addresses⦄ ⦃bits : BitFlags⦄ ⦃ranges : VirtualRanges⦄ where
  -- The structure that is written into the storage. FS and GS hold its address, by which
  -- `get_cpu_info` reads it.
  unfoldable pub allocate_thread_local_storage : ℕ → SmpInfo → Vmm → Outcome (ThreadLocalInfo × Vmm)
  allocate_thread_local_storage per_cpu_size info vmm = do
    (result, vmm) ← Vmm.allocate (storage_size per_cpu_size) (bits.union map_flag zeroed_flag) vmm
    elim result [
      | refused ↦ panicked no_local_storage
      | allocated range ↦ do
        tls_info ← x.virtual_add range.start per_cpu_size
        done (
          record {
            self_ptr = tls_info;
            tls_base = range.start;
            lapic_id = info.lapic_id;
            cpu_id = info.processor_id;
          },
          vmm,
        )
    ]

  -- `vmm::allocate` and the writes of `allocate_thread_local_storage`, in two parts: a free area is
  -- taken out of `FREE_VMA`, and it is put into `USED_VMA`. Each part has its own lock.
  unfoldable pub take_area : ℕ → Vmm → Outcome (VirtualArea × Vmm)
  take_area per_cpu_size vmm = do
    (found, free) ← find_free_first_fit (align_size (storage_size per_cpu_size)) vmm.free
    area ← or_panic found no_local_storage
    guard (not (bits.contains (bits.union map_flag zeroed_flag) atomic_flag)) not_implemented
    done (
      record area { flags = area_flags (bits.union map_flag zeroed_flag) },
      record vmm { free = free },
    )

  unfoldable pub use_area : ℕ → SmpInfo → VirtualArea → Vmm → Outcome (ThreadLocalInfo × Vmm)
  use_area per_cpu_size info area vmm = do
    tls_info ← x.virtual_add area.range.start per_cpu_size
    done (
      record {
        self_ptr = tls_info;
        tls_base = area.range.start;
        lapic_id = info.lapic_id;
        cpu_id = info.processor_id;
      },
      insert_used_vma area vmm,
    )

  -- `find` of the processor 0.
  unfoldable pub find_bsp : List SmpInfo → Option SmpInfo
  find_bsp [] = none
  find_bsp (c ∷ cs) = if c.processor_id == 0 then some c else find_bsp cs

  unfoldable pub bsp_setup : ℕ → List SmpInfo → Vmm → Outcome (ThreadLocalInfo × Vmm)
  bsp_setup per_cpu_size cpus vmm = do
    info ← or_panic (find_bsp cpus) unwrap_none
    allocate_thread_local_storage per_cpu_size info vmm

-- `current_id`, through `get_cpu_info`.
unfoldable pub current_id : ThreadLocalInfo → ℕ
current_id info = info.cpu_id

module _ ⦃gdt : SegmentTables gdt_entries⦄ where
  -- `setup` of src/arch/gdt.rs.
  unfoldable pub gdt_setup : gdt.Table → Outcome gdt.Table
  gdt_setup t = do
    t ← gdt.set_descriptor 0 null t
    t ← gdt.set_descriptor 1 kernel_code64 t
    t ← gdt.set_descriptor 2 kernel_data t
    t ← gdt.set_descriptor 3 user_code64 t
    gdt.set_descriptor 4 user_data t

  -- `install` of src/arch/tss.rs: the selector's index and the table.
  unfoldable pub install : ℕ → gdt.Table → Outcome (ℕ × gdt.Table)
  install id t = do
    let index = selector_base + id * 2
    guard (ltb index (2 ^ 16)) selector_too_large
    t ← gdt.set_descriptor index (tss id) t
    done (index, t)
