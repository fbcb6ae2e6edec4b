-- ===== src/Acpi.antt =====
-- src/arch/acpi.rs: regions of physical memory that are mapped into the vmalloc space.
pub mod Remap
pub mod Region
pub mod Unregion
use silicium_rs.Base.{
  ℕ, zero, suc, ◌+◌, ◌-◌, ◌*◌, ◌/◌, ◌%◌, ◌^◌, Bool, Option, none, some, List, [], ◌∷◌, Outcome,
  done, panicked, ◌>>=◌, ◌>>◌, guard, or_panic, unwrap_none, map_refused, no_virtual_memory, add64,
  sub64,
}
use silicium_rs.Crates.Addresses.{Addresses, Physical, Virtual}
use silicium_rs.Crates.BitFlags.{BitFlags}
use silicium_rs.Crates.PageTables.{PageTables}
use silicium_rs.Crates.VirtualRanges.{VirtualRange, VirtualRanges}
use silicium_rs.Frame.{from_u64}
use silicium_rs.Paging.{MapResult, ok, err, present, writable}
use silicium_rs.PageFault.{Kernel}
use silicium_rs.Current.{map_current, unmap_current, set_machine}
use silicium_rs.Vmm
use silicium_rs.Vmm.{Vmm, AllocationResult, allocated, refused, virtual_range}

-- The fields of `acpi::PhysicalMapping`.
pub record PhysicalMapping : Type 0 where
  pub physical_start : ℕ
  pub virtual_start : Virtual
  pub region_length : ℕ
  pub mapped_length : ℕ

module _ ⦃x : Addresses⦄ ⦃bits : BitFlags⦄ ⦃pt : PageTables⦄ where
  abbrev pub device_flags : ℕ
  device_flags =
      bits.union
        (bits.union (bits.union (bits.union present writable) (2 ^ pt.no_execute_bit))
          (2 ^ pt.no_cache_bit))
        (2 ^ pt.write_through_bit)

  -- The loop of `map_physical_region` over `n` pages, from the physical address `i` on, which is
  -- `done_size` bytes after the start of the region.
  unfoldable pub map_pages : ℕ → Virtual → ℕ → ℕ → Kernel → Outcome Kernel
  map_pages zero virt i aligned_phys k = done k
  map_pages (suc n) virt i aligned_phys k = do
    at ← x.virtual_add virt (i - aligned_phys)
    frame ← from_u64 i
    (result, k) ← map_current at frame device_flags k
    elim result [
      | err _ ↦ panicked map_refused
      | ok ↦ map_pages n virt (i + x.page_size) aligned_phys k
    ]

  -- The loop of `unmap_physical_region`.
  unfoldable pub unmap_all : List Virtual → Kernel → Outcome Kernel
  unmap_all [] k = done k
  unmap_all (i ∷ is) k = do
    (target, k) ← unmap_current i k
    or_panic target unwrap_none >>= λ _. unmap_all is k

module _ ⦃x : Addresses⦄ ⦃bits : BitFlags⦄ ⦃pt : PageTables⦄ ⦃ranges : VirtualRanges⦄ where
  -- `vmm::allocate` with no flags.
  unfoldable pub allocate_area : ℕ → Kernel → Outcome (AllocationResult × Kernel)
  allocate_area size k = do
    (result, vmm) ← Vmm.allocate size 0 k.vmm
    done (result, record k { vmm = vmm })

  unfoldable pub remap_lapic : ℕ → Kernel → Outcome (Option Virtual × Kernel)
  remap_lapic base k = do
    let aligned_base = base - base % x.page_size
    let offset = base - aligned_base
    (area, k) ← allocate_area x.page_size k
    elim area [
      | refused ↦ done (none, k)
      | allocated range ↦ do
        frame ← from_u64 aligned_base
        (result, k) ← map_current range.start frame device_flags k
        elim result [
          | err _ ↦ done (none, k)
          | ok ↦ do virt ← x.virtual_add range.start offset; done (some virt, k)
        ]
    ]

  -- The addresses from a start below an end, a page apart, are `(end - start + 4095) / 4096`,
  -- and none where the end has wrapped around.
  unfoldable pub map_physical_region : ℕ → ℕ → Kernel → Outcome (PhysicalMapping × Kernel)
  map_physical_region phys size k = do
    let aligned_size = add64 size (x.page_size - size % x.page_size)
    let aligned_phys = phys - phys % x.page_size
    let offset = phys - aligned_phys
    (area, k) ← allocate_area aligned_size k
    elim area [
      | refused ↦ panicked no_virtual_memory
      | allocated range ↦ do
        let virt = range.start
        k ←
            map_pages
              ((add64 aligned_phys aligned_size - aligned_phys + (x.page_size - 1)) / x.page_size)
              virt aligned_phys aligned_phys k
        start ← x.virtual_add virt offset
        done (
          record {
            physical_start = aligned_phys + offset;
            virtual_start = start;
            region_length = size;
            mapped_length = sub64 aligned_size offset;
          },
          k,
        )
    ]

  unfoldable pub unmap_physical_region : PhysicalMapping → Kernel → Outcome Kernel
  unmap_physical_region mapping k = do
    virtual ← x.virtual_new mapping.virtual_start
    let start = x.page_align_down virtual
    last ← x.virtual_add start mapping.region_length
    let end = x.page_align_up last
    k ← unmap_all (ranges.pages (virtual_range start end)) k
    (vmm, machine) ← Vmm.deallocate k.active (virtual_range start end) k.vmm k.machine
    done (set_machine machine (record k { vmm = vmm }))
