-- ===== src/Tests/RegionTests.antt =====
-- Regions of physical memory in the vmalloc space, whose pages share the tables of the other tests.
use mathlib.Core.Option.{some-injective}
use silicium_rs.Crates.Addresses.{Virtual}
use silicium_rs.Base.{
  Outcome, Option, sub64, get_elem?, false, ap, subst, done_unique, ℕ, ◌+◌, ◌*◌, ◌/◌, ◌<◌, ◌≤◌, ◌≡◌,
  ◌⊎◌, inl, inr, refl, arith, none, some, done, panicked, ◌∷◌, [], add64, map_refused,
  no_virtual_memory, unwrap_none, dec_lt,
}
use silicium_rs.Address.{phys_to_virt}
use silicium_rs.Frame.{frame, new, from_u64}
use silicium_rs.Allocator.{Memory, Frames, allocate, is_free}
use silicium_rs.Paging.{
  write, map, next_table, fetch_pte, creat_and_fetch_pte, ensure_entry, frame_to_map, kernel_zeroed,
}
use silicium_rs.Paging.Space.{Typing, IsPaged}
use silicium_rs.Paging.Walk.{Walk, Walk-SamePage, SamePage-of, fetch_pte_of_Walk}
use silicium_rs.Paging.Grow.{IsSpace-write}
use silicium_rs.Paging.Unmap.{IsPaged-memory}
use silicium_rs.Paging.Served.{Served}
use silicium_rs.Paging.Separate.{Separate}
use silicium_rs.PageFault.{Kernel}
use silicium_rs.Current.{TableRoot, map_current, clone}
use silicium_rs.FrameState.{FrameInfo}
use silicium_rs.Current.Clone.{IsIdentityMapped, Cloned, clone-Cloned}
use silicium_rs.Vmm
use silicium_rs.Vmm.{
  Vmm, new_area, virtual_range, find_free_first_fit, first_fit, split_area, align_size, insert_free,
  push_free, insert_used, insert_used_vma, vmalloc_end,
}
use silicium_rs.Vmm.FirstFit.{IsVmm}
use silicium_rs.Acpi.{
  PhysicalMapping, remap_lapic, map_physical_region, unmap_physical_region, map_pages,
  allocate_area,
}
use silicium_rs.Acpi.Remap.{Remapped, remap_lapic-Remapped}
use silicium_rs.Acpi.Region.{MappedRegion, map_physical_region-MappedRegion}
use silicium_rs.Acpi.Unregion.{Released, Released-map}
use silicium_rs.Tests.Bits.{bits}
use silicium_rs.Tests.Machine.{addresses}
use silicium_rs.Tests.Entries.{page_tables}
use silicium_rs.Tests.PagingTests.{root, words, tables, paged, paged-IsPaged, machine}
use silicium_rs.Tests.VmmTests.{ranges, later-IsVmm}
use silicium_rs.Tests.PageFaultTests.{running}

-- The root's entry for the vmalloc space leads to the tables that there are.
abbrev vmalloc_words : Memory
vmalloc_words = write words (root + 320 * 8) 0x10_1003

vmalloc_leads : next_table 0x10_1003 ≡ done (root + 0x1000)
unfolding next_table phys_to_virt add64
vmalloc_leads = refl

vmalloc-IsPaged : IsPaged 1 tables (record paged { memory = vmalloc_words })
vmalloc-IsPaged = IsPaged-memory 1 tables paged vmalloc_words paged-IsPaged (
    IsSpace-write tables words root 320 2 0x10_1003 (root + 0x1000) paged-IsPaged.space refl
      (omega arith) vmalloc_leads refl)

abbrev booted : Kernel
booted = record running {
  machine = record machine { frames = record paged { memory = vmalloc_words } };
}

abbrev lapic : Virtual
lapic = 0xFFFF_A000_0000_2020

remap_test : (k : Kernel) × (remap_lapic 0xFEE0_0020 booted ≡ done (some lapic, k))
unfolding remap_lapic map_current map creat_and_fetch_pte ensure_entry next_table phys_to_virt add64
    frame_to_map from_u64 new allocate_area Vmm.allocate find_free_first_fit first_fit split_area
    align_size insert_free push_free insert_used_vma insert_used
remap_test = (_, refl)

remap_lapic-Remapped_example : (k : Kernel) × Remapped 0xFEE0_0020 booted k lapic
remap_lapic-Remapped_example =
    let (k, after, sv, w, o) =
      remap_lapic-Remapped 1 tables 0xFEE0_0020 booted vmalloc-IsPaged later-IsVmm refl
        (omega arith) (omega arith) in
    elim o [
      | inl (e, _) ↦ absurd (some_result remap_test.1 e)
      | inr (v, e, r) ↦ (k, subst (Remapped 0xFEE0_0020 booted k) (same_result e remap_test.1) r)
    ]
  where
    some_result :
        {o : Outcome (Option Virtual × Kernel)} {v : Virtual} {k k' : Kernel}
        → o ≡ done (some v, k)
        → o ≡ done (none, k')
        → ⊥
    some_result p q = cc

    same_result :
        {o : Outcome (Option Virtual × Kernel)} {v w : Virtual} {k k' : Kernel}
        → o ≡ done (some v, k)
        → o ≡ done (some w, k')
        → v ≡ w
    same_result p q =
        some-injective _ _ (ap (λ (z : Option Virtual × Kernel). z.0) (done_unique p q))

map_physical_region-MappedRegion_example :
    (map_physical_region 0xb_8010 5000 booted ≡ panicked no_virtual_memory)
    ⊎ (map_physical_region 0xb_8010 5000 booted ≡ panicked map_refused)
    ⊎ ((r : PhysicalMapping) × (k : Kernel) × (after : Typing) × (map_physical_region 0xb_8010 5000
            booted
          ≡ done (r, k))
        × Served 1 tables after booted.machine.frames k.machine.frames
        × IsVmm k.vmm
        × MappedRegion 0xb_8010 5000 booted k r)
map_physical_region-MappedRegion_example =
    map_physical_region-MappedRegion 1 tables 0xb_8010 5000 booted vmalloc-IsPaged later-IsVmm refl
      (omega arith) (omega arith)

-- Two pages, at the next free address of the vmalloc space.
abbrev region : PhysicalMapping
region = record {
  physical_start = 0xb_8010;
  virtual_start = 0xFFFF_A000_0000_2010;
  region_length = 5000;
  mapped_length = 8176;
}

abbrev region_words : Memory
region_words =
    write (write vmalloc_words (root + 0x3010) 0x8000_0000_000b_801b) (root + 0x3018)
      0x8000_0000_000b_901b

abbrev two_areas : Vmm
two_areas = record {
  free =
      (0xFFF_FFFF_C000, new_area (virtual_range 0xFFFF_A000_0000_4000 vmalloc_end) 0 ∷ [])
      ∷ (0xFFF_FFFF_E000, [])
      ∷ (0x1000_0000_0000, [])
      ∷ [];
  used =
      (
        0xFFFF_A000_0000_0000,
        new_area (virtual_range 0xFFFF_A000_0000_0000 0xFFFF_A000_0000_2000) 8,
      )
      ∷ (
        0xFFFF_A000_0000_2000,
        new_area (virtual_range 0xFFFF_A000_0000_2000 0xFFFF_A000_0000_4000) 0,
      )
      ∷ [];
}

abbrev with_region : Kernel
with_region = record running {
  machine = record machine { frames = record paged { memory = region_words } };
  vmm = two_areas;
}

region_test : map_physical_region 0xb_8010 5000 booted ≡ done (region, with_region)
unfolding map_physical_region map_pages map_current map creat_and_fetch_pte ensure_entry next_table
    phys_to_virt add64 frame_to_map from_u64 new allocate_area Vmm.allocate find_free_first_fit
    first_fit split_area align_size insert_free push_free insert_used_vma insert_used sub64
region_test = refl

entry_of_page :
    (a e at e' : ℕ)
    → fetch_pte 3 root at region_words ≡ done (some e')
    → a / 4096 ≡ at / 4096
    → Walk region_words a 3 root e
    → e ≡ e'
entry_of_page a e at e' f p w = ground (
  arith,
  fetch_pte_of_Walk region_words at (Walk-SamePage region_words a at (SamePage-of a at p) w),
  f,
)

first_page : fetch_pte 3 root 0xFFFF_A000_0000_2000 region_words ≡ done (some (root + 0x3010))
unfolding fetch_pte next_table phys_to_virt add64
first_page = refl

second_page : fetch_pte 3 root 0xFFFF_A000_0000_3000 region_words ≡ done (some (root + 0x3018))
unfolding fetch_pte next_table phys_to_virt add64
second_page = refl

page_entry :
    (a e : ℕ)
    → 0xFFFF_A000_0000_2000 ≤ a
    → a < 0xFFFF_A000_0000_4000
    → Walk region_words a 3 root e
    → ((a / 4096 ≡ 0xF_FFFA_0000_0002) × (e ≡ root + 0x3010))
      ⊎ ((a / 4096 ≡ 0xF_FFFA_0000_0003) × (e ≡ root + 0x3018))
page_entry a e l h w = elim (dec_lt a 0xFFFF_A000_0000_3000) [
  | yes lt ↦
      let p : a / 4096 ≡ 0xF_FFFA_0000_0002 = omega arith in
      inl (p, entry_of_page a e 0xFFFF_A000_0000_2000 (root + 0x3010) first_page p w)
  | no ge ↦
      let p : a / 4096 ≡ 0xF_FFFA_0000_0003 = omega arith in
      inr (p, entry_of_page a e 0xFFFF_A000_0000_3000 (root + 0x3018) second_page p w)
]

region-Separate : Separate 0xFFFF_A000_0000_2000 0xFFFF_A000_0000_4000 root region_words
region-Separate a b e la ha lb hb u w =
    ground (arith, page_entry a e la ha u, page_entry b e lb hb w)

Released-map_example :
    (k : Kernel) × (unmap_physical_region region with_region ≡ done k)
    × Released 5000 region booted with_region k
Released-map_example =
    Released-map 1 tables 0xb_8010 5000 booted with_region region vmalloc-IsPaged later-IsVmm refl
      (omega arith) (omega arith) region_test region-Separate

abbrev root_table : TableRoot
root_table = record { addr = root; frame = frame 0x10_0000 }

reach : IsIdentityMapped
reach = λ a lo hi. refl

first_taken : (info : FrameInfo) → get_elem? paged.array 0 ≡ some info → is_free info ≡ false
first_taken info g = ground (arith, g)

clone-Cloned_example :
    ((allocate kernel_zeroed paged ≡ done (none, paged))
      × (clone root_table paged ≡ panicked unwrap_none))
    ⊎ ((copy : TableRoot) × (s : Frames) × (after : Typing) × (clone root_table paged
          ≡ done (copy, s))
        × Cloned 1 tables after root_table copy paged s)
clone-Cloned_example =
    clone-Cloned 1 tables root_table paged paged-IsPaged refl reach (omega arith) (omega arith)
      (omega arith) first_taken refl
