-- ===== src/Acpi/Unregion.antt =====
-- `unmap_physical_region`: every page of the region is unmapped, and its area is free again.
use silicium_rs.Base.{
  ℕ, zero, suc, ◌+◌, ◌-◌, ◌*◌, ◌/◌, ◌%◌, ◌<◌, ◌≤◌, ◌≡◌, ◌∙◌, ◌⊎◌, inl, inr, refl, subst, arith,
  some, done, dec_lt, List, done_unique,
}
use silicium_rs.Crates.Addresses.{Addresses, Virtual}
use silicium_rs.Crates.BitFlags.{BitFlags}
use silicium_rs.Crates.PageTables.{PageTables}
use silicium_rs.Crates.VirtualRanges.{VirtualRange, VirtualRanges, pages_from}
use silicium_rs.Allocator.{Memory}
use silicium_rs.Paging.{Machine, Cpu, translate, shootdown}
use silicium_rs.Paging.Space.{Typing, IsPaged}
use silicium_rs.Paging.Unmap.{with_memory}
use silicium_rs.Paging.Separate.{Separate, IsUnmapped, unmap-Cleared}
use silicium_rs.PageFault.{Kernel}
use silicium_rs.Current.{unmap_current, set_machine}
use silicium_rs.Acpi.Region.{translate_at, MappedRegion, map_physical_region-MappedRegion}
use silicium_rs.Vmm
use silicium_rs.Vmm.{allocated, virtual_range, deallocate}
use silicium_rs.Vmm.Deallocate.{Vmm_deallocate-allocate}
use silicium_rs.Vmm.FirstFit.{IsVmm}
use silicium_rs.Acpi.{map_physical_region, PhysicalMapping, unmap_all, unmap_physical_region}

-- As many shootdowns as pages.
abbrev pub shootdowns : ℕ → Cpu → Cpu
shootdowns zero c = c
shootdowns (suc n) c = shootdowns n (shootdown c)

module _ ⦃x : Addresses⦄ ⦃bits : BitFlags⦄ ⦃pt : PageTables⦄ where
  -- Each of `n` pages has a translation.
  abbrev pub AllMapped : Virtual → Virtual → ℕ → Memory → Type 0
  AllMapped table at n m =
      (j : ℕ) → j < n → (p : ℕ) × (translate table (at + j * 4096) m ≡ done (some p))

  pub record Unmapped (lo hi table at : Virtual) (n : ℕ) (m m' : Memory) : Type 0 where
    pub gone : (b : Virtual) → at ≤ b → b < at + n * 4096 → IsUnmapped table b m'
    pub kept :
        (b : Virtual) (q : ℕ)
        → lo ≤ b
        → b < hi
        → (b < at) ⊎ (at + n * 4096 ≤ b)
        → translate table b m ≡ done (some q)
        → translate table b m' ≡ done (some q)
    pub still_gone : (b : Virtual) → IsUnmapped table b m → IsUnmapped table b m'

  abbrev pub after_unmaps : ℕ → Memory → Kernel → Kernel
  after_unmaps n m k = set_machine (with_memory k.machine m (shootdowns n k.machine.cpu)) k

  pub unmap_all_total :
      (n : ℕ) (pinned : ℕ) (ty : Typing) (lo hi at : Virtual) (k : Kernel)
      → IsPaged pinned ty k.machine.frames
      → ty k.active ≡ some pt.page_map_level4
      → lo ≤ at
      → at + n * 4096 ≤ hi
      → at % 4096 ≡ 0
      → Separate lo hi k.active k.machine.frames.memory
      → AllMapped k.active at n k.machine.frames.memory
      → (m : Memory) × (unmap_all (pages_from at n) k ≡ done (after_unmaps n m k))
        × Unmapped lo hi k.active at n k.machine.frames.memory m
        × IsPaged pinned ty (record k.machine.frames { memory = m })
  unfolding unmap_all unmap_current
  unmap_all_total zero pinned ty lo hi at k v q l h al sep t = (
    k.machine.frames.memory,
    refl,
    record { gone = λ b p r. absurd (omega arith); kept = λ b p _ _ _ h. h; still_gone = λ b h. h },
    v,
  )
  unmap_all_total (suc n) pinned ty lo hi at k v q l h al sep t =
      let table = k.active in
      let m = k.machine.frames.memory in
      let (p, tr) = t 0 (omega arith) in
      let (m', u, c, v') =
        unmap-Cleared pinned ty lo hi table at p k.machine v q l (omega arith) sep
          (translate_at table m (omega arith) refl tr) in
      let k' : Kernel = after_unmaps 1 m' k in
      let mapped : AllMapped table (at + 4096) n m' = λ j lt.
        let (p', tr') = t (suc j) (omega arith) in
        (
          p',
          c.kept (at + 4096 + j * 4096) p' (omega arith) (omega arith) (λ e. absurd (omega arith))
              (translate_at table m (omega arith) refl tr'),
        ) in
      let (last, run, d, w) =
        unmap_all_total n pinned ty lo hi (at + 4096) k' v' q (omega arith) (omega arith)
          (omega arith) c.separate mapped in
      (
        last,
        rw u run,
        record {
          gone = λ b lb hb. elim (dec_lt b (at + 4096)) [
            | yes lt ↦ d.still_gone b (λ r e. ground (arith, c.gone b (omega arith), e))
            | no ge ↦ d.gone b (omega arith) (omega arith)
          ];
          kept = λ b r lb hb out e.
              d.kept b r lb hb (ground arith) (c.kept b r lb hb (ground arith) e);
          still_gone = λ b e. d.still_gone b (c.still_gone b e);
        },
        w,
      )

module _ ⦃x : Addresses⦄ ⦃bits : BitFlags⦄ ⦃pt : PageTables⦄ ⦃ranges : VirtualRanges⦄ where
  -- What is left of a region of `size` bytes whose mapping is given up, in the state `k''`, where
  -- `k'` has the mapping and `k` is from before it.
  pub record Released (size : ℕ) (r : PhysicalMapping) (k k' k'' : Kernel) : Type 0 where
    pub used : k''.vmm.used ≡ k.vmm.used
    pub valid : IsVmm k''.vmm
    pub gone :
        (b : Virtual)
        → r.virtual_start / 4096 ≤ b / 4096
        → b / 4096 < r.virtual_start / 4096 + (size + 4095) / 4096
        → IsUnmapped k'.active b k''.machine.frames.memory
    pub left :
        (b : Virtual) (p : ℕ)
        → r.virtual_start / 4096 + (size + 4095) / 4096 ≤ b / 4096
        → b / 4096 ≤ r.virtual_start / 4096 + size / 4096
        → translate k'.active b k'.machine.frames.memory ≡ done (some p)
        → translate k'.active b k''.machine.frames.memory ≡ done (some p)

  -- Only the start of the range that is deallocated matters.
  deallocate_start :
      (table : Virtual) (r r' : VirtualRange) (s : Vmm.Vmm) (m : Machine)
      → r.start ≡ r'.start
      → Vmm.deallocate table r s m ≡ Vmm.deallocate table r' s m
  unfolding deallocate
  deallocate_start table r r' s m e = rw e refl

  release_run :
      (r : PhysicalMapping) (a last end : Virtual) (ps : List Virtual) (k k' : Kernel) (t : Vmm.Vmm)
      (mm : Machine)
      → x.virtual_new r.virtual_start ≡ done r.virtual_start
      → x.page_align_down r.virtual_start ≡ a
      → x.virtual_add a r.region_length ≡ done last
      → x.page_align_up last ≡ end
      → ranges.pages (virtual_range a end) ≡ ps
      → unmap_all ps k ≡ done k'
      → deallocate k'.active (virtual_range a end) k'.vmm k'.machine ≡ done (t, mm)
      → unmap_physical_region r k ≡ done (set_machine mm (record k' { vmm = t }))
  unfolding unmap_physical_region
  release_run r a last end ps k k' t mm p1 p2 p3 p4 p5 p6 p7 = rw (p1, p2, p3, p4, p5, p6, p7) refl

  released :
      (pinned : ℕ) (ty : Typing) (phys size : ℕ) (k k' : Kernel) (r : PhysicalMapping)
      → IsPaged pinned ty k'.machine.frames
      → IsVmm k.vmm
      → ty k'.active ≡ some pt.page_map_level4
      → phys + size + 4096 ≤ 0x10_0000_0000_0000
      → MappedRegion phys size k k' r
      → Separate
          (r.virtual_start / 4096 * 4096)
          (r.virtual_start / 4096 * 4096 + size / 4096 * 4096 + 4096)
          k'.active
          k'.machine.frames.memory
      → (k'' : Kernel) × (unmap_physical_region r k' ≡ done k'') × Released size r k k' k''
  released pinned ty phys size k k' r v w q hi d sep =
      let (range, alloc, al, vs) = d.area in
      let n = (size + 4095) / 4096 in
      let a = r.virtual_start / 4096 * 4096 in
      let table = k'.active in
      let m = k'.machine.frames.memory in
      let a_eq : a ≡ range.start = omega arith in
      let valid =
        x.virtual_new-high r.virtual_start (omega (arith, d.from))
          (omega (arith, d.from, d.up_to, d.mapped)) in
      let down = x.page_align_down_lem r.virtual_start in
      let add =
        x.virtual_add-high a r.region_length (omega (arith, d.from))
          (omega (arith, d.from, d.up_to, d.mapped, d.region)) in
      let up =
        x.page_align_up_lem (a + r.region_length)
          (omega (arith, d.from, d.up_to, d.mapped, d.region)) in
      let end = (a + r.region_length + 4095) / 4096 * 4096 in
      let mapped : AllMapped table a n m = λ j lt. (
        phys - phys % 4096 + j * 4096,
        rw d.active (translate_at k.active m (omega arith) refl (d.pages (j * 4096) (omega arith))),
      ) in
      let (m', run, un, v') =
        unmap_all_total n pinned ty a (a + size / 4096 * 4096 + 4096) a k' v q (omega arith)
          (omega arith) (omega arith) sep mapped in
      let pages = ranges.pages_lem (virtual_range a end) n (omega (arith, d.region)) in
      let (t, free, used, ok) =
        Vmm_deallocate-allocate (size + (4096 - size % 4096)) 0 k'.active range k.vmm k'.vmm
          (after_unmaps n m' k').machine w (omega arith) (omega arith) (bits.contains-empty 2)
          alloc in
      (
        record (after_unmaps n m' k') { vmm = t },
        release_run r a (a + r.region_length) end (pages_from a n) k' (after_unmaps n m' k') t
            (after_unmaps n m' k').machine valid down add up pages run
            (deallocate_start table (virtual_range a end) range k'.vmm
                (after_unmaps n m' k').machine a_eq
              ∙ free),
        record {
          used = used;
          valid = ok;
          gone = λ b l h. un.gone b (omega arith) (omega arith);
          left = λ b p l h e. un.kept b p (omega arith) (omega arith) (inr (omega arith)) e;
        },
      )

  -- With well-formed page tables and areas, for a region from the address 4096 on whose end is at
  -- least 4096 below 2^52: if `map_physical_region` returns a mapping and addresses of different
  -- pages of it have different entries, `unmap_physical_region` of the mapping returns. The used
  -- areas are those before the mapping and the areas are well-formed. No address in the first
  -- `(size + 4095) / 4096` pages has a translation. A page after these, which is mapped if the size
  -- is a multiple of 4096, keeps its translations.
  pub Released-map :
      (pinned : ℕ) (ty : Typing) (phys size : ℕ) (k k' : Kernel) (r : PhysicalMapping)
      → IsPaged pinned ty k.machine.frames
      → IsVmm k.vmm
      → ty k.active ≡ some pt.page_map_level4
      → 4096 ≤ phys
      → phys + size + 4096 ≤ 0x10_0000_0000_0000
      → map_physical_region phys size k ≡ done (r, k')
      → Separate
          (r.virtual_start / 4096 * 4096)
          (r.virtual_start / 4096 * 4096 + size / 4096 * 4096 + 4096)
          k'.active
          k'.machine.frames.memory
      → (k'' : Kernel) × (unmap_physical_region r k' ≡ done k'') × Released size r k k' k''
  Released-map pinned ty phys size k k' r v w q lo hi run sep =
      elim (map_physical_region-MappedRegion pinned ty phys size k v w q lo hi) [
        | inl e ↦ cc
        | inr (inl e) ↦ cc
        | inr (inr (r0, k0, after, e, sv, _, d)) ↦
            let (paged, d') =
              subst
                (λ (z : PhysicalMapping × Kernel).
                  IsPaged pinned after z.1.machine.frames × MappedRegion phys size k z.1 z.0)
                (done_unique e run) (sv.paged, d) in
            released pinned after phys size k k' r paged w
              (rw d'.active (sv.extends k.active pt.page_map_level4 q)) hi d' sep
      ]
