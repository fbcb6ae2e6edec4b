-- ===== src/Acpi/Region.antt =====
-- `map_physical_region`: the pages that it maps, and the bytes of the region that they hold.
use silicium_rs.Base.{
  ℕ, zero, suc, ◌+◌, ◌-◌, ◌*◌, ◌/◌, ◌%◌, ◌<◌, ◌≤◌, ◌≡◌, ◌≢◌, ◌⊎◌, inl, inr, refl, sym, arith, some,
  done, panicked, map_refused, no_virtual_memory, dec_lt, ap, ◌∙◌, add64, add64-eq, sub64, sub64-eq,
}
use silicium_rs.Crates.Addresses.{Addresses, Virtual}
use silicium_rs.Crates.BitFlags.{BitFlags}
use silicium_rs.Crates.PageTables.{PageTables}
use silicium_rs.Crates.VirtualRanges.{VirtualRange, VirtualRanges}
use silicium_rs.Allocator.{Memory, Frames}
use silicium_rs.Paging.{translate}
use silicium_rs.Paging.Space.{Typing, IsPaged}
use silicium_rs.Paging.Served.{Served, Served-refl, Served-trans}
use silicium_rs.PageFault.{Kernel}
use silicium_rs.Current.{set_frames}
use silicium_rs.Vmm
use silicium_rs.Vmm.{Vmm, allocated, refused, vmalloc_start, vmalloc_end, align_size, area_flags}
use silicium_rs.Vmm.FirstFit.{IsVmm}
use silicium_rs.Vmm.Allocate.{align_size_lem}
use silicium_rs.Acpi.{PhysicalMapping, map_pages, map_physical_region}
use silicium_rs.Acpi.Remap.{from_u64-eq, map_current_outcome, allocate_area_outcome}

module _ ⦃x : Addresses⦄ ⦃bits : BitFlags⦄ ⦃pt : PageTables⦄ where
  -- `n` pages from a virtual address on translate to those from a physical address on.
  abbrev pub Contiguous : Virtual → Virtual → ℕ → ℕ → Memory → Type 0
  Contiguous table at a len m = (d : ℕ) → d < len → translate table (at + d) m ≡ done (some (a + d))

  -- The same translation, with the two addresses written differently.
  pub translate_at :
      (table : Virtual) {a b p q : ℕ} (m : Memory)
      → a ≡ b
      → p ≡ q
      → translate table a m ≡ done (some p)
      → translate table b m ≡ done (some q)
  translate_at table {a} {b} {p} {q} m e f h = rw (sym e, sym f) h

  pub map_pages_outcome :
      (n : ℕ) (pinned : ℕ) (ty : Typing) (virt i base : ℕ) (k : Kernel)
      → IsPaged pinned ty k.machine.frames
      → ty k.active ≡ some pt.page_map_level4
      → virt % 4096 ≡ 0
      → base % 4096 ≡ 0
      → i % 4096 ≡ 0
      → i ≢ 0
      → base ≤ i
      → vmalloc_start ≤ virt
      → virt + (i - base) + n * 4096 ≤ vmalloc_end
      → i + n * 4096 ≤ 0x10_0000_0000_0000
      → (map_pages n virt i base k ≡ panicked map_refused)
        ⊎ ((s : Frames) × (after : Typing) × (map_pages n virt i base k ≡ done (set_frames s k))
            × Served pinned ty after k.machine.frames s
            × Contiguous k.active (virt + (i - base)) i (n * 4096) s.memory)
  unfolding map_pages
  map_pages_outcome zero pinned ty virt i base k v q va ba ia ne le lo hi ph = inr (
    k.machine.frames,
    ty,
    refl,
    Served-refl pinned ty k.machine.frames v,
    λ d h. absurd (omega arith),
  )
  map_pages_outcome (suc n) pinned ty virt i base k v q va ba ia ne le lo hi ph =
      let at = virt + (i - base) in
      let add = x.virtual_add-high virt (i - base) (omega (arith, lo)) (omega arith) in
      let fr = from_u64-eq i ia (omega arith) in
      let (s, after, sv, o) = map_current_outcome pinned ty at i k v q ne ia (omega arith) in
      elim o [
        | inr (why, m) ↦ inl (ground (arith, add, fr, m))
        | inl (m, into) ↦
            let k' : Kernel = set_frames s k in
            let rest =
              map_pages_outcome n pinned after virt (i + 4096) base k' sv.paged
                (sv.extends k.active pt.page_map_level4 q) va ba (omega arith) (omega arith)
                (omega arith) lo (omega arith) (omega arith) in
            elim rest [
              | inl e ↦ inl (ground (arith, add, fr, m, x.page_size_lem, e))
              | inr (u, last, e, sv', c) ↦ inr (
                u,
                last,
                ground (arith, add, fr, m, x.page_size_lem, e),
                Served-trans pinned ty after last k.machine.frames s u sv sv',
                λ d h. elim (dec_lt d 4096) [
                  | yes lt ↦
                      sv'.kept k.active (at + d) (i + d) (sv.extends k.active pt.page_map_level4 q)
                        (translate_at k.active s.memory refl (omega arith)
                          (into (at + d) (omega arith)))
                  | no ge ↦
                      translate_at k.active u.memory (omega arith) (omega arith)
                        (c (d - 4096) (omega arith))
                ],
              )
            ]
      ]

module _ ⦃x : Addresses⦄ ⦃bits : BitFlags⦄ ⦃pt : PageTables⦄ ⦃ranges : VirtualRanges⦄ where
  -- The region that `map_physical_region` describes.
  pub record MappedRegion (phys size : ℕ) (k k' : Kernel) (r : PhysicalMapping) : Type 0 where
    pub physical : r.physical_start ≡ phys
    pub region : r.region_length ≡ size
    pub mapped : r.mapped_length + phys % 4096 ≡ size / 4096 * 4096 + 4096
    pub from : vmalloc_start ≤ r.virtual_start
    pub up_to : r.virtual_start + r.mapped_length ≤ vmalloc_end
    pub offset : r.virtual_start % 4096 ≡ phys % 4096
    pub active : k'.active ≡ k.active
    pub area :
        (range : VirtualRange) × (Vmm.allocate (size + (4096 - size % 4096)) 0 k.vmm
          ≡ done (allocated range, k'.vmm))
        × (range.start % 4096 ≡ 0)
        × (r.virtual_start ≡ range.start + phys % 4096)
    pub pages :
        Contiguous k.active
          (r.virtual_start - phys % 4096)
          (phys - phys % 4096)
          (size + (4096 - size % 4096))
          k'.machine.frames.memory
    pub translates :
        Contiguous k.active r.virtual_start phys r.mapped_length k'.machine.frames.memory

  -- With well-formed page tables and areas, for a region from the address 4096 on whose end is at
  -- least 4096 below 2^52, `map_physical_region` panics because the vmalloc space has no area or
  -- because a page cannot be mapped, or it returns a mapping of the region. Then
  -- `size + (4096 - size % 4096) - phys % 4096` bytes from its virtual start on, which are addresses
  -- of the vmalloc space, translate to the physical addresses from `phys` on; every translation below
  -- every root table is kept, and the page tables and the areas are well-formed.
  pub map_physical_region-MappedRegion :
      (pinned : ℕ) (ty : Typing) (phys size : ℕ) (k : Kernel)
      → IsPaged pinned ty k.machine.frames
      → IsVmm k.vmm
      → ty k.active ≡ some pt.page_map_level4
      → 4096 ≤ phys
      → phys + size + 4096 ≤ 0x10_0000_0000_0000
      → (map_physical_region phys size k ≡ panicked no_virtual_memory)
        ⊎ (map_physical_region phys size k ≡ panicked map_refused)
        ⊎ ((r : PhysicalMapping) × (k' : Kernel) × (after : Typing) × (map_physical_region phys size
                k
              ≡ done (r, k'))
            × Served pinned ty after k.machine.frames k'.machine.frames
            × IsVmm k'.vmm
            × MappedRegion phys size k k' r)
  unfolding map_physical_region
  map_physical_region-MappedRegion pinned ty phys size k v w q lo hi =
      let whole = size + (4096 - size % 4096) in
      let off = phys % 4096 in
      let base = phys - off in
      let wsize : add64 size (4096 - size % 4096) ≡ whole =
        add64-eq size (4096 - size % 4096) (omega arith) in
      let wend : add64 base whole - base ≡ whole =
        ap (λ (c : ℕ). c - base) (add64-eq base whole (omega arith)) ∙ omega arith in
      let wlen : sub64 whole off ≡ whole - off = sub64-eq whole off (omega arith) (omega arith) in
      elim (allocate_area_outcome whole k w (omega arith) (omega arith)) [
        | inl (e, _) ↦ inl (rw (x.page_size_lem, wsize, e) refl)
        | inr (r, vmm, e, t, alloc) ↦
            let (al, ge, lt) = align_size_lem whole (omega arith) in
            let k1 : Kernel = record k { vmm = vmm } in
            let n_eq : (whole + 4095) / 4096 * 4096 ≡ whole = omega arith in
            let off_eq : phys - base ≡ off = omega arith in
            let add =
              x.virtual_add-high r.start off (omega (arith, t.from))
                (omega (arith, t.exact, t.up_to)) in
            elim (map_pages_outcome ((whole + 4095) / 4096) pinned ty r.start base base k1 v q
              t.start_aligned (omega arith) (omega arith) (omega arith) (omega arith) t.from
              (omega (arith, t.exact, t.up_to)) (omega arith)) [
                | inl m ↦ inr (
                    inl
                      (rw (x.page_size_lem, wsize, e) (rw (x.page_size_lem, wsize, wend, m) refl)))
                | inr (s, after, m, sv, c) ↦ inr (
                    inr (
                      record {
                        physical_start = base + off;
                        virtual_start = r.start + off;
                        region_length = size;
                        mapped_length = whole - off;
                      },
                      set_frames s k1,
                      after,
                      rw (x.page_size_lem, wsize, e)
                          (rw (x.page_size_lem, wsize, wend, m) (rw (off_eq, add, wlen) refl)),
                      sv,
                      t.valid,
                      record {
                        physical = omega arith;
                        region = refl;
                        mapped = omega arith;
                        from = omega (arith, t.from);
                        up_to = omega (arith, t.exact, t.up_to);
                        offset = omega (arith, t.start_aligned);
                        active = refl;
                        area = (r, alloc, t.start_aligned, refl);
                        pages = λ d h.
                            translate_at k.active s.memory (omega arith) refl (c d (omega arith));
                        translates = λ d h.
                            translate_at k.active s.memory (omega arith) (omega arith)
                              (c (off + d) (omega arith));
                      },
                    ))
              ]
      ]
