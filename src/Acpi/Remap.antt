-- ===== src/Acpi/Remap.antt =====
-- `remap_lapic`, and what an area without mapped pages and one mapped page of it are.
use silicium_rs.Base.{
  ℕ, ◌+◌, ◌-◌, ◌/◌, ◌%◌, ◌^◌, ◌<◌, ◌≤◌, ◌≡◌, ◌≢◌, ◌∙◌, ◌⊎◌, inl, inr, refl, ap, arith, true, none,
  some, done, eq→==,
}
use silicium_rs.Crates.Addresses.{Addresses, Virtual}
use silicium_rs.Crates.BitFlags.{BitFlags}
use silicium_rs.Crates.PageTables.{PageTables}
use silicium_rs.Crates.VirtualRanges.{VirtualRange, VirtualRanges}
use silicium_rs.Frame.{frame, new, from_u64}
use silicium_rs.Allocator.{Frames}
use silicium_rs.Paging.{MapError, ok, err, present, writable, translate}
use silicium_rs.Paging.Walk.{SamePage-of}
use silicium_rs.Paging.Space.{Typing, IsPaged}
use silicium_rs.Paging.Served.{Served, Served-refl}
use silicium_rs.Paging.Given.{map_given_outcome}
use silicium_rs.PageFault.{Kernel}
use silicium_rs.Current.{map_current, set_frames}
use silicium_rs.Vmm
use silicium_rs.Vmm.{
  Vmm, allocated, refused, vmalloc_start, vmalloc_end, align_size, area_flags, atomic_flag,
}
use silicium_rs.Vmm.Areas.{count_used, NoFit}
use silicium_rs.Vmm.FirstFit.{IsVmm}
use silicium_rs.Vmm.Allocate.{RangeTaken, Vmm_allocate_cases, align_size_lem}
use silicium_rs.Acpi.{device_flags, allocate_area, remap_lapic}

module _ ⦃x : Addresses⦄ ⦃bits : BitFlags⦄ ⦃pt : PageTables⦄ where
  pub device_flags-present : bits.contains device_flags present ≡ true
  device_flags-present =
      let p = pt.present_bit in
      let pw = bits.union present writable in
      let pwn = bits.union pw (2 ^ pt.no_execute_bit) in
      let pwnc = bits.union pwn (2 ^ pt.no_cache_bit) in
      ground (
        arith,
        bits.contains-union pwnc (2 ^ pt.write_through_bit) p,
        bits.contains-union pwn (2 ^ pt.no_cache_bit) p,
        bits.contains-union pw (2 ^ pt.no_execute_bit) p,
        bits.contains-union present writable p,
        bits.contains-bit p p,
        eq→== p p refl,
      )

  pub from_u64-eq : (a : ℕ) → a % 4096 ≡ 0 → a < 0x10_0000_0000_0000 → from_u64 a ≡ done (frame a)
  unfolding from_u64 new
  from_u64-eq a al b = ground (arith, x.physical_new-valid a b, x.is_page_aligned_lem a, al)

  -- One page of a frame that is given, in the kernel's active table.
  pub map_current_outcome :
      (pinned : ℕ) (ty : Typing) (at a : ℕ) (k : Kernel)
      → IsPaged pinned ty k.machine.frames
      → ty k.active ≡ some pt.page_map_level4
      → a ≢ 0
      → a % 4096 ≡ 0
      → a < 0x10_0000_0000_0000
      → (s : Frames) × (after : Typing) × Served pinned ty after k.machine.frames s
        × (((map_current at (frame a) device_flags k ≡ done (ok, set_frames s k))
              × ((b : Virtual)
                  → at / 4096 ≡ b / 4096
                  → translate k.active b s.memory ≡ done (some (a + b % 4096))))
            ⊎ ((e : MapError) × (map_current at (frame a) device_flags k
                  ≡ done (err e, set_frames s k))))
  unfolding map_current
  map_current_outcome pinned ty at a k v q n al b =
      elim (map_given_outcome pinned ty k.active at (frame a) device_flags k.machine.frames v q
        device_flags-present n al (omega arith)) [
          | inl (s, after, e, sv, t) ↦
              (s, after, sv, inl (rw e refl, λ c h. t c (SamePage-of at c h)))
          | inr (e, s, after, r, sv) ↦ (s, after, sv, inr (e, rw r refl))
        ]

module _ ⦃x : Addresses⦄ ⦃bits : BitFlags⦄ ⦃pt : PageTables⦄ ⦃ranges : VirtualRanges⦄ where
  -- An area of whole pages, or none; only the areas change.
  pub allocate_area_outcome :
      (size : ℕ) (k : Kernel)
      → IsVmm k.vmm
      → 0 < size
      → size + 0xFFF < 0x1_0000_0000_0000_0000
      → ((allocate_area size k ≡ done (refused, k)) × NoFit (align_size size) k.vmm.free)
        ⊎ ((r : VirtualRange) × (vmm : Vmm) × (allocate_area size k
              ≡ done (allocated r, record k { vmm = vmm }))
            × RangeTaken (align_size size) (area_flags 0) r k.vmm vmm
            × (Vmm.allocate size 0 k.vmm ≡ done (allocated r, vmm)))
  unfolding allocate_area
  allocate_area_outcome size k w pos fits = elim (Vmm_allocate_cases size 0 k.vmm w pos fits) [
    | inl (e, n) ↦ inl (rw e refl, n)
    | inr (inl (a, _)) ↦ absurd (ground (arith, a, bits.contains-empty 1))
    | inr (inr (r, vmm, e, t)) ↦ inr (r, vmm, rw e refl, t, e)
  ]

  -- What `remap_lapic` leaves at an address that it returns.
  pub record Remapped (base : ℕ) (k k' : Kernel) (v : Virtual) : Type 0 where
    pub from : vmalloc_start ≤ v
    pub up_to : v - base % 4096 + 4096 ≤ vmalloc_end
    pub was_free : count_used k.vmm.used v ≡ 0
    pub is_used : count_used k'.vmm.used v ≡ 1
    pub translates :
        (d : ℕ)
        → base % 4096 + d < 4096
        → translate k.active (v + d) k'.machine.frames.memory ≡ done (some (base + d))

  -- Why `remap_lapic` returns `None`: no free area has a page, and nothing has changed; or a page
  -- was allocated, `map_current` has refused to map it, and the page stays allocated.
  abbrev pub Unmapped : ℕ → Kernel → Kernel → Type 0
  Unmapped base k k' =
      ((k' ≡ k) × NoFit (align_size 4096) k.vmm.free)
      ⊎ ((r : VirtualRange) × (vmm : Vmm) × (why : MapError) × (Vmm.allocate 4096 0 k.vmm
            ≡ done (allocated r, vmm))
          × (map_current r.start (frame (base - base % 4096)) device_flags (record k { vmm = vmm })
              ≡ done (err why, k')))

  -- With well-formed page tables and areas, `remap_lapic` of a base from 4096 on and below 2^52
  -- never panics. It returns an address of the vmalloc space that was free and is used, at which,
  -- and at all addresses after it up to the end of the page, the active table translates to the
  -- base and the addresses after it; or it returns `None`, because no free area has a page, and
  -- nothing has changed, or because `map_current` has refused to map the page that was allocated.
  -- In all cases every translation below every root table is kept, and the page tables and the
  -- areas stay well-formed.
  pub remap_lapic-Remapped :
      (pinned : ℕ) (ty : Typing) (base : ℕ) (k : Kernel)
      → IsPaged pinned ty k.machine.frames
      → IsVmm k.vmm
      → ty k.active ≡ some pt.page_map_level4
      → 4096 ≤ base
      → base < 0x10_0000_0000_0000
      → (k' : Kernel) × (after : Typing) × Served pinned ty after k.machine.frames k'.machine.frames
        × IsVmm k'.vmm
        × (((remap_lapic base k ≡ done (none, k')) × Unmapped base k k')
            ⊎ ((v : Virtual) × (remap_lapic base k ≡ done (some v, k')) × Remapped base k k' v))
  unfolding remap_lapic
  remap_lapic-Remapped pinned ty base k v w q lo hi =
      let off = base % 4096 in
      elim (allocate_area_outcome 4096 k w (omega arith) (omega arith)) [
        | inl (e, n) ↦ (
          k,
          ty,
          Served-refl pinned ty k.machine.frames v,
          w,
          inl (rw (x.page_size_lem, e) refl, inl (refl, n)),
        )
        | inr (r, vmm, e, t, run) ↦
            let fr = from_u64-eq (base - off) (omega arith) (omega arith) in
            let (u, after, sv, o) =
              map_current_outcome pinned ty r.start (base - off) (record k { vmm = vmm }) v q
                (omega arith) (omega arith) (omega arith) in
            let (al, ge, lt) = align_size_lem 4096 (omega arith) in
            let add =
              x.virtual_add-high r.start off (omega (arith, t.from))
                (omega (arith, t.exact, t.up_to)) in
            let off_eq : base - (base - off) ≡ off = omega arith in
            let k' : Kernel = set_frames u (record k { vmm = vmm }) in
            elim o [
              | inl (m, into) ↦ (
                k',
                after,
                sv,
                t.valid,
                inr (
                  r.start + off,
                  ground (arith, x.page_size_lem, e, fr, m, off_eq, add),
                  record {
                    from = omega (arith, t.from);
                    up_to = omega (arith, t.exact, t.up_to, t.start_aligned);
                    was_free = t.was_free (r.start + off) (omega arith) (omega (arith, t.exact));
                    is_used = t.is_used (r.start + off) (omega arith) (omega (arith, t.exact));
                    translates = λ d h.
                        into (r.start + off + d) (omega (arith, t.start_aligned))
                        ∙ ap (λ (n : ℕ). done (some n)) (omega (arith, t.start_aligned));
                  },
                ),
              )
              | inr (why, m) ↦ (
                k',
                after,
                sv,
                t.valid,
                inl (ground (arith, x.page_size_lem, e, fr, m), inr (r, vmm, why, run, m)),
              )
            ]
      ]
