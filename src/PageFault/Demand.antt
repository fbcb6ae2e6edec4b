-- ===== src/PageFault/Demand.antt =====
-- Demand paging: the heap, the vmalloc space, and which of them an address belongs to.
use mathlib.Core.Option.{some-injective}
use silicium_rs.Base.{
  suc, ◌≤◌, ◌<◌, ◌*◌, ◌/◌, [], ◌∷◌, get_elem?, ◌∙◌, ap, sym, subst, ℕ, ◌^◌, ◌≡◌, refl, ◌⊎◌, true,
  some, arith, done, inl, inr, Bool-cases, Option-cases, Outcome, ltb, leb, ◌&&◌, if◌then◌else◌,
}
use silicium_rs.Crates.Addresses.{Addresses, Virtual}
use silicium_rs.Crates.BitFlags.{BitFlags}
use silicium_rs.Crates.PageTables.{PageTables}
use silicium_rs.Crates.VirtualRanges.{VirtualRanges}
use silicium_rs.Frame.Flags
use silicium_rs.Allocator.{Frames}
use silicium_rs.Paging.{
  MapError, out_of_memory, err, map, present, writable, translate, kernel_zeroed,
}
use silicium_rs.Paging.Walk.{SamePage, Walk-SamePage}
use silicium_rs.Paging.Space.{Typing, IsPaged}
use silicium_rs.Paging.Map.{Mapping}
use silicium_rs.Paging.Served.{Served, Served-refl, Served-trans, allocate_outcome, map_outcome}
use silicium_rs.Vmm
use silicium_rs.Vmm.{
  Vmm, VirtualArea, UsedMap, Handled, handled, failed, oom_error, missing_page, not_mappable,
  map_flag, zeroed_flag, map_page, find_used, vmalloc_start, vmalloc_end,
}
use silicium_rs.PageFault.{
  handle_heap, heap_flags, heap_start, heap_end, handle_demand_paging, unknown,
}

module _ ⦃x : Addresses⦄ ⦃bits : BitFlags⦄ ⦃pt : PageTables⦄ where
  -- Demand paging that returns: the address translates, or it has failed; in both cases what was
  -- mapped stays mapped.
  abbrev pub Demand : ℕ → Typing → Virtual → Virtual → Frames → Outcome (Handled × Frames) → Type 0
  Demand pinned ty table addr s run =
      ((s' : Frames) × (after : Typing) × (run ≡ done (handled, s'))
        × Served pinned ty after s s'
        × ((p : ℕ) × (translate table addr s'.memory ≡ done (some p))))
      ⊎ ((e : ℕ) × (s' : Frames) × (after : Typing) × (run ≡ done (failed e, s'))
          × Served pinned ty after s s')

  data_flags-present : bits.contains (bits.union present writable) present ≡ true
  data_flags-present = ground (
    arith,
    bits.contains-union present writable pt.present_bit,
    bits.contains-bit pt.present_bit pt.present_bit,
  )

  heap_flags-present : bits.contains heap_flags present ≡ true
  heap_flags-present = ground (
    arith,
    bits.contains-union (bits.union present writable) (2 ^ pt.no_execute_bit) pt.present_bit,
    data_flags-present,
  )

  -- An address that has no mapping is not said to be mapped.
  only_oom :
      (table at : Virtual) (s t : Frames) (e : MapError)
      → ¬ Mapping table at s.memory
      → (Mapping table at t.memory → Mapping table at s.memory)
      → (e ≡ out_of_memory) ⊎ Mapping table at t.memory
      → e ≡ out_of_memory
  only_oom table at s t e n back (inl q) = q
  only_oom table at s t e n back (inr m) = absurd (n (back m))

  pub handle_heap-Demand :
      (pinned : ℕ) (ty : Typing) (table addr : Virtual) (s : Frames)
      → IsPaged pinned ty s
      → ty table ≡ some pt.page_map_level4
      → ¬ Mapping table addr s.memory
      → Demand pinned ty table addr s (handle_heap table addr s)
  unfolding handle_heap
  handle_heap-Demand pinned ty table addr s v q n =
      elim (allocate_outcome pinned kernel_zeroed ty s v) [
        | inl e ↦ inr (oom_error, s, ty, ground (arith, e), Served-refl pinned ty s v)
        | inr (f, t, e, sv, al, b, back) ↦
            elim (map_outcome pinned ty table addr f heap_flags t sv.paged q heap_flags-present al
              b) [
                | inl (u, after, r, sv', found) ↦ inl (
                  u,
                  after,
                  ground (arith, e, r),
                  Served-trans pinned ty ty after s t u sv sv',
                  found addr (λ l. refl),
                )
                | inr (me, u, after, r, sv', o) ↦
                    let oom = only_oom table addr s t me n (back table addr q) o in
                    let r' : map table addr f heap_flags t ≡ done (err out_of_memory, u) =
                      subst (λ (i : MapError). map table addr f heap_flags t ≡ done (err i, u)) oom
                        r in
                    inr (
                      oom_error,
                      u,
                      after,
                      ground (arith, e, r'),
                      Served-trans pinned ty ty after s t u sv sv',
                    )
              ]
      ]

  -- The page of an address.
  SamePage-page : (addr : Virtual) → SamePage (x.page_align_down addr) addr
  SamePage-page addr l =
      ap (λ a. pt.page_index a l) (x.page_align_down_lem addr) ∙ pt.page_index_page addr l

  map_page-Demand :
      (pinned : ℕ) (ty : Typing) (table page addr : Virtual) (v : VirtualArea) (s : Frames)
      → SamePage page addr
      → IsPaged pinned ty s
      → ty table ≡ some pt.page_map_level4
      → ¬ Mapping table page s.memory
      → Demand pinned ty table addr s (map_page table page v s)
  unfolding map_page
  map_page-Demand pinned ty table page addr v s sp w q n =
      let flags = if bits.contains v.flags zeroed_flag then Flags.zeroed else 0 in
      let data_flags = bits.union present writable in
      elim (allocate_outcome pinned flags ty s w) [
        | inl e ↦ inr (oom_error, s, ty, ground (arith, e), Served-refl pinned ty s w)
        | inr (f, t, e, sv, al, b, back) ↦
            elim (map_outcome pinned ty table page f data_flags t sv.paged q data_flags-present al
              b) [
                | inl (u, after, r, sv', found) ↦ inl (
                  u,
                  after,
                  ground (arith, e, r),
                  Served-trans pinned ty ty after s t u sv sv',
                  found addr sp,
                )
                | inr (me, u, after, r, sv', o) ↦
                    let oom = only_oom table page s t me n (back table page q) o in
                    let r' : map table page f data_flags t ≡ done (err out_of_memory, u) =
                      subst (λ (i : MapError). map table page f data_flags t ≡ done (err i, u)) oom
                        r in
                    inr (
                      oom_error,
                      u,
                      after,
                      ground (arith, e, r'),
                      Served-trans pinned ty ty after s t u sv sv',
                    )
              ]
      ]

module _ ⦃x : Addresses⦄ ⦃bits : BitFlags⦄ ⦃pt : PageTables⦄ ⦃ranges : VirtualRanges⦄ where
  vmm-Demand :
      (pinned : ℕ) (ty : Typing) (table addr : Virtual) (used : UsedMap) (s : Frames)
      → IsPaged pinned ty s
      → ty table ≡ some pt.page_map_level4
      → ¬ Mapping table addr s.memory
      → Demand pinned ty table addr s (Vmm.handle_demand_paging table addr used s)
  unfolding Vmm.handle_demand_paging
  vmm-Demand pinned ty table addr used s v q n =
      let page = x.page_align_down addr in
      let sp = SamePage-page addr in
      let no_page : ¬ Mapping table page s.memory = λ m. n (record {
        entry = m.entry;
        walk = Walk-SamePage s.memory page addr sp m.walk;
        present = m.present;
      }) in
      elim (Option-cases (find_used page used)) [
        | inl e ↦ inr (missing_page, s, ty, ground (arith, e), Served-refl pinned ty s v)
        | inr (a, e) ↦ elim (Bool-cases (bits.contains a.flags map_flag)) [
          | inl m ↦
              let same : Vmm.handle_demand_paging table addr used s ≡ map_page table page a s =
                ground (arith, e, m) in
              subst (Demand pinned ty table addr s) (sym same)
                (map_page-Demand pinned ty table page addr a s sp v q no_page)
          | inr m ↦ inr (not_mappable, s, ty, ground (arith, e, m), Served-refl pinned ty s v)
        ]
      ]

  pub handle_demand_paging-Demand :
      (pinned : ℕ) (ty : Typing) (table addr : Virtual) (vmm : Vmm) (s : Frames)
      → IsPaged pinned ty s
      → ty table ≡ some pt.page_map_level4
      → ¬ Mapping table addr s.memory
      → Demand pinned ty table addr s (handle_demand_paging table addr vmm s)
  unfolding handle_demand_paging
  handle_demand_paging-Demand pinned ty table addr vmm s v q n =
      elim (Bool-cases (leb heap_start addr && ltb addr heap_end)) [
        | inl h ↦ rw h (handle_heap-Demand pinned ty table addr s v q n)
        | inr h ↦ elim (Bool-cases (leb vmalloc_start addr && ltb addr vmalloc_end)) [
          | inl k ↦ rw (h, k) (vmm-Demand pinned ty table addr vmm.used s v q n)
          | inr k ↦ inr (unknown, s, ty, rw (h, k) refl, Served-refl pinned ty s v)
        ]
      ]

  -- A used area that holds the page of the address and was allocated to be mapped.
  pub record MappableArea (addr : Virtual) (used : UsedMap) (v : VirtualArea) : Type 0 where
    pub index : ℕ
    pub key : Virtual
    pub stored : get_elem? used index ≡ some (key, v)
    pub from : v.range.start ≤ addr / 4096 * 4096
    pub up_to : addr / 4096 * 4096 < v.range.end
    pub mapped : bits.contains v.flags map_flag ≡ true

  -- The addresses that demand paging may map: those of the heap, and those of the vmalloc space
  -- whose page starts in a used area that was allocated to be mapped.
  abbrev pub IsMappable : Virtual → Vmm → Type 0
  IsMappable addr vmm =
      ((heap_start ≤ addr) × (addr < heap_end))
      ⊎ ((vmalloc_start ≤ addr)
          × (addr < vmalloc_end)
          × (v : VirtualArea) × MappableArea addr vmm.used v)

  find_used-stored :
      (a : Virtual) (m : UsedMap) (v : VirtualArea)
      → find_used a m ≡ some v
      → (i : ℕ) × (key : Virtual) × (get_elem? m i ≡ some (key, v))
        × (v.range.start ≤ a)
        × (a < v.range.end)
  unfolding find_used
  find_used-stored a [] v e = cc
  find_used-stored a ((k, w) ∷ m) v e = elim (Bool-cases (ranges.contains w.range a)) [
    | inl c ↦
        let same : w ≡ v = some-injective w v (rw c at e) in
        let lo : w.range.start ≤ a = ground (arith, ranges.contains_lem w.range a, c) in
        let hi : a < w.range.end = ground (arith, ranges.contains_lem w.range a, c) in
        (
          0,
          k,
          ap (λ (z : VirtualArea). some (k, z)) same,
          subst (λ (z : VirtualArea). z.range.start ≤ a) same lo,
          subst (λ (z : VirtualArea). a < z.range.end) same hi,
        )
    | inr c ↦
        let (i, key, g, lo, hi) = find_used-stored a m v (rw c at e) in (suc i, key, g, lo, hi)
  ]

  vmm-IsMappable :
      (table addr : Virtual) (used : UsedMap) (s s' : Frames)
      → Vmm.handle_demand_paging table addr used s ≡ done (handled, s')
      → (v : VirtualArea) × MappableArea addr used v
  unfolding Vmm.handle_demand_paging
  vmm-IsMappable table addr used s s' h =
      elim (Option-cases (find_used (x.page_align_down addr) used)) [
        | inl e ↦ absurd (ground (arith, h, e))
        | inr (v, e) ↦ elim (Bool-cases (bits.contains v.flags map_flag)) [
          | inl m ↦
              let (i, key, g, lo, hi) = find_used-stored (x.page_align_down addr) used v e in
              (
                v,
                record {
                  index = i;
                  key = key;
                  stored = g;
                  from = rw (x.page_align_down_lem addr) at lo;
                  up_to = rw (x.page_align_down_lem addr) at hi;
                  mapped = m;
                },
              )
          | inr m ↦ absurd (ground (arith, h, e, m))
        ]
      ]

  -- Demand paging that succeeds was for an address of the heap, or for one of the vmalloc space
  -- whose page starts in an area that is stored among the used ones and was allocated to be mapped.
  pub handle_demand_paging-IsMappable :
      (table addr : Virtual) (vmm : Vmm) (s s' : Frames)
      → handle_demand_paging table addr vmm s ≡ done (handled, s')
      → IsMappable addr vmm
  unfolding handle_demand_paging
  handle_demand_paging-IsMappable table addr vmm s s' h =
      elim (Bool-cases (leb heap_start addr && ltb addr heap_end)) [
        | inl e ↦ inl (ground (arith, e), ground (arith, e))
        | inr e ↦ elim (Bool-cases (leb vmalloc_start addr && ltb addr vmalloc_end)) [
          | inl k ↦
              let (v, area) = vmm-IsMappable table addr vmm.used s s' (rw (e, k) at h) in
              inr (ground (arith, k), ground (arith, k), v, area)
          | inr k ↦ absurd (ground (arith, h, e, k))
        ]
      ]
