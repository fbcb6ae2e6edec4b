-- ===== src/PageFault/Resolved.antt =====
-- `handle_page_fault` and `page_fault`: every outcome.
use silicium_rs.Base.{
  ℕ, zero, suc, ◌+◌, ◌*◌, ◌/◌, ◌^◌, ◌<◌, ◌≡◌, refl, ◌⊎◌, Bool, true, false, none, some, arith, done,
  inl, inr, Bool-cases, if◌then◌else◌,
}
use silicium_rs.Crates.Addresses.{Addresses, Virtual}
use silicium_rs.Crates.BitFlags.{BitFlags}
use silicium_rs.Crates.PageTables.{PageTables, Level}
use silicium_rs.Crates.VirtualRanges.{VirtualRanges}
use silicium_rs.Address.Laws.{phys_to_virt-eq}
use silicium_rs.Allocator.{Memory}
use silicium_rs.Paging.{Machine, fetch_pte, translate, slot, shootdown}
use silicium_rs.Paging.Walk.{fetch_pte_of_Walk, fetch_pte-Walk}
use silicium_rs.Paging.Space.{Typing, IsSpace, IsPaged}
use silicium_rs.Paging.Map.{Mapping}
use silicium_rs.Paging.Served.{Served, Served-refl}
use silicium_rs.Vmm.{Vmm}
use silicium_rs.PageFault.{
  active_table, PageFaultResult, Kernel, resolved, unresolved, lazy_tlb_invalidation, demand_paging,
  unknown, fault_reasons, unrecoverable, handle_page_fault, page_fault,
}
use silicium_rs.PageFault.Demand.{handle_demand_paging-Demand}

module _ ⦃x : Addresses⦄ ⦃bits : BitFlags⦄ ⦃pt : PageTables⦄ where
  fetch_pte_total :
      (ty : Typing) (m : Memory) (at : Virtual) (l : Level) (table : Virtual)
      → IsSpace ty m
      → ty table ≡ some l
      → (fetch_pte l table at m ≡ done none)
        ⊎ ((e : Virtual) × (fetch_pte l table at m ≡ done (some e)))
  unfolding fetch_pte
  fetch_pte_total ty m at zero table s q =
      elim (Bool-cases (pt.is_present (m (slot table zero at)))) [
        | inl p ↦ inr (slot table zero at, ground (arith, p))
        | inr p ↦ inl (ground (arith, p))
      ]
  fetch_pte_total ty m at (suc l) table s q =
      elim (Bool-cases (pt.is_present (m (slot table (suc l) at)))) [
        | inl p ↦
            let (next, n, t) =
              s.children table l (pt.page_index at (suc l)) q (pt.page_index-lt at (suc l)) p in
            rw (p, n) (fetch_pte_total ty m at l next s t)
        | inr p ↦ inl (ground (arith, p))
      ]

  -- On well-formed tables the walk does not panic, and it finds the mapping if there is one.
  pub fetch_pte_cases :
      (ty : Typing) (m : Memory) (at table : Virtual)
      → IsSpace ty m
      → ty table ≡ some pt.page_map_level4
      → ((fetch_pte pt.page_map_level4 table at m ≡ done none) × ¬ Mapping table at m)
        ⊎ ((e : Virtual) × (fetch_pte pt.page_map_level4 table at m ≡ done (some e))
            × (pt.is_present (m e) ≡ true)
            × Mapping table at m)
  fetch_pte_cases ty m at table s q = elim (fetch_pte_total ty m at pt.page_map_level4 table s q) [
    | inl e ↦ inl (e, λ h. ground (arith, e, fetch_pte_of_Walk m at h.walk, h.present))
    | inr (e, f) ↦
        let (w, p) = fetch_pte-Walk m at pt.page_map_level4 table e f in
        inr (e, f, p, record { entry = e; walk = w; present = p })
  ]

module _ ⦃x : Addresses⦄ ⦃bits : BitFlags⦄ ⦃pt : PageTables⦄ ⦃ranges : VirtualRanges⦄ where
  abbrev pub is_violation : ℕ → Bool
  is_violation code = bits.contains code (2 ^ pt.protection_violation_bit)

  -- What a result says of the fault.
  abbrev pub Verdict : Virtual → ℕ → Virtual → Machine → PageFaultResult → Machine → Type 0
  Verdict table code addr s (resolved lazy_tlb_invalidation) s' =
      (is_violation code ≡ false)
      × Mapping table addr s.frames.memory
      × (s' ≡ record s { cpu = shootdown s.cpu })
  Verdict table code addr s (resolved demand_paging) s' =
      (is_violation code ≡ false)
      × (¬ Mapping table addr s.frames.memory)
      × ((p : ℕ) × (translate table addr s'.frames.memory ≡ done (some p)))
  Verdict table code addr s (unresolved e) s' =
      ((is_violation code ≡ true) × (s' ≡ s))
      ⊎ ((is_violation code ≡ false) × (¬ Mapping table addr s.frames.memory))

  unrecoverable_total :
      (ty : Typing) (table : Virtual) (code : ℕ) (addr : Virtual) (error : ℕ) (s : Machine)
      → IsSpace ty s.frames.memory
      → ty table ≡ some pt.page_map_level4
      → (e : ℕ) × (unrecoverable table code addr error s ≡ done (unresolved e, s))
  unfolding unrecoverable
  unrecoverable_total ty table code addr error s v q =
      elim (fetch_pte_cases ty s.frames.memory addr table v q) [
        | inl (e, _) ↦ (fault_reasons code none error s.frames.memory, rw e refl)
        | inr (pte, e, _, _) ↦ (fault_reasons code (some pte) error s.frames.memory, rw e refl)
      ]

  -- On well-formed page tables `handle_page_fault` never panics. Every translation is kept and the
  -- page tables stay well-formed. It flushes the TLBs, and changes nothing else, exactly when the
  -- address is mapped and there is no protection violation; after demand paging an address that was
  -- not mapped translates; an error is a protection violation, at which nothing changes, or an
  -- address that was not mapped.
  pub handle_page_fault-Verdict :
      (pinned : ℕ) (ty : Typing) (table : Virtual) (code : ℕ) (addr : Virtual) (vmm : Vmm)
      (s : Machine)
      → IsPaged pinned ty s.frames
      → ty table ≡ some pt.page_map_level4
      → (r : PageFaultResult) × (s' : Machine) × (after : Typing) × (handle_page_fault table code
            addr vmm s
          ≡ done (r, s'))
        × Served pinned ty after s.frames s'.frames
        × Verdict table code addr s r s'
  unfolding handle_page_fault
  handle_page_fault-Verdict pinned ty table code addr vmm s v q =
      elim (Bool-cases (is_violation code)) [
        | inl viol ↦
            let (e, u) = unrecoverable_total ty table code addr unknown s v.space q in
            elim (fetch_pte_cases ty s.frames.memory addr table v.space q) [
              | inl (f, n) ↦ (
                unresolved e,
                s,
                ty,
                ground (arith, f, viol, u),
                Served-refl pinned ty s.frames v,
                inl (viol, refl),
              )
              | inr (pte, f, p, m) ↦ (
                unresolved e,
                s,
                ty,
                ground (arith, f, p, viol, u),
                Served-refl pinned ty s.frames v,
                inl (viol, refl),
              )
            ]
        | inr viol ↦ elim (fetch_pte_cases ty s.frames.memory addr table v.space q) [
          | inr (pte, f, p, m) ↦ (
            resolved lazy_tlb_invalidation,
            record s { cpu = shootdown s.cpu },
            ty,
            ground (arith, f, p, viol),
            Served-refl pinned ty s.frames v,
            (viol, m, refl),
          )
          | inl (f, n) ↦
              elim (handle_demand_paging-Demand pinned ty table addr vmm s.frames v q n) [
                | inl (t, after, d, sv, tr) ↦ (
                  resolved demand_paging,
                  record s { frames = t },
                  after,
                  ground (arith, f, viol, d),
                  sv,
                  (viol, n, tr),
                )
                | inr (e, t, after, d, sv) ↦
                    let s' : Machine = record s { frames = t } in
                    let (e', u) =
                      unrecoverable_total after table code addr (bits.union unknown e) s'
                        sv.paged.space (sv.extends table pt.page_map_level4 q) in
                    (unresolved e', s', after, ground (arith, f, viol, d, u), sv, inr (viol, n))
              ]
        ]
      ]

  -- The root table: before the kernel has its own, the one that CR3 holds.
  abbrev pub root_of : Kernel → Virtual
  root_of k = if k.early then k.cr3 / 4096 * 4096 + 0xffff_8000_0000_0000 else k.active

  root_of-early :
      (k : Kernel)
      → k.cr3 < 0x8000_0000_0000
      → active_table k.cr3 ≡ done (k.cr3 / 4096 * 4096 + 0xffff_8000_0000_0000)
  unfolding active_table
  root_of-early k h =
      let a = k.cr3 / 4096 * 4096 in
      ground (
        arith,
        x.page_mask_lem k.cr3,
        x.physical_new-valid a (omega arith),
        phys_to_virt-eq a (omega arith),
      )

  root_lem :
      (k : Kernel)
      → k.cr3 < 0x8000_0000_0000
      → (if k.early then active_table k.cr3 else done k.active) ≡ done (root_of k)
  root_lem k h = elim (Bool-cases k.early) [ inl e ↦ rw e (root_of-early k h) | inr e ↦ rw e refl ]

  -- With well-formed page tables and a root table in use, which is the one in CR3 (below 2^47)
  -- early in the start of the kernel and the active one later, `page_fault` never panics. Every
  -- translation below every root table is kept and the page tables stay well-formed. If the
  -- address is mapped and there is no protection violation, it flushes the TLBs and changes
  -- nothing else; after demand paging, of an address that was not mapped, the address translates;
  -- an error is a protection violation, at which nothing changes, or an address that was not
  -- mapped.
  pub page_fault-Verdict :
      (pinned : ℕ) (ty : Typing) (code : ℕ) (addr : Virtual) (k : Kernel)
      → IsPaged pinned ty k.machine.frames
      → ty (root_of k) ≡ some pt.page_map_level4
      → k.cr3 < 0x8000_0000_0000
      → (r : PageFaultResult) × (s' : Machine) × (after : Typing) × (page_fault code addr k
          ≡ done (r, record k { machine = s' }))
        × Served pinned ty after k.machine.frames s'.frames
        × Verdict (root_of k) code addr k.machine r s'
  unfolding page_fault
  page_fault-Verdict pinned ty code addr k v q h =
      let (r, s', after, e, sv, w) =
        handle_page_fault-Verdict pinned ty (root_of k) code addr k.vmm k.machine v q in
      (r, s', after, rw (root_lem k h, e) refl, sv, w)
