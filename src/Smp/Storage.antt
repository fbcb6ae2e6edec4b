-- ===== src/Smp/Storage.antt =====
-- The thread local storage of the cores.
use silicium_rs.Vmm
use silicium_rs.Vmm.{FreeMap, find_free_first_fit}
use silicium_rs.Base.{
  Outcome, panicked, none, ◌>>=◌, ℕ, false, ◌≢◌, ◌+◌, ◌≤◌, ◌<◌, ◌≡◌, ◌∙◌, subst, ◌⊎◌, inl, inr,
  refl, arith, Option, some, done, >>=-eq-done, done_injective, done_unique, dec_lt,
}
use silicium_rs.Crates.Addresses.{Addresses}
use silicium_rs.Crates.BitFlags.{BitFlags}
use silicium_rs.Crates.PageTables.{PageTables}
use silicium_rs.Crates.VirtualRanges.{VirtualRanges}
use silicium_rs.Crates.SegmentTables.{SegmentTables}
use silicium_rs.Smp.Local.{gdt_entries}
use silicium_rs.Smp.System.{
  Phase, parked, told, reloaded, with_area, with_storage, with_lapic, with_segment, with_frame,
  with_table, ready, Core, Shared, ap_step,
}
use silicium_rs.Crates.Addresses.{Virtual}
use silicium_rs.Crates.VirtualRanges.{VirtualRange}
use silicium_rs.Vmm.{
  Vmm, VirtualArea, atomic_flag, insert_used, insert_used_vma, map_flag, zeroed_flag, align_size,
  area_flags, vmalloc_start, vmalloc_end,
}
use silicium_rs.Vmm.Areas.{count_used, IsFreeMap}
use silicium_rs.Vmm.FirstFit.{IsVmm, Taken, find_free_first_fit_cases}
use silicium_rs.Vmm.Allocate.{RangeTaken, Vmm_allocate_cases, align_size_lem}
use silicium_rs.Current.{TableRoot, table_frame, clone_table}
use silicium_rs.Smp.Local.{
  SmpInfo, ThreadLocalInfo, storage_size, current_id, allocate_thread_local_storage, take_area,
  use_area, install,
}

module _ ⦃x : Addresses⦄ ⦃bits : BitFlags⦄ ⦃ranges : VirtualRanges⦄ where
  -- The structure that a core gets, in storage that was free.
  pub record Stored (n : ℕ) (info : SmpInfo) (l : ThreadLocalInfo) (s s' : Vmm) : Type 0 where
    pub id : current_id l ≡ info.processor_id
    pub placed : l.self_ptr ≡ l.tls_base + n
    pub from : vmalloc_start ≤ l.tls_base
    pub up_to : l.tls_base + storage_size n ≤ vmalloc_end
    pub was_free :
        (a : Virtual) → l.tls_base ≤ a → a < l.tls_base + storage_size n → count_used s.used a ≡ 0
    pub is_used :
        (a : Virtual) → l.tls_base ≤ a → a < l.tls_base + storage_size n → count_used s'.used a ≡ 1
    pub kept : (a : Virtual) → count_used s.used a ≡ 1 → count_used s'.used a ≡ 1
    pub valid : IsVmm s'

  range-Stored :
      (n : ℕ) (info : SmpInfo) (r : VirtualRange) (s s' : Vmm)
      → IsVmm s
      → storage_size n + 0xFFF < 0x1_0000_0000_0000_0000
      → RangeTaken
          (align_size (storage_size n))
          (area_flags (bits.union map_flag zeroed_flag))
          r
          s
          s'
      → Stored n info
          (record {
            self_ptr = r.start + n;
            tls_base = r.start;
            lapic_id = info.lapic_id;
            cpu_id = info.processor_id;
          })
          s
          s'
  unfolding current_id
  range-Stored n info r s s' w small t =
      let (al, ge, lt) = align_size_lem (storage_size n) small in
      record {
        id = refl;
        placed = refl;
        from = t.from;
        up_to = omega (arith, t.exact, t.up_to);
        was_free = λ a p q. t.was_free a p (omega (arith, t.exact));
        is_used = λ a p q. t.is_used a p (omega (arith, t.exact));
        kept = λ a one. elim (dec_lt a r.start) [
          | yes p ↦ t.others a (inl p) ∙ one
          | no p ↦ elim (dec_lt a r.end) [
            | yes q ↦ t.is_used a (omega arith) q
            | no q ↦ t.others a (inr (omega arith)) ∙ one
          ]
        ];
        valid = t.valid;
      }

  -- Where the areas are well-formed and the storage is at least 4096 bytes below 2^64 in size, the
  -- storage that `allocate_thread_local_storage` returns was free, is used, and names its core.
  pub allocate_thread_local_storage-Stored :
      (n : ℕ) (info : SmpInfo) (l : ThreadLocalInfo) (s s' : Vmm)
      → IsVmm s
      → storage_size n + 0xFFF < 0x1_0000_0000_0000_0000
      → allocate_thread_local_storage n info s ≡ done (l, s')
      → Stored n info l s s'
  unfolding allocate_thread_local_storage
  allocate_thread_local_storage-Stored n info l s s' w small e =
      elim (Vmm_allocate_cases (storage_size n) (bits.union map_flag zeroed_flag) s w (omega arith)
        small) [
          | inl (f, _) ↦ absurd (ground (arith, f, e))
          | inr (inl (_, f)) ↦ absurd (ground (arith, f, e))
          | inr (inr (r, u, f, t)) ↦
              let (al, ge, lt) = align_size_lem (storage_size n) small in
              let add =
                x.virtual_add-high r.start n (omega (arith, t.from))
                  (omega (arith, t.exact, t.up_to)) in
              let l' : ThreadLocalInfo = record {
                self_ptr = r.start + n;
                tls_base = r.start;
                lapic_id = info.lapic_id;
                cpu_id = info.processor_id;
              } in
              let run : allocate_thread_local_storage n info s ≡ done (l', u) = rw (f, add) refl in
              subst (λ z. Stored n info z.0 s z.1) (done_unique run e)
                (range-Stored n info r s u w small t)
        ]

module _ ⦃x : Addresses⦄ ⦃bits : BitFlags⦄ ⦃ranges : VirtualRanges⦄ where
  -- The area that `take_area` takes out of the free ones.
  pub take_area-Taken :
      (n : ℕ) (v : VirtualArea) (s s' : Vmm)
      → IsFreeMap s.free
      → storage_size n + 0xFFF < 0x1_0000_0000_0000_0000
      → take_area n s ≡ done (v, s')
      → Taken (align_size (storage_size n)) s.free v s'.free × (s'.used ≡ s.used)
  unfolding take_area
  take_area-Taken n v s s' w small e =
      let (al, ge, lt) = align_size_lem (storage_size n) small in
      let not_atomic : bits.contains (bits.union map_flag zeroed_flag) atomic_flag ≡ false =
        ground (
          arith,
          bits.contains-union map_flag zeroed_flag 1,
          bits.contains-bit 2 1,
          bits.contains-bit 3 1,
        ) in
      elim (find_free_first_fit_cases (align_size (storage_size n)) s.free (omega (arith, ge)) al
        w) [
          | inl (f, _) ↦ absurd (ground (arith, f, e))
          | inr (u, m, f, t) ↦
              let flagged : VirtualArea = record u {
                flags = area_flags (bits.union map_flag zeroed_flag);
              } in
              let run : take_area n s ≡ done (flagged, record s { free = m }) =
                rw (f, not_atomic) refl in
              subst
                (λ (z : VirtualArea × Vmm).
                  Taken (align_size (storage_size n)) s.free z.0 z.1.free × (z.1.used ≡ s.used))
                (done_unique run e)
                (
                  record {
                    area = record {
                      start_aligned = t.area.start_aligned;
                      end_aligned = t.area.end_aligned;
                      nonempty = t.area.nonempty;
                      from = t.area.from;
                      up_to = t.area.up_to;
                    };
                    exact = t.exact;
                    left = t.left;
                    count = t.count;
                  },
                  refl,
                )
        ]

  -- The structure of the storage in an area, and the areas after `use_area`.
  pub use_area_lem :
      (n : ℕ) (info : SmpInfo) (v : VirtualArea) (l : ThreadLocalInfo) (s s' : Vmm)
      → vmalloc_start ≤ v.range.start
      → v.range.start + storage_size n ≤ vmalloc_end
      → use_area n info v s ≡ done (l, s')
      → (current_id l ≡ info.processor_id)
        × (l.tls_base ≡ v.range.start)
        × (s'.free ≡ s.free)
        × (s'.used ≡ insert_used v.range.start v s.used)
  unfolding use_area insert_used_vma current_id
  use_area_lem n info v l s s' lo hi e =
      let add = x.virtual_add-high v.range.start n (omega arith) (omega arith) in
      let run : use_area n info v s
          ≡ done (
            record {
              self_ptr = v.range.start + n;
              tls_base = v.range.start;
              lapic_id = info.lapic_id;
              cpu_id = info.processor_id;
            },
            record s { used = insert_used v.range.start v s.used },
          ) =
        rw add refl in
      subst
        (λ (z : ThreadLocalInfo × Vmm).
          (current_id z.0 ≡ info.processor_id)
          × (z.0.tls_base ≡ v.range.start)
          × (z.1.free ≡ s.free)
          × (z.1.used ≡ insert_used v.range.start v s.used))
        (done_unique run e) (refl, refl, refl, refl)

module _ ⦃x : Addresses⦄ ⦃bits : BitFlags⦄ ⦃ranges : VirtualRanges⦄ where
  -- With nothing between them, the two parts are the whole allocation.
  pub allocate_thread_local_storage-parts :
      (n : ℕ) (info : SmpInfo) (s : Vmm)
      → allocate_thread_local_storage n info s
        ≡ (take_area n s >>= λ (z : VirtualArea × Vmm). use_area n info z.0 z.1)
  unfolding allocate_thread_local_storage take_area use_area Vmm.allocate insert_used_vma
  allocate_thread_local_storage-parts n info s =
      of_search (find_free_first_fit (align_size (storage_size n)) s.free) refl
    where
      of_search :
          (o : Outcome (Option VirtualArea × FreeMap))
          → find_free_first_fit (align_size (storage_size n)) s.free ≡ o
          → allocate_thread_local_storage n info s
            ≡ (take_area n s >>= λ (z : VirtualArea × Vmm). use_area n info z.0 z.1)
      of_search (panicked p) e = rw e refl
      of_search (done (none, m)) e = rw e refl
      of_search (done (some v, m)) e =
          let not_atomic : bits.contains (bits.union map_flag zeroed_flag) atomic_flag ≡ false =
            ground (
              arith,
              bits.contains-union map_flag zeroed_flag 1,
              bits.contains-bit 2 1,
              bits.contains-bit 3 1,
            ) in
          rw e (rw not_atomic refl)

-- A core holds no area between two locks.
abbrev pub NoArea : Phase → Type 0
NoArea p = (v : VirtualArea) → p ≢ with_area v

module _ ⦃x : Addresses⦄ ⦃bits : BitFlags⦄ ⦃pt : PageTables⦄ ⦃ranges : VirtualRanges⦄
    ⦃gdt : SegmentTables gdt_entries⦄ where
  -- What a step of `ap_start` does with the storage: nothing, the first part of the allocation, or
  -- the second.
  pub record Storage (n : ℕ) (c c' : Core) (s t : Shared) : Type 0 where
    pub info : c'.info ≡ c.info
    pub change :
        ((c'.local ≡ c.local) × (t.vmm ≡ s.vmm) × NoArea c.phase × NoArea c'.phase)
        ⊎ ((v : VirtualArea) × NoArea c.phase
            × (c'.phase ≡ with_area v)
            × (c'.local ≡ c.local)
            × (take_area n s.vmm ≡ done (v, t.vmm)))
        ⊎ ((v : VirtualArea) × (l : ThreadLocalInfo) × (c.phase ≡ with_area v)
            × NoArea c'.phase
            × (c'.local ≡ some l)
            × (use_area n c.info v s.vmm ≡ done (l, t.vmm)))

  step-Storage :
      (n : ℕ) (c : Core) (s : Shared) {r r' : Core × Shared}
      → done r ≡ done r'
      → Storage n c r.0 s r.1
      → Storage n c r'.0 s r'.1
  step-Storage n c s e w = subst (λ z. Storage n c z.0 s z.1) (done_injective e) w

  pub ap_step-Storage :
      (n : ℕ) (info : SmpInfo) (p : Phase) (local : Option ThreadLocalInfo)
      (table : Option TableRoot) (s : Shared) (c' : Core) (t : Shared)
      → let c : Core = record { info = info; phase = p; local = local; table = table } in
        ap_step n c s ≡ done (c', t) → Storage n c c' s t
  unfolding ap_step
  ap_step-Storage n info reloaded local table s c' t e =
      let ((v, vmm), m, f) = >>=-eq-done (take_area n s.vmm) _ e in
      step-Storage n _ s f
        (record { info = refl; change = inr (inl (v, λ w q. cc, refl, refl, m)) })
  ap_step-Storage n info (with_area v) local table s c' t e =
      let ((l, vmm), m, f) = >>=-eq-done (use_area n info v s.vmm) _ e in
      step-Storage n _ s f
        (record { info = refl; change = inr (inr (v, l, refl, λ w q. cc, refl, m)) })
  ap_step-Storage n info with_lapic local table s c' t e =
      let (_, _, f) = >>=-eq-done (install info.processor_id s.gdt_table) _ e in
      step-Storage n _ s f (record { info = refl; change = inl (refl, refl, λ w q. cc, λ w q. cc) })
  ap_step-Storage n info with_segment local table s c' t e =
      let (_, _, f) = >>=-eq-done (table_frame s.frames) _ e in
      step-Storage n _ s f (record { info = refl; change = inl (refl, refl, λ w q. cc, λ w q. cc) })
  ap_step-Storage n info (with_frame frame) local table s c' t e =
      let (_, _, f) = >>=-eq-done (clone_table s.init frame s.frames) _ e in
      step-Storage n _ s f (record { info = refl; change = inl (refl, refl, λ w q. cc, λ w q. cc) })
  ap_step-Storage n info parked local table s c' t e =
      step-Storage n _ s e (record { info = refl; change = inl (refl, refl, λ w q. cc, λ w q. cc) })
  ap_step-Storage n info told local table s c' t e =
      step-Storage n _ s e (record { info = refl; change = inl (refl, refl, λ w q. cc, λ w q. cc) })
  ap_step-Storage n info with_storage local table s c' t e =
      step-Storage n _ s e (record { info = refl; change = inl (refl, refl, λ w q. cc, λ w q. cc) })
  ap_step-Storage n info with_table local table s c' t e =
      step-Storage n _ s e (record { info = refl; change = inl (refl, refl, λ w q. cc, λ w q. cc) })
  ap_step-Storage n info ready local table s c' t e =
      step-Storage n _ s e (record { info = refl; change = inl (refl, refl, λ w q. cc, λ w q. cc) })
