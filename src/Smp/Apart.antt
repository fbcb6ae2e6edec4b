-- ===== src/Smp/Apart.antt =====
-- No two cores share storage, at any point of the start.
use mathlib.Core.Option.{some-injective}
use silicium_rs.Base.{
  leb, ltb, ◌&&◌, if◌then◌else◌, ℕ, suc, ◌+◌, ◌≤◌, ◌<◌, ◌≡◌, ◌≢◌, ◌∙◌, sym, subst, ◌⊎◌, inl, inr,
  refl, ap, arith, some, get_elem?, set, set_cases, dec_le,
}
use silicium_rs.Crates.Addresses.{Addresses}
use silicium_rs.Crates.BitFlags.{BitFlags}
use silicium_rs.Crates.PageTables.{PageTables}
use silicium_rs.Crates.VirtualRanges.{VirtualRanges}
use silicium_rs.Crates.SegmentTables.{SegmentTables}
use silicium_rs.Smp.Local.{gdt_entries}
use silicium_rs.Smp.System.{
  Phase, parked, told, reloaded, with_area, with_storage, with_lapic, with_segment, with_frame,
  with_table, ready, waiting, finished, Core, Boot, telling, Shared, System, Step, tell, skip,
  all_told, all_started, work, Steps, stop, later,
}
use silicium_rs.Crates.Addresses.{Virtual}
use silicium_rs.Vmm.{Vmm, VirtualArea, UsedMap, vmalloc_start, vmalloc_end, align_size, insert_used}
use silicium_rs.Vmm.Areas.{
  inside, count_free, count_used, IsArea, IsFreeMap, IsUsedMap, count_used-Absent,
  count-insert_used, insert_used-IsUsedMap,
}
use silicium_rs.Vmm.Allocate.{align_size_lem}
use silicium_rs.Smp.Totals.{total, total-set}
use silicium_rs.Smp.Counted.{reached_eq, IsCounted, Steps-IsCounted}
use silicium_rs.Smp.Local.{SmpInfo, ThreadLocalInfo, storage_size, current_id}
use silicium_rs.Smp.Storage.{NoArea, Storage, take_area-Taken, use_area_lem, ap_step-Storage}

-- The storages of two cores have no byte in common.
abbrev pub Disjoint : ℕ → ThreadLocalInfo → ThreadLocalInfo → Type 0
Disjoint n l k =
    (l.tls_base + storage_size n ≤ k.tls_base) ⊎ (k.tls_base + storage_size n ≤ l.tls_base)

abbrev pub IsUsed : ℕ → ThreadLocalInfo → UsedMap → Type 0
IsUsed n l m = (a : Virtual) → l.tls_base ≤ a → a < l.tls_base + storage_size n → count_used m a ≡ 1

-- Storage in use and storage that was free.
used_apart :
    (n : ℕ) (l k : ThreadLocalInfo) (m : UsedMap)
    → IsUsed n l m
    → ((a : Virtual) → k.tls_base ≤ a → a < k.tls_base + storage_size n → count_used m a ≡ 0)
    → Disjoint n l k
used_apart n l k m u f = elim (dec_le (l.tls_base + storage_size n) k.tls_base) [
  | yes p ↦ inl p
  | no p ↦ elim (dec_le (k.tls_base + storage_size n) l.tls_base) [
    | yes q ↦ inr q
    | no q ↦ elim (dec_le l.tls_base k.tls_base) [
      | yes r ↦
          absurd
            (omega (arith, u k.tls_base r (omega arith), f k.tls_base (omega arith) (omega arith)))
      | no r ↦ absurd (
          omega (
            arith,
            u l.tls_base (omega arith) (omega arith),
            f l.tls_base (omega arith) (omega arith),
          ))
    ]
  ]
]

swap : (n : ℕ) (l k : ThreadLocalInfo) → Disjoint n l k → Disjoint n k l
swap n l k (inl p) = inr p
swap n l k (inr p) = inl p

-- 1 if the core holds the address in an area that it has taken out of the free ones and not yet put
-- among the used ones, and 0 otherwise.
abbrev pub holds : Virtual → Core → ℕ
holds a c = elim c.phase [ with_area v ↦ inside v a | _ ↦ 0 ]

holds-NoArea : (a : Virtual) (c : Core) → NoArea c.phase → holds a c ≡ 0
holds-NoArea a c h = of_phase c.phase refl
  where
    of_phase : (p : Phase) → c.phase ≡ p → holds a c ≡ 0
    of_phase (with_area v) e = absurd (h v e)
    of_phase parked e = ground arith
    of_phase told e = ground arith
    of_phase reloaded e = ground arith
    of_phase with_storage e = ground arith
    of_phase with_lapic e = ground arith
    of_phase with_segment e = ground arith
    of_phase (with_frame f) e = ground arith
    of_phase with_table e = ground arith
    of_phase ready e = ground arith

area_of : {v w : VirtualArea} → with_area v ≡ with_area w → v ≡ w
area_of e = cc

holds-with_area :
    (a : Virtual) (c : Core) (v : VirtualArea) → c.phase ≡ with_area v → holds a c ≡ inside v a
holds-with_area a c v e = ground (arith, e)

-- An area for the storage of a core.
abbrev pub IsStorageArea : ℕ → VirtualArea → Type 0
IsStorageArea n v = IsArea v × (v.range.end ≡ v.range.start + align_size (storage_size n))

module _ ⦃x : Addresses⦄ ⦃bits : BitFlags⦄ ⦃pt : PageTables⦄ ⦃ranges : VirtualRanges⦄
    ⦃gdt : SegmentTables gdt_entries⦄ where
  pub record IsApart (n : ℕ) (s : System) : Type 0 where
    pub free_map : IsFreeMap s.shared.vmm.free
    pub used_map : IsUsedMap s.shared.vmm.used
    pub partition :
        (a : Virtual)
        → count_free s.shared.vmm.free a + count_used s.shared.vmm.used a + total (holds a) s.cores
          ≡ (if leb vmalloc_start a && ltb a vmalloc_end then 1 else 0)
    pub taken :
        (j : ℕ) (c : Core) (v : VirtualArea)
        → get_elem? s.cores j ≡ some c
        → c.phase ≡ with_area v
        → IsStorageArea n v
    pub used :
        (j : ℕ) (c : Core) (l : ThreadLocalInfo)
        → get_elem? s.cores j ≡ some c
        → c.local ≡ some l
        → IsUsed n l s.shared.vmm.used
    pub own :
        (j : ℕ) (c : Core) (l : ThreadLocalInfo)
        → get_elem? s.cores j ≡ some c
        → c.local ≡ some l
        → current_id l ≡ c.info.processor_id
    pub apart :
        (i j : ℕ) (c d : Core) (l k : ThreadLocalInfo)
        → i ≢ j
        → get_elem? s.cores i ≡ some c
        → get_elem? s.cores j ≡ some d
        → c.local ≡ some l
        → d.local ≡ some k
        → Disjoint n l k

  -- A core is replaced by one with the same number and storage; the used areas are the same.
  IsApart-set :
      (n : ℕ) (s : System) (b : Boot) (sh : Shared) (i : ℕ) (c c' : Core)
      → IsApart n s
      → sh.vmm.used ≡ s.shared.vmm.used
      → IsFreeMap sh.vmm.free
      → ((a : Virtual)
          → count_free sh.vmm.free a + holds a c' ≡ count_free s.shared.vmm.free a + holds a c)
      → ((v : VirtualArea) → c'.phase ≡ with_area v → IsStorageArea n v)
      → get_elem? s.cores i ≡ some c
      → c'.local ≡ c.local
      → c'.info ≡ c.info
      → IsApart n (record { shared = sh; cores = set s.cores i c'; boot = b })
  IsApart-set n s b sh i c c' v e free counts area g same info =
      let was : (j : ℕ) (d : Core)
          → get_elem? (set s.cores i c') j ≡ some d
          → (o : Core) × (get_elem? s.cores j ≡ some o) × (d.local ≡ o.local) × (d.info ≡ o.info) =
        λ j d h. elim (set_cases s.cores i j c' d h) [
          | inl (p, q) ↦ (
            c,
            ap (get_elem? s.cores) (sym p) ∙ g,
            ap (λ (k : Core). k.local) (sym q) ∙ same,
            ap (λ (k : Core). k.info) (sym q) ∙ info,
          )
          | inr (_, h') ↦ (d, h', refl, refl)
        ] in
      record {
        free_map = free;
        used_map = rw e v.used_map;
        partition = λ a.
            rw e (omega (arith, v.partition a, counts a, total-set (holds a) s.cores i c c' g));
        taken = λ j d u h q. elim (set_cases s.cores i j c' d h) [
          | inl (_, p) ↦ area u (ap (λ (k : Core). k.phase) p ∙ q)
          | inr (_, h') ↦ v.taken j d u h' q
        ];
        used = λ j d l h q. let (o, g', p, _) = was j d h in rw e (v.used j o l g' (sym p ∙ q));
        own = λ j d l h q.
            let (o, g', p, r) = was j d h in
            v.own j o l g' (sym p ∙ q) ∙ ap (λ (k : SmpInfo). k.processor_id) (sym r);
        apart = λ j k d f l m ne h h' q q'.
            let (o, g', p, _) = was j d h in
            let (o', g'', p', _) = was k f h' in
            v.apart j k o o' l m ne g' g'' (sym p ∙ q) (sym p' ∙ q');
      }

  -- A core puts the area that it holds among the used ones, and has its storage there.
  IsApart-store :
      (n : ℕ) (s : System) (sh : Shared) (i : ℕ) (c c' : Core) (l : ThreadLocalInfo)
      (area : VirtualArea)
      → storage_size n + 0xFFF < 0x1_0000_0000_0000_0000
      → IsApart n s
      → get_elem? s.cores i ≡ some c
      → c.phase ≡ with_area area
      → NoArea c'.phase
      → c'.local ≡ some l
      → c'.info ≡ c.info
      → current_id l ≡ c.info.processor_id
      → l.tls_base ≡ area.range.start
      → sh.vmm.free ≡ s.shared.vmm.free
      → sh.vmm.used ≡ insert_used area.range.start area s.shared.vmm.used
      → IsApart n (record { shared = sh; cores = set s.cores i c'; boot = s.boot })
  IsApart-store n s sh i c c' l area small v g held none_left mine info id base free stored =
      let (ia, exact) = v.taken i c area g held in
      let (al, ge, lt) = align_size_lem (storage_size n) small in
      let used = s.shared.vmm.used in
      let sums : (a : Virtual)
          → total (holds a) (set s.cores i c') + inside area a ≡ total (holds a) s.cores =
        λ a. omega (
          arith,
          total-set (holds a) s.cores i c c' g,
          holds-with_area a c area held,
          holds-NoArea a c' none_left,
        ) in
      let one : (a : Virtual) → count_used used a + inside area a ≤ 1 =
        λ a. ground (arith, v.partition a, sums a) in
      let here : inside area area.range.start ≡ 1 = ground (arith, ia.nonempty) in
      let absent =
        count_used-Absent area.range.start used v.used_map
          (omega (arith, one area.range.start, here)) in
      let count : (a : Virtual) → count_used sh.vmm.used a ≡ count_used used a + inside area a =
        λ a.
          ap (λ m. count_used m a) stored ∙ count-insert_used area.range.start area used a absent in
      let in_area : (a : Virtual)
          → l.tls_base ≤ a
          → a < l.tls_base + storage_size n
          → inside area a ≡ 1 =
        λ a p q.
          let lo : area.range.start ≤ a = omega (arith, base) in
          let hi : a < area.range.end = omega (arith, base, exact, ge) in ground (arith, lo, hi) in
      let was_free : (a : Virtual)
          → l.tls_base ≤ a
          → a < l.tls_base + storage_size n
          → count_used used a ≡ 0 =
        λ a p q. omega (arith, one a, in_area a p q) in
      let kept : (k : ThreadLocalInfo) → IsUsed n k used → IsUsed n k sh.vmm.used =
        λ k u a p q. omega (arith, count a, one a, u a p q) in
      let new : (d : Core) (k : ThreadLocalInfo) → c' ≡ d → d.local ≡ some k → l ≡ k =
        λ d k p q. some-injective l k (sym mine ∙ ap (λ (o : Core). o.local) p ∙ q) in
      record {
        free_map = rw free v.free_map;
        used_map = rw stored (insert_used-IsUsedMap area used ia v.used_map);
        partition = λ a. rw free (omega (arith, v.partition a, count a, sums a));
        taken = λ j d u h q. elim (set_cases s.cores i j c' d h) [
          | inl (_, p) ↦ absurd (none_left u (ap (λ (k : Core). k.phase) p ∙ q))
          | inr (_, h') ↦ v.taken j d u h' q
        ];
        used = λ j d k h q. elim (set_cases s.cores i j c' d h) [
          | inl (_, p) ↦
              subst (λ m. IsUsed n m sh.vmm.used) (new d k p q)
                (λ a lo hi. omega (arith, count a, was_free a lo hi, in_area a lo hi))
          | inr (_, h') ↦ kept k (v.used j d k h' q)
        ];
        own = λ j d k h q. elim (set_cases s.cores i j c' d h) [
          | inl (_, p) ↦
              ap current_id (sym (new d k p q))
              ∙ id
              ∙ ap (λ (o : SmpInfo). o.processor_id) (sym info ∙ ap (λ (o : Core). o.info) p)
          | inr (_, h') ↦ v.own j d k h' q
        ];
        apart = λ j k d f l1 l2 ne h h' q q'. elim (set_cases s.cores i j c' d h) [
          | inl (p, e) ↦ elim (set_cases s.cores i k c' f h') [
            | inl (p', _) ↦ absurd (ne (sym p ∙ p'))
            | inr (_, g') ↦
                subst (λ m. Disjoint n m l2) (new d l1 e q)
                  (swap n l2 l (used_apart n l2 l used (v.used k f l2 g' q') was_free))
          ]
          | inr (_, g') ↦ elim (set_cases s.cores i k c' f h') [
            | inl (p', e) ↦
                subst (Disjoint n l1) (new f l2 e q')
                  (used_apart n l1 l used (v.used j d l1 g' q) was_free)
            | inr (_, g'') ↦ v.apart j k d f l1 l2 ne g' g'' q q'
          ]
        ];
      }

  -- Only what the first core does changes.
  IsApart-boot : (n : ℕ) (s : System) (b : Boot) → IsApart n s → IsApart n (record s { boot = b })
  IsApart-boot n s b v = record {
    free_map = v.free_map;
    used_map = v.used_map;
    partition = v.partition;
    taken = v.taken;
    used = v.used;
    own = v.own;
    apart = v.apart;
  }

  -- A step of `ap_start`, by what it does with the storage.
  work-IsApart :
      (n : ℕ) (s : System) (i : ℕ) (c c' : Core) (t : Shared)
      → storage_size n + 0xFFF < 0x1_0000_0000_0000_0000
      → IsApart n s
      → get_elem? s.cores i ≡ some c
      → Storage n c c' s.shared t
      → IsApart n (record s { shared = t; cores = set s.cores i c' })
  work-IsApart n s i c c' t small v g w = elim w.change [
    | inl (same, vm, before, after) ↦
        IsApart-set n s s.boot t i c c' v (ap (λ (m : Vmm). m.used) vm) (rw vm v.free_map)
          (λ a. rw vm (omega (arith, holds-NoArea a c before, holds-NoArea a c' after)))
          (λ u q. absurd (after u q)) g same w.info
    | inr (inl (u, before, held, same, run)) ↦
        let (tk, us) = take_area-Taken n u s.shared.vmm t.vmm v.free_map small run in
        IsApart-set n s s.boot t i c c' v us tk.left
          (λ a. omega (arith, holds-NoArea a c before, holds-with_area a c' u held, tk.count a))
          (λ o q. subst (IsStorageArea n) (area_of (sym held ∙ q)) (tk.area, tk.exact)) g same
          w.info
    | inr (inr (u, l, held, after, mine, run)) ↦
        let (ia, exact) = v.taken i c u g held in
        let (al, ge, lt) = align_size_lem (storage_size n) small in
        let (id, base, free, stored) =
          use_area_lem n c.info u l s.shared.vmm t.vmm ia.from (omega (arith, exact, ge, ia.up_to))
            run in
        IsApart-store n s t i c c' l u small v g held after mine w.info id base free stored
  ]

  told_apart : {u : VirtualArea} → ¬ (Phase.told ≡ with_area u)
  told_apart e = cc

  Step-IsApart :
      {n first : ℕ} {s t : System}
      → storage_size n + 0xFFF < 0x1_0000_0000_0000_0000
      → IsCounted first s
      → IsApart n s
      → Step n first s t
      → IsApart n t
  Step-IsApart {n} {first} {s} small k v (tell i c b g z) =
      let pk : c.phase ≡ parked = k.untold i c g (omega (arith, reached_eq s b)) in
      IsApart-set n s (telling (suc i)) s.shared i c (record c { phase = told }) v refl v.free_map
        (λ a. ground (arith, pk)) (λ u q. absurd (told_apart q)) g refl refl
  Step-IsApart {n} {first} {s} small k v (skip i c b g z) = IsApart-boot n s (telling (suc i)) v
  Step-IsApart {n} {first} {s} small k v (all_told b) = IsApart-boot n s waiting v
  Step-IsApart {n} {first} {s} small k v (all_started b e) = IsApart-boot n s finished v
  Step-IsApart {n} {first} {s} small k v (work i c c' t ne g idle e) =
      work-IsApart n s i c c' t small v g
        (ap_step-Storage n c.info c.phase c.local c.table s.shared c' t e)

  -- If the storage is at least 4096 bytes below 2^64 in size, then the following holds at every point
  -- of the start, whatever the order of the cores' steps, provided that it holds at the beginning,
  -- together with `IsCounted`, which says which cores are still parked and how many are counted:
  -- each address of the vmalloc space is in exactly one area, which is free, used, or held by one
  -- core between the two locks of its allocation, and no other address is in any; the storage of
  -- each core is in use and names its core; and no two cores share a byte of storage.
  pub Steps-IsApart :
      {n first : ℕ} {s t : System}
      → storage_size n + 0xFFF < 0x1_0000_0000_0000_0000
      → IsCounted first s
      → IsApart n s
      → Steps n first s t
      → IsApart n t
  Steps-IsApart small k v stop = v
  Steps-IsApart small k v (later r st) =
      Step-IsApart small (Steps-IsCounted k r) (Steps-IsApart small k v r) st
