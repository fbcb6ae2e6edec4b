-- ===== src/Vmm/Deallocate.antt =====
-- `deallocate`: the area becomes free, and its pages are unmapped.
use mathlib.Core.Path.{subst₂}
use silicium_rs.Base.{
  ◌∙◌, ap, subst, ℕ, ◌+◌, ◌-◌, ◌<◌, ◌≤◌, ◌≡◌, refl, ◌⊎◌, inl, inr, false, some, if◌then◌else◌,
  arith, done, >>=-eq-done, done_unique, done_injective,
}
use silicium_rs.Crates.Addresses.{Addresses, Virtual}
use silicium_rs.Crates.BitFlags.{BitFlags}
use silicium_rs.Crates.PageTables.{PageTables}
use silicium_rs.Crates.VirtualRanges.{VirtualRange, VirtualRanges}
use silicium_rs.Paging.{Machine}
use silicium_rs.Vmm.{
  VirtualArea, UsedMap, Vmm, allocated, refused, map_flag, zeroed_flag, align_size, insert_free_vma,
  remove_used, unmap_pages, allocate, deallocate, new_area, area_flags,
}
use silicium_rs.Vmm.Areas.{
  inside, count_free, count_used, IsArea, IsSized, Removed, remove_used_cases,
  remove_used-insert_used,
}
use silicium_rs.Vmm.FirstFit.{IsVmm, count-insert_free, insert_free-IsFreeMap}
use silicium_rs.Vmm.Allocate.{RangeTaken, Vmm_allocate_cases}

-- The area that starts where the range does is free and no other address changes.
pub record Returned (start : Virtual) (v : VirtualArea) (s s' : Vmm) : Type 0 where
  pub found : v.range.start ≡ start
  pub was_used : (a : Virtual) → v.range.start ≤ a → a < v.range.end → count_used s.used a ≡ 1
  pub is_free : (a : Virtual) → v.range.start ≤ a → a < v.range.end → count_free s'.free a ≡ 1
  pub others :
      (a : Virtual)
      → (a < v.range.start) ⊎ (v.range.end ≤ a)
      → count_used s'.used a ≡ count_used s.used a
  pub valid : IsVmm s'

IsSized-IsArea : (v : VirtualArea) → IsArea v → IsSized (v.range.end - v.range.start) v
IsSized-IsArea v i = (i, omega (arith, i.nonempty))

module _ ⦃x : Addresses⦄ ⦃bits : BitFlags⦄ ⦃pt : PageTables⦄ ⦃ranges : VirtualRanges⦄ where
  Returned-Removed :
      (s : Vmm) (v : VirtualArea) (m : UsedMap) (start : Virtual)
      → IsVmm s
      → Removed start s.used v m
      → Returned start v s (insert_free_vma v (record s { used = m }))
  unfolding insert_free_vma
  Returned-Removed s v m start w r =
      let k = v.range.end - v.range.start in
      let z = IsSized-IsArea v r.area in
      let count = λ (a : Virtual). count-insert_free k v s.free a z in
      record {
        found = r.start;
        was_used = λ a p q.
            let in_v : inside v a ≡ 1 = ground (arith, p, q) in
            ground (arith, w.partition a, r.count a, in_v);
        is_free = λ a p q.
            let in_v : inside v a ≡ 1 = ground (arith, p, q) in
            ground (arith, w.partition a, r.count a, count a, in_v);
        others =
            λ a o. let out : inside v a ≡ 0 = ground (arith, o) in omega (arith, r.count a, out);
        valid = record {
          free = insert_free-IsFreeMap k v s.free z w.free;
          used = r.left;
          partition = λ a. omega (arith, w.partition a, r.count a, count a);
        };
      }

  pub Vmm_deallocate-Returned :
      (table : Virtual) (r : VirtualRange) (s s' : Vmm) (machine machine' : Machine)
      → IsVmm s
      → deallocate table r s machine ≡ done (s', machine')
      → (v : VirtualArea) × Returned r.start v s s'
  unfolding deallocate
  Vmm_deallocate-Returned table r s s' machine machine' w e =
      elim (remove_used_cases r.start s.used w.used) [
        | inl (q, _) ↦ absurd (ground (arith, q, e))
        | inr (v, m, q, d) ↦
            let run =
              if bits.contains v.flags map_flag
              then unmap_pages table (ranges.pages v.range) machine
              else done machine in
            let (after, f, g) = >>=-eq-done run _ (rw q at e) in
            (
              v,
              subst (Returned r.start v s) (ap (λ z. z.0) (done_injective g))
                  (Returned-Removed s v m r.start w d),
            )
      ]

  -- Where the areas are a partition of the vmalloc space, deallocating a range that was allocated
  -- without `map`, for a size that is not 0 and at least 4096 below 2^64, returns without a panic,
  -- changes nothing beside the areas, and leaves the used areas as they were before the allocation
  -- and the areas a partition.
  pub Vmm_deallocate-allocate :
      (size flags : ℕ) (table : Virtual) (r : VirtualRange) (s s' : Vmm) (machine : Machine)
      → IsVmm s
      → 0 < size
      → size + 0xFFF < 0x1_0000_0000_0000_0000
      → bits.contains flags map_flag ≡ false
      → allocate size flags s ≡ done (allocated r, s')
      → (t : Vmm) × (deallocate table r s' machine ≡ done (t, machine))
        × (t.used ≡ s.used)
        × IsVmm t
  unfolding deallocate insert_free_vma
  Vmm_deallocate-allocate size flags table r s s' machine w pos fits no_map e =
      elim (Vmm_allocate_cases size flags s w pos fits) [
        | inl (q, _) ↦ absurd (ground (arith, done_unique q e))
        | inr (inl (_, q)) ↦ absurd (ground (arith, q, e))
        | inr (inr (r0, s0, q, t0)) ↦
            let same = done_unique q e in
            let r_same : r0 ≡ r = range_of (ap (λ z. z.0) same) in
            let t =
              subst₂ (λ a b. RangeTaken (align_size size) (area_flags flags) a s b) r_same
                (ap (λ z. z.1) same) t0 in
            let v : VirtualArea = new_area r (area_flags flags) in
            let found : remove_used r.start s'.used ≡ some (v, s.used) =
              ap (remove_used r.start) t.stored
              ∙ remove_used-insert_used r.start v s.used t.absent in
            let plain : bits.contains (area_flags flags) map_flag ≡ false =
              ground
                (arith, bits.contains-truncate (bits.union map_flag zeroed_flag) flags 2, no_map) in
            let run : deallocate table r s' machine
                ≡ done (insert_free_vma v (record s' { used = s.used }), machine) =
              ground (arith, found, plain) in
            let (_, ret) =
              Vmm_deallocate-Returned table r s' (insert_free_vma v (record s' { used = s.used }))
                machine machine t.valid run in
            (insert_free_vma v (record s' { used = s.used }), run, refl, ret.valid)
      ]
    where
      range_of : {a b : VirtualRange} → allocated a ≡ allocated b → a ≡ b
      range_of h = ap (λ i. elim i [ allocated c ↦ c | refused ↦ r ]) h
