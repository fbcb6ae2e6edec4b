-- ===== src/Vmm/Allocate.antt =====
-- `setup` and `allocate`: the areas stay a partition of the vmalloc space.
use silicium_rs.Base.{
  ℕ, ◌+◌, ◌%◌, ◌<◌, ◌≤◌, ◌≡◌, refl, ◌⊎◌, inl, inr, true, [], arith, Bool-cases, done, panicked,
  not_implemented, add64-eq,
}
use silicium_rs.Crates.Addresses.{Addresses, Virtual}
use silicium_rs.Crates.BitFlags.{BitFlags}
use silicium_rs.Crates.VirtualRanges.{VirtualRange, VirtualRanges}
use silicium_rs.Vmm.{
  VirtualArea, FreeMap, Vmm, allocated, refused, new_area, virtual_range, vmalloc_start,
  vmalloc_end, insert_used, insert_used_vma, insert_free_vma, align_size, area_flags, atomic_flag,
  allocate, setup,
}
use silicium_rs.Vmm.FirstFit.{
  IsVmm, Taken, count-insert_free, insert_free-IsFreeMap, find_free_first_fit_cases,
}
use silicium_rs.Vmm.Areas.{
  inside, count_free, count_used, IsSized, NoFit, Absent, count_used-Absent, count-insert_used,
  insert_used-IsUsedMap,
}

pub align_size_lem :
    (size : ℕ)
    → size + 0xFFF < 0x1_0000_0000_0000_0000
    → (align_size size % 4096 ≡ 0) × (size ≤ align_size size) × (align_size size < size + 4096)
unfolding align_size
align_size_lem size h =
    let e = add64-eq size 0xFFF h in (omega arith, omega (arith, e), omega (arith, e))

-- The range is `size` bytes of whole pages of the vmalloc space, which were free and are used.
pub record RangeTaken (size flags : ℕ) (r : VirtualRange) (s s' : Vmm) : Type 0 where
  pub start_aligned : r.start % 4096 ≡ 0
  pub exact : r.end ≡ r.start + size
  pub from : vmalloc_start ≤ r.start
  pub up_to : r.end ≤ vmalloc_end
  pub was_free : (a : Virtual) → r.start ≤ a → a < r.end → count_used s.used a ≡ 0
  pub is_used : (a : Virtual) → r.start ≤ a → a < r.end → count_used s'.used a ≡ 1
  pub others :
      (a : Virtual) → (a < r.start) ⊎ (r.end ≤ a) → count_used s'.used a ≡ count_used s.used a
  pub absent : Absent r.start s.used
  pub stored : s'.used ≡ insert_used r.start (new_area r flags) s.used
  pub valid : IsVmm s'

partition-le-1 : (s : Vmm) (a : Virtual) → IsVmm s → count_free s.free a + count_used s.used a ≤ 1
partition-le-1 s a w = ground (arith, w.partition a)

RangeTaken-insert_used :
    (size flags : ℕ) (v : VirtualArea) (m' : FreeMap) (s : Vmm)
    → IsVmm s
    → Taken size s.free v m'
    → let v' = record v { flags = flags } in
      RangeTaken size flags v.range s
        (record { free = m'; used = insert_used v.range.start v' s.used })
RangeTaken-insert_used size flags v m' s w t =
    let i = t.area in
    let v' = record v { flags = flags } in
    let here : inside v v.range.start ≡ 1 = ground (arith, i.nonempty) in
    let none_used : count_used s.used v.range.start ≡ 0 =
      omega (arith, partition-le-1 s v.range.start w, t.count v.range.start, here) in
    let absent = count_used-Absent v.range.start s.used w.used none_used in
    let count = λ (a : Virtual). count-insert_used v.range.start v' s.used a absent in
    record {
      start_aligned = i.start_aligned;
      exact = t.exact;
      from = i.from;
      up_to = i.up_to;
      was_free = λ a p q.
          let in_v : inside v a ≡ 1 = ground (arith, p, q) in
          omega (arith, partition-le-1 s a w, t.count a, in_v);
      is_used = λ a p q.
          let in_v : inside v a ≡ 1 = ground (arith, p, q) in
          omega (arith, partition-le-1 s a w, t.count a, in_v, count a);
      others = λ a o. let out : inside v a ≡ 0 = ground (arith, o) in omega (arith, count a, out);
      absent = absent;
      stored = refl;
      valid = record {
        free = t.left;
        used =
            insert_used-IsUsedMap v' s.used
              (record {
                start_aligned = i.start_aligned;
                end_aligned = i.end_aligned;
                nonempty = i.nonempty;
                from = i.from;
                up_to = i.up_to;
              })
              w.used;
        partition = λ a. omega (arith, w.partition a, t.count a, count a);
      };
    }

module _ ⦃x : Addresses⦄ ⦃bits : BitFlags⦄ ⦃ranges : VirtualRanges⦄ where
  -- `allocate` of a size that is not 0 and at least 4096 below 2^64, where the areas are a
  -- partition of the vmalloc space: either it refuses and changes nothing, and no free area has
  -- the size rounded up to pages; or the flags contain `atomic` and it panics; or it returns whole
  -- pages of exactly that size, which were in no used area and now are in one, no other address
  -- becomes used or unused, and the areas stay a partition.
  pub Vmm_allocate_cases :
      (size flags : ℕ) (s : Vmm)
      → IsVmm s
      → 0 < size
      → size + 0xFFF < 0x1_0000_0000_0000_0000
      → ((allocate size flags s ≡ done (refused, s)) × NoFit (align_size size) s.free)
        ⊎ ((bits.contains flags atomic_flag ≡ true)
            × (allocate size flags s ≡ panicked not_implemented))
        ⊎ ((r : VirtualRange) × (s' : Vmm) × (allocate size flags s ≡ done (allocated r, s'))
            × RangeTaken (align_size size) (area_flags flags) r s s')
  unfolding allocate insert_used_vma
  Vmm_allocate_cases size flags s w pos fits =
      let (al, ge, _) = align_size_lem size fits in
      elim (find_free_first_fit_cases (align_size size) s.free (omega (arith, ge)) al w.free) [
        | inl (e, n) ↦ inl (ground (arith, e), n)
        | inr (v, m', e, t) ↦ elim (Bool-cases (bits.contains flags atomic_flag)) [
          | inl a ↦ inr (inl (a, ground (arith, e, a)))
          | inr a ↦ inr (
              inr (
                v.range,
                record {
                  free = m';
                  used = insert_used v.range.start (record v { flags = area_flags flags }) s.used;
                },
                ground (arith, e, a),
                RangeTaken-insert_used (align_size size) (area_flags flags) v m' s w t,
              ))
        ]
      ]

module _ ⦃x : Addresses⦄ ⦃ranges : VirtualRanges⦄ where
  -- After `setup` of empty maps the areas are a partition of the vmalloc space.
  pub setup-IsVmm : IsVmm (setup (record { free = []; used = [] }))
  unfolding setup insert_free_vma
  setup-IsVmm =
      let whole : VirtualArea = new_area (virtual_range vmalloc_start vmalloc_end) 0 in
      let sized : IsSized 0x1000_0000_0000 whole = (
        record {
          start_aligned = refl;
          end_aligned = refl;
          nonempty = omega arith;
          from = omega arith;
          up_to = omega arith;
        },
        refl,
      ) in
      record {
        free = insert_free-IsFreeMap 0x1000_0000_0000 whole [] sized tt;
        used = tt;
        partition = λ a. omega (arith, count-insert_free 0x1000_0000_0000 whole [] a sized);
      }
