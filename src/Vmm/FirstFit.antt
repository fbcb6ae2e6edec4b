-- ===== src/Vmm/FirstFit.antt =====
-- The areas as a partition of the vmalloc space, and the area that `find_free_first_fit` takes.
use silicium_rs.Base.{
  ◌∙◌, ap, ℕ, ◌+◌, ◌-◌, ◌%◌, ◌<◌, ◌≤◌, ◌≡◌, refl, ◌⊎◌, inl, inr, none, some, ltb, leb, ◌&&◌,
  if◌then◌else◌, arith, Bool-cases, done,
}
use silicium_rs.Crates.Addresses.{Addresses, Virtual}
use silicium_rs.Crates.VirtualRanges.{VirtualRanges}
use silicium_rs.Vmm.{
  VirtualArea, FreeMap, Vmm, new_area, virtual_range, vmalloc_start, vmalloc_end, push_free,
  insert_free, split_area, find_free_first_fit,
}
use silicium_rs.Vmm.Areas.{
  inside, count_free, count_used, IsArea, IsSized, IsFreeMap, IsUsedMap, count-push_free,
  push_free-IsFreeMap, NoFit, Popped, first_fit_cases,
}

-- Every address of the vmalloc space is in exactly one area, free or used, and no other address
-- is in any.
pub record IsVmm (s : Vmm) : Type 0 where
  pub free : IsFreeMap s.free
  pub used : IsUsedMap s.used
  pub partition :
      (a : Virtual)
      → count_free s.free a + count_used s.used a
        ≡ (if leb vmalloc_start a && ltb a vmalloc_end then 1 else 0)

-- An area out of a free map: of the size, and with the rest of its addresses still free.
pub record Taken (size : ℕ) (m : FreeMap) (v : VirtualArea) (m' : FreeMap) : Type 0 where
  pub area : IsArea v
  pub exact : v.range.end ≡ v.range.start + size
  pub left : IsFreeMap m'
  pub count : (a : Virtual) → count_free m a ≡ count_free m' a + inside v a

module _ ⦃x : Addresses⦄ ⦃ranges : VirtualRanges⦄ where
  insert_free-eq :
      (k : ℕ) (v : VirtualArea) (m : FreeMap) → IsSized k v → insert_free v m ≡ push_free k v m
  unfolding insert_free
  insert_free-eq k v m h =
      ap (λ (i : ℕ). push_free i v m)
        (ranges.size_lem v.range (omega (arith, h.0.nonempty)) ∙ omega (arith, h.1))

  pub count-insert_free :
      (k : ℕ) (v : VirtualArea) (m : FreeMap) (a : Virtual)
      → IsSized k v
      → count_free (insert_free v m) a ≡ count_free m a + inside v a
  count-insert_free k v m a h = rw (insert_free-eq k v m h) (count-push_free k v m a)

  pub insert_free-IsFreeMap :
      (k : ℕ) (v : VirtualArea) (m : FreeMap)
      → IsSized k v
      → IsFreeMap m
      → IsFreeMap (insert_free v m)
  insert_free-IsFreeMap k v m h w = rw (insert_free-eq k v m h) (push_free-IsFreeMap k v m h w)

  -- An area is the areas before and after an address in it.
  inside-split :
      (v : VirtualArea) (mid : Virtual) (f g : ℕ) (a : Virtual)
      → v.range.start ≤ mid
      → mid ≤ v.range.end
      → inside (new_area (virtual_range v.range.start mid) f) a
          + inside (new_area (virtual_range mid v.range.end) g) a
        ≡ inside v a
  inside-split v mid f g a h k = ground arith

  split_area_lem :
      (size : ℕ) (m : FreeMap) (v : VirtualArea) (m' : FreeMap)
      → 0 < size
      → size % 4096 ≡ 0
      → Popped size m v m'
      → (w : VirtualArea) × (m'' : FreeMap) × (split_area size v m' ≡ done (w, m''))
        × Taken size m w m''
  unfolding split_area
  split_area_lem size m v m' pos al p =
      let i = p.sized.0 in
      let len : v.range.end ≡ v.range.start + p.length = p.sized.1 in
      let sz : ranges.size v.range ≡ p.length =
        ranges.size_lem v.range (omega (arith, i.nonempty)) ∙ omega arith in
      elim (Bool-cases (ltb size (ranges.size v.range))) [
        | inl q ↦
            let mid = v.range.start + size in
            let lt : size < p.length = ground arith in
            let add =
              x.virtual_add-high v.range.start size (omega (arith, i.from))
                (omega (arith, i.up_to, p.fits)) in
            let rest = new_area (virtual_range mid v.range.end) 0 in
            let rest_sized : IsSized (p.length - size) rest = (
              record {
                start_aligned = omega (arith, i.start_aligned);
                end_aligned = i.end_aligned;
                nonempty = omega arith;
                from = omega (arith, i.from);
                up_to = i.up_to;
              },
              omega arith,
            ) in
            (
              record v { range = virtual_range v.range.start mid },
              insert_free rest m',
              rw (q, add) refl,
              record {
                area = record {
                  start_aligned = i.start_aligned;
                  end_aligned = omega (arith, i.start_aligned);
                  nonempty = omega arith;
                  from = i.from;
                  up_to = omega (arith, i.up_to);
                };
                exact = refl;
                left = insert_free-IsFreeMap (p.length - size) rest m' rest_sized p.left;
                count = λ a. omega (
                  arith,
                  p.count a,
                  count-insert_free (p.length - size) rest m' a rest_sized,
                  inside-split v mid v.flags 0 a (omega arith) (omega arith),
                );
              },
            )
        | inr q ↦
            let eq : size ≡ p.length = ground (arith, p.fits) in
            (
              v,
              m',
              rw q refl,
              record { area = i; exact = omega arith; left = p.left; count = p.count },
            )
      ]

  pub find_free_first_fit_cases :
      (size : ℕ) (m : FreeMap)
      → 0 < size
      → size % 4096 ≡ 0
      → IsFreeMap m
      → ((find_free_first_fit size m ≡ done (none, m)) × NoFit size m)
        ⊎ ((v : VirtualArea) × (m' : FreeMap) × (find_free_first_fit size m ≡ done (some v, m'))
            × Taken size m v m')
  unfolding find_free_first_fit
  find_free_first_fit_cases size m pos al w = elim (first_fit_cases size m w) [
    | inl (e, n) ↦ inl (ground (arith, e), n)
    | inr (v, m', e, p) ↦
        let (u, m'', q, t) = split_area_lem size m v m' pos al p in
        inr (u, m'', ground (arith, e, q), t)
  ]
