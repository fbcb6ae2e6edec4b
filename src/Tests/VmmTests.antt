-- ===== src/Tests/VmmTests.antt =====
-- The vmalloc space: two pages are allocated and deallocated.
use silicium_rs.Base.{
  some, ◌≤◌, ap, ℕ, ◌+◌, ◌-◌, ◌*◌, ◌/◌, ◌≡◌, ◌⊎◌, ◌&&◌, done, panicked, refl, arith, List, [], ◌∷◌,
  true, ltb, leb, not_implemented, add64,
}
use silicium_rs.Crates.VirtualRanges.{VirtualRange, VirtualRanges, pages_from}
use silicium_rs.Vmm.{
  FreeMap, Vmm, VirtualArea, allocated, refused, new_area, virtual_range, vmalloc_start,
  vmalloc_end, push_free, first_fit, insert_free, insert_free_vma, insert_used, insert_used_vma,
  split_area, find_free_first_fit, align_size, area_flags, allocate, deallocate, setup,
}
use silicium_rs.Vmm.Areas.{NoFit}
use silicium_rs.Vmm.BestFit.{Least, first_fit-Least}
use silicium_rs.Vmm.FirstFit.{IsVmm}
use silicium_rs.Vmm.Allocate.{RangeTaken, Vmm_allocate_cases, setup-IsVmm}
use silicium_rs.Vmm.Deallocate.{Vmm_deallocate-allocate}
use silicium_rs.Tests.Bits.{bits, contains}
use silicium_rs.Tests.Machine.{addresses}
use silicium_rs.Tests.Entries.{page_tables}
use silicium_rs.Tests.PagingTests.{machine}

abbrev pub range_pages : VirtualRange → List ℕ
range_pages r = pages_from r.start ((r.end - r.start) / 4096)

pub range_pages_lem :
    (r : VirtualRange) (n : ℕ) → r.end ≡ r.start + n * 4096 → range_pages r ≡ pages_from r.start n
range_pages_lem r n h = ap (pages_from r.start) (omega arith)

instance abbrev pub ranges : VirtualRanges
ranges = record {
  size = λ r. r.end - r.start;
  contains = λ r a. leb r.start a && ltb a r.end;
  pages = range_pages;
  size_lem = λ r h. refl;
  contains_lem = λ r a. refl;
  pages_lem = range_pages_lem;
}

-- The areas after `setup`.
abbrev fresh : Vmm
fresh = record {
  free = (0x1000_0000_0000, new_area (virtual_range vmalloc_start vmalloc_end) 0 ∷ []) ∷ [];
  used = [];
}

fresh-IsVmm : IsVmm fresh
unfolding setup insert_free_vma insert_free push_free
fresh-IsVmm = setup-IsVmm

abbrev two_pages : VirtualRange
two_pages = virtual_range 0xFFFF_A000_0000_0000 0xFFFF_A000_0000_2000

-- 5000 bytes, to be zeroed.
abbrev pub later : Vmm
later = record {
  free =
      (0xFFF_FFFF_E000, new_area (virtual_range 0xFFFF_A000_0000_2000 vmalloc_end) 0 ∷ [])
      ∷ (0x1000_0000_0000, [])
      ∷ [];
  used = (0xFFFF_A000_0000_0000, new_area two_pages 8) ∷ [];
}

allocate_test : allocate 5000 8 fresh ≡ done (allocated two_pages, later)
unfolding allocate find_free_first_fit first_fit split_area align_size add64 insert_free push_free
    insert_used_vma insert_used
allocate_test = refl

Vmm_allocate_cases_example :
    ((allocate 5000 8 fresh ≡ done (refused, fresh)) × NoFit (align_size 5000) fresh.free)
    ⊎ ((contains 8 2 ≡ true) × (allocate 5000 8 fresh ≡ panicked not_implemented))
    ⊎ ((r : VirtualRange) × (s' : Vmm) × (allocate 5000 8 fresh ≡ done (allocated r, s'))
        × RangeTaken (align_size 5000) (area_flags 8) r fresh s')
Vmm_allocate_cases_example = Vmm_allocate_cases 5000 8 fresh fresh-IsVmm (omega arith) (omega arith)

Vmm_deallocate-allocate_example :
    (t : Vmm) × (deallocate 0 two_pages later machine ≡ done (t, machine)) × (t.used ≡ []) × IsVmm t
Vmm_deallocate-allocate_example =
    Vmm_deallocate-allocate 5000 8 0 two_pages fresh later machine fresh-IsVmm (omega arith)
      (omega arith) refl allocate_test

abbrev last : Vmm
last = record {
  free =
      (0x2000, new_area two_pages 8 ∷ [])
      ∷ (0xFFF_FFFF_E000, new_area (virtual_range 0xFFFF_A000_0000_2000 vmalloc_end) 0 ∷ [])
      ∷ (0x1000_0000_0000, [])
      ∷ [];
  used = [];
}

pub later-IsVmm : IsVmm later
later-IsVmm = record {
  free = (
    (
      (
        record {
          start_aligned = refl;
          end_aligned = refl;
          nonempty = omega arith;
          from = omega arith;
          up_to = omega arith;
        },
        refl,
      ),
      tt,
    ),
    (tt, tt),
  );
  used = (
    (
      record {
        start_aligned = refl;
        end_aligned = refl;
        nonempty = omega arith;
        from = omega arith;
        up_to = omega arith;
      },
      refl,
    ),
    tt,
  );
  partition = λ a. ground arith;
}

-- Zero bytes are an area too, which displaces another one that starts at its address: the two
-- pages that were in use are lost.
abbrev empty_area : VirtualArea
empty_area = new_area (virtual_range 0xFFFF_A000_0000_0000 0xFFFF_A000_0000_0000) 0

abbrev with_empty : Vmm
with_empty = record { free = (0, empty_area ∷ []) ∷ later.free; used = later.used }

abbrev displaced : Vmm
displaced = record { free = (0, []) ∷ later.free; used = (0xFFFF_A000_0000_0000, empty_area) ∷ [] }

zero_size_test : allocate 0 0 with_empty ≡ done (allocated empty_area.range, displaced)
unfolding allocate find_free_first_fit first_fit split_area align_size add64 insert_used_vma
    insert_used
zero_size_test = refl

abbrev rest : VirtualArea
rest = new_area (virtual_range 0xFFFF_A000_0000_2000 vmalloc_end) 0

first_fit_test :
    first_fit 0x3000 last.free
    ≡ some (
      rest,
      (0x2000, new_area two_pages 8 ∷ []) ∷ (0xFFF_FFFF_E000, []) ∷ (0x1000_0000_0000, []) ∷ [],
    )
unfolding first_fit
first_fit_test = refl

abbrev last_after : FreeMap
last_after =
    (0x2000, new_area two_pages 8 ∷ []) ∷ (0xFFF_FFFF_E000, []) ∷ (0x1000_0000_0000, []) ∷ []

last-IsVmm : IsVmm last
last-IsVmm = record {
  free = (
    (
      (
        record {
          start_aligned = refl;
          end_aligned = refl;
          nonempty = omega arith;
          from = omega arith;
          up_to = omega arith;
        },
        refl,
      ),
      tt,
    ),
    (
      (
        (
          record {
            start_aligned = refl;
            end_aligned = refl;
            nonempty = omega arith;
            from = omega arith;
            up_to = omega arith;
          },
          refl,
        ),
        tt,
      ),
      (tt, tt),
    ),
  );
  used = tt;
  partition = λ a. ground arith;
}

first_fit-Least_example :
    (n : ℕ) × (rest.range.end ≡ rest.range.start + n) × (0x3000 ≤ n) × Least 0x3000 n last.free
first_fit-Least_example =
    first_fit-Least 0x3000 last.free last_after rest last-IsVmm.free
      ((omega arith, (omega arith, tt)), ((omega arith, tt), (tt, tt))) first_fit_test
