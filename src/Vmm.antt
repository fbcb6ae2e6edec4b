-- ===== src/Vmm.antt =====
-- src/mm/vmm.rs: the areas of the vmalloc space, free ones by their size and used ones by their
-- start. A `BTreeMap` is the list of its entries in the order of their keys, and a `Vec` of areas
-- is the list of its elements, the last one first, since it is only pushed to and popped from.
pub mod Areas
pub mod FirstFit
pub mod BestFit
pub mod Allocate
pub mod Deallocate
use silicium_rs.Base.{
  ℕ, zero, suc, ◌+◌, ◌-◌, ◌*◌, ◌/◌, ◌^◌, Bool, true, false, not, ◌&&◌, Option, none, some, List, [],
  ◌∷◌, ◌==◌, ltb, leb, if◌then◌else◌, Outcome, done, panicked, ◌>>=◌, ◌>>◌, guard, or_panic,
  unwrap_none, not_implemented, page_already_mapped, add64,
}
use silicium_rs.Crates.Addresses.{Addresses, Virtual}
use silicium_rs.Crates.BitFlags.{BitFlags}
use silicium_rs.Crates.PageTables.{PageTables}
use silicium_rs.Crates.VirtualRanges.{VirtualRange, VirtualRanges}
use silicium_rs.Frame.{Frame, new}
use silicium_rs.Frame.Flags
use silicium_rs.Allocator
use silicium_rs.Allocator.{Frames}
use silicium_rs.Paging.{
  Machine, MapResult, MapError, ok, err, out_of_memory, already_mapped, map, unmap, present,
  writable,
}

-- `AllocationFlags`; the private `Flags` have the bits of `map_flag` and `zeroed_flag`.
abbrev pub atomic_flag : ℕ
atomic_flag = 2 ^ 1

abbrev pub map_flag : ℕ
map_flag = 2 ^ 2

abbrev pub zeroed_flag : ℕ
zeroed_flag = 2 ^ 3

abbrev pub vmalloc_start : Virtual
vmalloc_start = 0xFFFF_A000_0000_0000

abbrev pub vmalloc_end : Virtual
vmalloc_end = 0xFFFF_B000_0000_0000

pub record VirtualArea : Type 0 where
  pub range : VirtualRange
  pub flags : ℕ

abbrev pub virtual_range : Virtual → Virtual → VirtualRange
virtual_range start end = record { start = start; end = end }

abbrev pub new_area : VirtualRange → ℕ → VirtualArea
new_area range flags = record { range = range; flags = flags }

abbrev pub FreeMap : Type 0
FreeMap = List (ℕ × List VirtualArea)

abbrev pub UsedMap : Type 0
UsedMap = List (Virtual × VirtualArea)

-- `FREE_VMA` and `USED_VMA`.
pub record Vmm : Type 0 where
  pub free : FreeMap
  pub used : UsedMap

pub data AllocationResult : Type 0 where
  allocated : VirtualRange → AllocationResult
  refused : AllocationResult

-- `PageFaultError`, as far as the vmalloc space returns it, and the others.
abbrev pub missing_page : ℕ
missing_page = 2 ^ 1

abbrev pub oom_error : ℕ
oom_error = 2 ^ 5

abbrev pub not_mappable : ℕ
not_mappable = 2 ^ 6

pub data Handled : Type 0 where
  handled : Handled
  failed : ℕ → Handled

-- `get_mut` and `push`, or `insert` if there is no entry.
unfoldable pub push_free : ℕ → VirtualArea → FreeMap → FreeMap
push_free len v [] = (len, v ∷ []) ∷ []
push_free len v ((k, vs) ∷ m) =
    if len == k
    then (k, v ∷ vs) ∷ m
    else if ltb len k
    then (len, v ∷ []) ∷ (k, vs) ∷ m
    else (k, vs) ∷ push_free len v m

-- The area that is popped and the map that is left: of the first entry that is large enough and
-- not empty.
unfoldable pub first_fit : ℕ → FreeMap → Option (VirtualArea × FreeMap)
first_fit size [] = none
first_fit size ((k, []) ∷ m) = elim (first_fit size m) [
  | none ↦ none
  | some (v, m') ↦ some (v, (k, []) ∷ m')
]
first_fit size ((k, v ∷ vs) ∷ m) =
    if leb size k
    then some (v, (k, vs) ∷ m)
    else elim (first_fit size m) [ none ↦ none | some (w, m') ↦ some (w, (k, v ∷ vs) ∷ m') ]

-- `USED_VMA.insert`, which replaces an entry with the same key.
unfoldable pub insert_used : Virtual → VirtualArea → UsedMap → UsedMap
insert_used a v [] = (a, v) ∷ []
insert_used a v ((b, w) ∷ m) =
    if a == b
    then (a, v) ∷ m
    else if ltb a b
    then (a, v) ∷ (b, w) ∷ m
    else (b, w) ∷ insert_used a v m

-- `USED_VMA.remove`.
unfoldable pub remove_used : Virtual → UsedMap → Option (VirtualArea × UsedMap)
remove_used a [] = none
remove_used a ((b, w) ∷ m) =
    if a == b
    then some (w, m)
    else elim (remove_used a m) [ none ↦ none | some (v, m') ↦ some (v, (b, w) ∷ m') ]

unfoldable pub insert_used_vma : VirtualArea → Vmm → Vmm
insert_used_vma v s = record s { used = insert_used v.range.start v s.used }

module _ ⦃ranges : VirtualRanges⦄ where
  unfoldable pub insert_free : VirtualArea → FreeMap → FreeMap
  insert_free v m = push_free (ranges.size v.range) v m

  unfoldable pub insert_free_vma : VirtualArea → Vmm → Vmm
  insert_free_vma v s = record s { free = insert_free v s.free }

  unfoldable pub setup : Vmm → Vmm
  setup s = insert_free_vma (new_area (virtual_range vmalloc_start vmalloc_end) 0) s

  -- The first used area that contains the address.
  unfoldable pub find_used : Virtual → UsedMap → Option VirtualArea
  find_used a [] = none
  find_used a ((b, w) ∷ m) = if ranges.contains w.range a then some w else find_used a m

module _ ⦃x : Addresses⦄ ⦃ranges : VirtualRanges⦄ where
  -- What `find_free_first_fit` does with the area that it has popped.
  unfoldable pub split_area : ℕ → VirtualArea → FreeMap → Outcome (VirtualArea × FreeMap)
  split_area size v m =
      if ltb size (ranges.size v.range)
      then (do
        mid ← x.virtual_add v.range.start size
        let split = new_area (virtual_range mid v.range.end) 0
        done (record v { range = virtual_range v.range.start mid }, insert_free split m))
      else done (v, m)

  unfoldable pub find_free_first_fit : ℕ → FreeMap → Outcome (Option VirtualArea × FreeMap)
  find_free_first_fit size m = elim (first_fit size m) [
    | none ↦ done (none, m)
    | some (v, m') ↦ do (w, m'') ← split_area size v m'; done (some w, m'')
  ]

-- The size that is allocated, `size.wrapping_add(0xFFF) & !0xFFF`.
unfoldable pub align_size : ℕ → ℕ
align_size size = add64 size 0xFFF / 4096 * 4096

module _ ⦃x : Addresses⦄ ⦃bits : BitFlags⦄ ⦃ranges : VirtualRanges⦄ where
  -- The area's flags, `Flags::from_bits_truncate(flags.bits)`.
  abbrev pub area_flags : ℕ → ℕ
  area_flags flags = bits.truncate (bits.union map_flag zeroed_flag) flags

  unfoldable pub allocate : ℕ → ℕ → Vmm → Outcome (AllocationResult × Vmm)
  allocate size flags s = do
    (found, free) ← find_free_first_fit (align_size size) s.free
    elim found [
      | none ↦ done (refused, record s { free = free })
      | some v ↦ do
        guard (not (bits.contains flags atomic_flag)) not_implemented
        let v' = record v { flags = area_flags flags }
        done (allocated v'.range, insert_used_vma v' (record s { free = free }))
    ]

module _ ⦃x : Addresses⦄ ⦃bits : BitFlags⦄ ⦃pt : PageTables⦄ where
  -- A page fault in an area that may be mapped.
  unfoldable pub map_page : Virtual → Virtual → VirtualArea → Frames → Outcome (Handled × Frames)
  map_page table addr v s = do
    let flags = if bits.contains v.flags zeroed_flag then Flags.zeroed else 0
    (found, s) ← Allocator.allocate flags s
    elim found [
      | none ↦ done (failed oom_error, s)
      | some frame ↦ do
        (result, s) ← map table addr frame (bits.union present writable) s
        elim result [
          | ok ↦ done (handled, s)
          | err out_of_memory ↦ done (failed oom_error, s)
          | err already_mapped ↦ panicked page_already_mapped
        ]
    ]

module _ ⦃x : Addresses⦄ ⦃bits : BitFlags⦄ ⦃pt : PageTables⦄ ⦃ranges : VirtualRanges⦄ where
  -- The loop over the pages of an area: each page that is mapped is unmapped from the active
  -- table and its frame deallocated.
  unfoldable pub unmap_pages : Virtual → List Virtual → Machine → Outcome Machine
  unmap_pages table [] s = done s
  unmap_pages table (page ∷ pages) s = do
    (target, s') ← unmap table page s
    elim target [
      | none ↦ unmap_pages table pages s'
      | some physical ↦ do
        frame ← new physical
        frames ← Allocator.deallocate frame s'.frames
        unmap_pages table pages (record s' { frames = frames })
    ]

  unfoldable pub deallocate : Virtual → VirtualRange → Vmm → Machine → Outcome (Vmm × Machine)
  deallocate table range s machine = do
    (v, used) ← or_panic (remove_used range.start s.used) unwrap_none
    machine ←
        (if bits.contains v.flags map_flag
          then unmap_pages table (ranges.pages v.range) machine
          else done machine)
    done (insert_free_vma v (record s { used = used }), machine)

  unfoldable pub handle_demand_paging :
      Virtual → Virtual → UsedMap → Frames → Outcome (Handled × Frames)
  handle_demand_paging table addr used s =
      let page = x.page_align_down addr in
      elim (find_used page used) [
        | none ↦ done (failed missing_page, s)
        | some v ↦
            if bits.contains v.flags map_flag
            then map_page table page v s
            else done (failed not_mappable, s)
      ]
