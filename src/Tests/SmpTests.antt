-- ===== src/Tests/SmpTests.antt =====
-- The start of two cores, over a descriptor table that is a function from its entries.
use silicium_rs.Base.{
  ℕ, zero, suc, ◌+◌, ◌≤◌, ◌≡◌, ◌≢◌, ◌⊎◌, refl, arith, Option, none, some, done, panicked, List, ◌∷◌,
  [], ltb, leb, ◌&&◌, if◌then◌else◌, add64, index_out_of_bounds, get_elem?, le→leb, lt→ltb, lt→leb,
}
use silicium_rs.Crates.SegmentTables.{SegmentTables, SegmentDescriptor, width}
use silicium_rs.Address.{phys_to_virt}
use silicium_rs.Allocator.{allocate, claim}
use silicium_rs.FrameState.Slices.{find}
use silicium_rs.Current.{TableRoot, table_frame, clone_table, copy_table}
use silicium_rs.Smp.Totals.{total-zero}
use silicium_rs.Vmm.{
  find_free_first_fit, first_fit, split_area, align_size, insert_free, push_free, insert_used,
  insert_used_vma, VirtualArea, new_area, virtual_range,
}
use silicium_rs.Frame.{frame}
use silicium_rs.Smp.Local.{gdt_entries, ThreadLocalInfo, take_area, use_area, install}
use silicium_rs.Smp.System.{
  Phase, parked, told, reloaded, with_area, with_storage, with_lapic, with_segment, with_frame,
  with_table, ready, Core, telling, finished, Shared, ap_step, System, begin, tell, skip, all_told,
  all_started, work, Steps, stop, later,
}
use silicium_rs.Smp.Start.{
  begin-Going, IsParked, AllReady, OthersNumbered, count_steps, begin-AllReady,
}
use silicium_rs.Smp.Progress.{Panics}
use silicium_rs.Smp.Ends.{start_cpus_ends}
use silicium_rs.Smp.Apart.{holds, IsApart, Steps-IsApart}
use silicium_rs.Smp.Segments.{Installed, install-Installed}
use silicium_rs.Tests.Bits.{bits}
use silicium_rs.Tests.Machine.{addresses}
use silicium_rs.Tests.Entries.{page_tables}
use silicium_rs.Tests.PagingTests.{root, paged}
use silicium_rs.Tests.VmmTests.{ranges, later-IsVmm}
use silicium_rs.Tests.VmmTests

abbrev pub Segments : Type 0
Segments = ℕ → Option SegmentDescriptor

abbrev put : ℕ → SegmentDescriptor → Segments → Segments
put i d t j = if leb i j && ltb j (i + width d) then some d else t j

pub put-above :
    (i : ℕ) (d : SegmentDescriptor) (t : Segments) (j : ℕ) → i + width d ≤ j → put i d t j ≡ t j
put-above i d t j p = ground arith

instance abbrev pub gdt : SegmentTables gdt_entries
gdt = record {
  Table = Segments;
  set_descriptor =
      λ i d t. if leb (i + width d) 70 then done (put i d t) else panicked index_out_of_bounds;
  descriptor_at = λ i t. t i;
  set_descriptor_lem = λ i d t h. (
    put i d t,
    rw (le→leb (i + width d) 70 h) refl,
    λ j p q. rw (le→leb i j p, lt→ltb j (i + width d) q) refl,
    λ j p. rw (lt→leb i j p) refl,
    put-above i d t,
  );
}

install-Installed_example :
    (t : Segments) × (install 1 (λ _. none) ≡ done (8, t)) × Installed 1 (λ _. none) t
install-Installed_example = install-Installed 1 (λ _. none) (omega arith)

abbrev core_of : ℕ → ℕ → Core
core_of id lapic = record {
  info = record { processor_id = id; lapic_id = lapic };
  phase = parked;
  local = none;
  table = none;
}

abbrev cores : List Core
cores = core_of 0 0 ∷ core_of 1 4 ∷ []

abbrev shared : Shared
shared = record {
  vmm = VmmTests.later;
  frames = paged;
  gdt_table = λ _. none;
  init = record { addr = root; frame = frame 0x10_0000 };
  count = 1;
}

cores-IsParked : IsParked 0 cores shared
cores-IsParked = record { inside = omega arith; counted = refl; parked = all_parked }
  where
    all_parked : (j : ℕ) (c : Core) → get_elem? cores j ≡ some c → c.phase ≡ Phase.parked
    all_parked zero c h = ground (arith, h)
    all_parked (suc zero) c h = ground (arith, h)
    all_parked (suc (suc j)) c h = cc

abbrev at_start : System
at_start = record { shared = shared; cores = cores; boot = telling 0 }

begin_test : begin cores shared ≡ done at_start
unfolding begin
begin_test = refl

-- The other core has been told and has its storage.
abbrev second : Phase → Option ThreadLocalInfo → Option TableRoot → Core
second p local table = record {
  info = record { processor_id = 1; lapic_id = 4 };
  phase = p;
  local = local;
  table = table;
}

not_first : suc zero ≢ 0
not_first = λ e. absurd (omega arith)

told_steps :
    Steps 100 0 at_start
      (record at_start { cores = core_of 0 0 ∷ second told none none ∷ []; boot = telling 2 })
told_steps =
    later (later stop (skip 0 (core_of 0 0) refl refl refl))
      (tell 1 (core_of 1 4) refl refl (λ e. absurd (omega arith)))

start_cpus_ends_example :
    (count_steps told_steps ≤ 22)
    × ((t : System) × Steps 100 0
          (record at_start { cores = core_of 0 0 ∷ second told none none ∷ []; boot = telling 2 })
          t
        × ((t.boot ≡ finished) ⊎ Panics 100 0 t))
start_cpus_ends_example = start_cpus_ends cores-IsParked begin_test numbered told_steps
  where
    numbered : OthersNumbered 0 cores
    numbered zero c h n z = n refl
    numbered (suc zero) c h n z = ground (arith, h, z)
    numbered (suc (suc j)) c h n z = cc

abbrev storage : ThreadLocalInfo
storage = record {
  self_ptr = 0xFFFF_A000_0000_2064;
  tls_base = 0xFFFF_A000_0000_2000;
  lapic_id = 4;
  cpu_id = 1;
}

abbrev new_root : TableRoot
new_root = record { addr = 0xffff_8000_0000_2000; frame = frame 0x2000 }

abbrev area : VirtualArea
area = new_area (virtual_range 0xFFFF_A000_0000_2000 0xFFFF_A000_0000_3000) 12

all_steps :
    (t : Shared) × Steps 100 0 at_start (record {
      shared = t;
      cores = core_of 0 0 ∷ second ready (some storage) (some new_root) ∷ [];
      boot = finished;
    })
unfolding ap_step take_area use_area find_free_first_fit first_fit split_area align_size add64
    insert_free push_free insert_used_vma insert_used install clone_table copy_table table_frame
    allocate find claim phys_to_virt
all_steps =
    let s1 = later told_steps (work 1 (second told none none) _ _ not_first refl refl refl) in
    let s2 = later s1 (work 1 (second reloaded none none) _ _ not_first refl refl refl) in
    let s3 = later s2 (work 1 (second (with_area area) none none) _ _ not_first refl refl refl) in
    let s4 =
      later s3 (work 1 (second with_storage (some storage) none) _ _ not_first refl refl refl) in
    let s5 =
      later s4 (work 1 (second with_lapic (some storage) none) _ _ not_first refl refl refl) in
    let s6 = later s5 (all_told refl) in
    let s7 =
      later s6 (work 1 (second with_segment (some storage) none) _ _ not_first refl refl refl) in
    let s8 = later s7 (
      work 1 (second (with_frame (frame 0x2000)) (some storage) none) _ _ not_first refl refl
        refl) in
    let s9 =
      later s8
        (work 1 (second with_table (some storage) (some new_root)) _ _ not_first refl refl refl) in
    (_, later s9 (all_started refl refl))

abbrev at_end : System
at_end = record {
  shared = all_steps.0;
  cores = core_of 0 0 ∷ second ready (some storage) (some new_root) ∷ [];
  boot = finished;
}

begin-AllReady_example : AllReady 0 at_end
begin-AllReady_example = begin-AllReady cores-IsParked begin_test all_steps.1 refl

no_storage : (j : ℕ) (c : Core) → get_elem? cores j ≡ some c → c.local ≡ none
no_storage zero c h = ground (arith, h)
no_storage (suc zero) c h = ground (arith, h)
no_storage (suc (suc j)) c h = cc

no_area : (a j : ℕ) (c : Core) → get_elem? cores j ≡ some c → holds a c ≡ 0
no_area a j c h = ground (arith, cores-IsParked.parked j c h)

start-IsApart : IsApart 100 at_start
start-IsApart = record {
  free_map = later-IsVmm.free;
  used_map = later-IsVmm.used;
  partition = λ a. omega (arith, later-IsVmm.partition a, total-zero (holds a) cores (no_area a));
  taken = λ j c v h q. absurd (ground (arith, cores-IsParked.parked j c h, q));
  used = λ j c l h q. absurd (ground (arith, no_storage j c h, q));
  own = λ j c l h q. absurd (ground (arith, no_storage j c h, q));
  apart = λ i j c d l k n h h' q q'. absurd (ground (arith, no_storage i c h, q));
}

Steps-IsApart_example : IsApart 100 at_end
Steps-IsApart_example =
    Steps-IsApart (omega arith) (begin-Going cores-IsParked begin_test).counted start-IsApart
      all_steps.1
