-- ===== src/Tests/CoresTests.antt =====
-- `init_bsp` with a full root table, and the start of a second core after it.
use silicium_rs.Base.{
  sub64, List, zero, suc, ◌≡◌, ◌≢◌, refl, arith, none, some, Option, [], ◌∷◌, done, add64,
}
use silicium_rs.Allocator.{Frames}
use silicium_rs.Paging.Start
use silicium_rs.Paging.Start.{preallocate_all, preallocate}
use silicium_rs.Vmm
use silicium_rs.Vmm.{
  find_free_first_fit, first_fit, split_area, align_size, insert_free, push_free, insert_used,
  insert_used_vma, insert_free_vma,
}
use silicium_rs.Smp.Local.{
  ThreadLocalInfo, allocate_thread_local_storage, install, bsp_setup, find_bsp,
}
use silicium_rs.Smp.System.{
  Phase, parked, told, reloaded, with_storage, Core, Shared, System, telling, ap_step, tell, skip,
  work, Steps, stop, later,
}
use silicium_rs.Boot.{FirstCore, init_bsp}
use silicium_rs.Boot.Ready.{no_areas}
use silicium_rs.Address.{phys_to_virt, virt_to_phys}
use silicium_rs.Frame.{new}
use silicium_rs.Frame.Flags
use silicium_rs.FrameState.{retain, get_frame_info}
use silicium_rs.FrameState.Slices.{find}
use silicium_rs.Allocator.{allocate, claim, zero_bytes, reference}
use silicium_rs.PageFault.{active_table}
use silicium_rs.Current.{from, clone, table_frame, clone_table, copy_table, copy}
use silicium_rs.Current.Init
use silicium_rs.Current.Init.{init_table}
use silicium_rs.Vmm.{VirtualArea, new_area, virtual_range}
use silicium_rs.Smp.System.{with_area}
use silicium_rs.Smp.Local.{take_area, use_area}
use silicium_rs.Tests.Bits.{bits}
use silicium_rs.Tests.Machine.{addresses}
use silicium_rs.Tests.Entries.{page_tables}
use silicium_rs.Tests.AllocatorTests.{four}
use silicium_rs.Tests.VmmTests.{ranges}
use silicium_rs.Tests.SmpTests.{gdt}
use silicium_rs.Tests.BootTests.{answers}

abbrev full : Frames
full = record four { memory = λ _. 3 }

after_init :
    (c : FirstCore) × (init_bsp 100 0 answers full (Vmm.setup no_areas) (λ _. none) ≡ done c)
unfolding init_bsp bsp_setup find_bsp allocate_thread_local_storage Vmm.allocate Vmm.setup
    find_free_first_fit first_fit split_area align_size add64 insert_free insert_free_vma push_free
    insert_used_vma insert_used install Init.setup init_table active_table from clone table_frame
    clone_table copy_table copy allocate find claim retain zero_bytes reference get_frame_info new
    phys_to_virt virt_to_phys sub64 Start.setup preallocate_all preallocate
after_init = (_, refl)

abbrev own : Core
own = record {
  info = record { processor_id = 0; lapic_id = 0 };
  phase = parked;
  local = some after_init.0.local;
  table = none;
}

abbrev second : Phase → Option ThreadLocalInfo → Core
second p local = record {
  info = record { processor_id = 1; lapic_id = 4 };
  phase = p;
  local = local;
  table = none;
}

abbrev shared : Shared
shared = record {
  vmm = after_init.0.vmm;
  frames = after_init.0.frames;
  gdt_table = after_init.0.gdt_table;
  init = after_init.0.tables.init;
  count = 1;
}

abbrev at_start : System
at_start = record { shared = shared; cores = own ∷ second parked none ∷ []; boot = telling 0 }

abbrev storage : ThreadLocalInfo
storage = record {
  self_ptr = 0xFFFF_A000_0000_1064;
  tls_base = 0xFFFF_A000_0000_1000;
  lapic_id = 4;
  cpu_id = 1;
}

abbrev area : VirtualArea
area = new_area (virtual_range 0xFFFF_A000_0000_1000 0xFFFF_A000_0000_2000) 12

not_first : suc zero ≢ 0
not_first = λ e. absurd (omega arith)

first_steps :
    (t : Shared) × Steps 100 0 at_start (record {
      shared = t;
      cores = own ∷ second with_storage (some storage) ∷ [];
      boot = telling 2;
    })
unfolding ap_step take_area use_area init_bsp bsp_setup find_bsp allocate_thread_local_storage
    Vmm.allocate Vmm.setup find_free_first_fit first_fit split_area align_size add64 insert_free
    insert_free_vma push_free insert_used_vma insert_used install Init.setup init_table active_table
    from clone table_frame clone_table copy_table copy allocate find claim retain zero_bytes
    reference get_frame_info new phys_to_virt virt_to_phys sub64 Start.setup preallocate_all
    preallocate after_init
first_steps =
    let s1 = later stop (skip 0 own refl refl refl) in
    let s2 = later s1 (tell 1 (second parked none) refl refl (λ e. absurd (omega arith))) in
    let s3 = later s2 (work 1 (second told none) _ _ not_first refl refl refl) in
    let s4 = later s3 (work 1 (second reloaded none) _ _ not_first refl refl refl) in
    (_, later s4 (work 1 (second (with_area area) none) _ _ not_first refl refl refl))

abbrev at_end : System
at_end = record {
  shared = first_steps.0;
  cores = own ∷ second with_storage (some storage) ∷ [];
  boot = telling 2;
}

abbrev cores : List Core
cores = own ∷ second parked none ∷ []
