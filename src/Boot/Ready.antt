-- ===== src/Boot/Ready.antt =====
-- What the setup of memory and of the first core leaves.
use silicium_rs.Base.{
  ℕ, ◌+◌, ◌*◌, ◌/◌, ◌-◌, ◌≤◌, ◌<◌, ◌≡◌, ◌≢◌, ◌⊎◌, inl, inr, refl, arith, none, some, List, [], ◌∷◌,
  length, get_elem?, done, panicked, unwrap_none, done_unique, subst, ℕ_discrete, ◌∙◌,
}
use silicium_rs.Crates.Addresses.{Addresses}
use silicium_rs.Crates.BitFlags.{BitFlags}
use silicium_rs.Crates.PageTables.{PageTables}
use silicium_rs.Crates.VirtualRanges.{VirtualRanges}
use silicium_rs.Crates.SegmentTables.{SegmentTables}
use silicium_rs.FrameState.{FrameInfo}
use silicium_rs.FrameState.Setup.{MemmapEntry, last_usable}
use silicium_rs.FrameState.Setup.Marks.{IsRegion, AreRegions}
use silicium_rs.FrameState.Setup.Result.{holds, settled, array_frames, setup-settled}
use silicium_rs.FrameState.Slices.{find}
use silicium_rs.Allocator
use silicium_rs.Allocator.{Frames}
use silicium_rs.Allocator.Invariant.{IsWf}
use silicium_rs.Paging.Start.{kernel_base}
use silicium_rs.Allocator.Left.{free_frames}
use silicium_rs.Boot.RootTables.{IsTables, setup-IsTables}
use silicium_rs.Vmm
use silicium_rs.Vmm.{
  Vmm, map_flag, zeroed_flag, align_size, insert_free_vma, insert_free, push_free, virtual_range,
  vmalloc_start, vmalloc_end,
}
use silicium_rs.Vmm.Areas.{NoFit}
use silicium_rs.Vmm.FirstFit.{IsVmm}
use silicium_rs.Vmm.Allocate.{Vmm_allocate_cases, align_size_lem, setup-IsVmm}
use silicium_rs.Smp.Local.{
  gdt_entries, SmpInfo, ThreadLocalInfo, storage_size, current_id, find_bsp, bsp_setup,
  allocate_thread_local_storage,
}
use silicium_rs.Smp.Storage.{Stored, allocate_thread_local_storage-Stored}
use silicium_rs.Smp.Segments.{Installed, install-Installed}
use silicium_rs.Frame.{Stats}
use silicium_rs.Boot.Accounts.{AreApart}
use silicium_rs.Boot.Settling.{setup-IsWf}
use silicium_rs.Boot.{Responses, check_around, mm_setup, hhdm_start, FirstCore, init_bsp}

abbrev pub no_areas : Vmm
no_areas = record { free = []; used = [] }

-- All answers are there, and the direct mapping is where the kernel expects it.
pub record IsAnswered (r : Responses) : Type 0 where
  pub stack : r.stack ≢ none
  pub memmap : r.memmap ≢ none
  pub hhdm : r.hhdm ≡ some hhdm_start
  pub rsdp : r.rsdp ≢ none
  pub smp : r.smp ≢ none

-- `check_around` returns exactly when all answers are there and the direct mapping is where the
-- kernel expects it; otherwise it panics.
pub check_around-IsAnswered :
    (r : Responses)
    → (check_around r ≡ done tt → IsAnswered r) × (IsAnswered r → check_around r ≡ done tt)
unfolding check_around
check_around-IsAnswered r = (
  λ e. record {
    stack = λ q. ground (arith, q, e);
    memmap = λ q. ground (arith, q, e);
    hhdm = ground (arith, e);
    rsdp = λ q. ground (arith, q, e);
    smp = λ q. ground (arith, q, e);
  },
  λ a. ground (arith, a.stack, a.memmap, a.hhdm, a.rsdp, a.smp),
)

module _ ⦃x : Addresses⦄ ⦃bits : BitFlags⦄ ⦃ranges : VirtualRanges⦄ where
  -- What `mm::setup` leaves: the frame array of the memory map, and all of the vmalloc space free.
  pub record IsManaged (mmap : List MemmapEntry) (r : MemmapEntry) (last : ℕ) (s : Frames)
      (s' : Frames) (vmm : Vmm) : Type 0 where
    pub wf : IsWf (array_frames r last) s'
    pub array : length s'.array ≡ last
    pub frames : (j : ℕ) → j < last → get_elem? s'.array j ≡ some (settled mmap r last j)
    pub memory : s'.memory ≡ s.memory
    pub areas : IsVmm vmm
    pub all_free : vmm ≡ Vmm.setup no_areas

  pub mm_setup-IsManaged :
      (a : Responses) (s : Frames) (mmap : List MemmapEntry) (top k : ℕ) (r : MemmapEntry)
      → a.memmap ≡ some mmap
      → s.array ≡ []
      → AreRegions mmap
      → AreApart mmap
      → last_usable mmap ≡ some top
      → find (holds (top / 4096)) mmap ≡ some (k, r)
      → IsRegion r
      → r.base / 4096 + top / 4096 * 8 / 4096 < top / 4096
      → (s' : Frames) × (vmm : Vmm) × (mm_setup a s no_areas ≡ done (s', vmm))
        × IsManaged mmap r (top / 4096) s s' vmm
  unfolding mm_setup Allocator.setup
  mm_setup-IsManaged a s mmap top k r m empty h apart e f ir b =
      let (array, stats, run, l, g) = setup-settled mmap top k r h e f ir b in
      let (array', stats', run', w, _) = setup-IsWf mmap top k r s.memory h apart e f ir b in
      let same : Path (List FrameInfo × Stats) (array', stats') (array, stats) =
        done_unique run' run in
      (
        record s { array = array; statistic = stats },
        Vmm.setup no_areas,
        rw (m, empty, run) refl,
        record {
          wf =
              subst
                (λ (z : List FrameInfo × Stats).
                  IsWf (array_frames r (top / 4096)) (record s { array = z.0; statistic = z.1 }))
                same w;
          array = l;
          frames = g;
          memory = refl;
          areas = setup-IsVmm;
          all_free = refl;
        },
      )

module _ ⦃x : Addresses⦄ ⦃bits : BitFlags⦄ ⦃ranges : VirtualRanges⦄ where
  find_bsp-zero :
      (cpus : List SmpInfo) (info : SmpInfo) → find_bsp cpus ≡ some info → info.processor_id ≡ 0
  unfolding find_bsp
  find_bsp-zero [] info e = cc
  find_bsp-zero (c ∷ cs) info e = elim (ℕ_discrete c.processor_id 0) [
    | yes q ↦ ground (arith, e, q)
    | no ne ↦ find_bsp-zero cs info (ground (arith, e, ne))
  ]

  no_areas-NoFit : (size : ℕ) → size ≤ 0x1000_0000_0000 → ¬ NoFit size (Vmm.setup no_areas).free
  unfolding Vmm.setup insert_free_vma insert_free push_free
  no_areas-NoFit size le n =
      absurd (omega (arith, ranges.size_lem (virtual_range vmalloc_start vmalloc_end), n.0))

  -- All of the vmalloc space is free: there is storage for the first core.
  first_storage :
      (n : ℕ) (info : SmpInfo)
      → storage_size n ≤ 0x1000_0000_0000
      → (l : ThreadLocalInfo) × (vmm : Vmm) × (allocate_thread_local_storage n info
            (Vmm.setup no_areas)
          ≡ done (l, vmm))
  unfolding allocate_thread_local_storage
  first_storage n info small =
      let (al, ge, lt) = align_size_lem (storage_size n) (omega arith) in
      elim (Vmm_allocate_cases (storage_size n) (bits.union map_flag zeroed_flag)
        (Vmm.setup no_areas) setup-IsVmm (omega arith) (omega arith)) [
          | inl (_, f) ↦ absurd (no_areas-NoFit (align_size (storage_size n)) (omega arith) f)
          | inr (inl (a, _)) ↦ absurd (
              ground (
                arith,
                a,
                bits.contains-union map_flag zeroed_flag 1,
                bits.contains-bit 2 1,
                bits.contains-bit 3 1,
              ))
          | inr (inr (r, u, f, t)) ↦
              let add =
                x.virtual_add-high r.start n (omega (arith, t.from))
                  (omega (arith, t.exact, t.up_to)) in
              (
                record {
                  self_ptr = r.start + n;
                  tls_base = r.start;
                  lapic_id = info.lapic_id;
                  cpu_id = info.processor_id;
                },
                u,
                rw (f, add) refl,
              )
        ]

module _ ⦃x : Addresses⦄ ⦃bits : BitFlags⦄ ⦃pt : PageTables⦄ ⦃ranges : VirtualRanges⦄
    ⦃gdt : SegmentTables gdt_entries⦄ where
  -- What `init_bsp` leaves: the storage of the processor 0, its root tables, and its task state
  -- segment.
  pub record IsReady (n pinned boot : ℕ) (info : SmpInfo) (t : gdt.Table) (c : FirstCore)
      : Type 0 where
    pub id : current_id c.local ≡ 0
    pub stored : Stored n info c.local (Vmm.setup no_areas) c.vmm
    pub tables : IsTables pinned boot c.tables c.frames
    pub task : Installed 0 t c.gdt_table

  pub init_bsp-IsReady :
      (n pinned cr3 : ℕ) (a : Responses) (cpus : List SmpInfo) (info : SmpInfo) (boot : FrameInfo)
      (s : Frames) (t : gdt.Table)
      → a.smp ≡ some cpus
      → find_bsp cpus ≡ some info
      → storage_size n ≤ 0x1000_0000_0000
      → IsWf pinned s
      → cr3 < 0x10_0000_0000_0000
      → get_elem? s.array (cr3 / 4096) ≡ some boot
      → 0 < boot.count
      → boot.count + 1 < 0x1_0000_0000_0000_0000
      → ((init_bsp n cr3 a s (Vmm.setup no_areas) t ≡ panicked unwrap_none)
          × (free_frames s.array ≤ 512 - pt.page_index kernel_base pt.page_map_level4))
        ⊎ ((c : FirstCore) × (init_bsp n cr3 a s (Vmm.setup no_areas) t ≡ done c)
            × IsReady n pinned (cr3 / 4096) info t c)
  unfolding init_bsp bsp_setup
  init_bsp-IsReady n pinned cr3 a cpus info boot s t m b small w valid g pos fits =
      let (l, vmm, run) = first_storage n info small in
      let st =
        allocate_thread_local_storage-Stored n info l (Vmm.setup no_areas) vmm setup-IsVmm
          (omega arith) run in
      let (t', ins, task) = install-Installed 0 t (omega arith) in
      elim (setup-IsTables pinned cr3 boot s w valid g pos fits) [
        | inl (e, few) ↦ inl (rw (m, b, run, e) refl, few)
        | inr (tables, u, e, f) ↦ inr (
          record { local = l; tables = tables; frames = u; vmm = vmm; gdt_table = t' },
          rw (m, b, run, e, ins) refl,
          record { id = st.id ∙ find_bsp-zero cpus info b; stored = st; tables = f; task = task },
        )
      ]
