-- ===== src/Boot/RootTables.antt =====
-- What the first core's `setup` of the paging leaves.
use silicium_rs.Base.{
  ℕ, suc, ◌+◌, ◌-◌, ◌*◌, ◌/◌, ◌≤◌, ◌<◌, ◌≡◌, ◌∙◌, ap, ◌⊎◌, inl, inr, refl, arith, true, some, done,
  panicked, unwrap_none, get_elem?, lt_of_get_elem?,
}
use silicium_rs.Crates.Addresses.{Addresses}
use silicium_rs.Crates.BitFlags.{BitFlags}
use silicium_rs.Crates.PageTables.{PageTables}
use silicium_rs.Address.Laws.{phys_to_virt-eq, virt_to_phys-add}
use silicium_rs.Frame.{frame}
use silicium_rs.Frame.Laws.{new-eq}
use silicium_rs.FrameState.{FrameInfo}
use silicium_rs.Allocator.{Memory, Frames}
use silicium_rs.Allocator.Invariant.{IsWf}
use silicium_rs.Allocator.Allocate.{allocate_cases, allocate-IsWf}
use silicium_rs.Allocator.Left.{
  free_frames, free_frames-none, Allocated-free_frames, reference_used,
}
use silicium_rs.Paging.{kernel_zeroed}
use silicium_rs.Paging.Start.{kernel_base}
use silicium_rs.Paging.Start.Laws.{setup-Filled}
use silicium_rs.PageFault.{active_table}
use silicium_rs.Current.{TableRoot, from, clone, table_frame, clone_table, copy_table, copy}
use silicium_rs.Current.Init.{Tables, init_table, setup}

module _ ⦃x : Addresses⦄ ⦃bits : BitFlags⦄ ⦃pt : PageTables⦄ where
  IsWf-memory :
      (pinned : ℕ) (s : Frames) (m : Memory) → IsWf pinned s → IsWf pinned (record s { memory = m })
  IsWf-memory pinned s m w = record {
    infos = w.infos;
    small = w.small;
    accounted = w.accounted;
    few_pinned = w.few_pinned;
  }

  -- The root table of a frame in the direct map.
  abbrev pub root_of : ℕ → TableRoot
  root_of i = record { addr = i * 4096 + 0xffff_8000_0000_0000; frame = frame (i * 4096) }

  init_table_lem :
      (pinned cr3 : ℕ) (info : FrameInfo) (s : Frames)
      → IsWf pinned s
      → cr3 < 0x10_0000_0000_0000
      → get_elem? s.array (cr3 / 4096) ≡ some info
      → 0 < info.count
      → info.count + 1 < 0x1_0000_0000_0000_0000
      → (t : Frames) × (init_table cr3 s ≡ done (root_of (cr3 / 4096), t))
        × IsWf pinned t
        × (free_frames t.array ≡ free_frames s.array)
  unfolding init_table active_table from
  init_table_lem pinned cr3 info s w valid g pos small =
      let lt = lt_of_get_elem? s.array (cr3 / 4096) info g in
      let p : ℕ = cr3 / 4096 * 4096 in
      let low : p + 4096 ≤ 0x1000_0000_0000 = omega (arith, w.small, lt) in
      let index : p / 4096 ≡ cr3 / 4096 = omega arith in
      let (t, e, v, same, _) =
        reference_used pinned (frame p) info s (ap (get_elem? s.array) index ∙ g) w pos small in
      let up = phys_to_virt-eq p (omega arith) in
      let high = x.virtual_new-high (p + 0xffff_8000_0000_0000) (omega arith) (omega arith) in
      let down = virt_to_phys-add p (omega arith) in
      (
        t,
        rw
            (
              x.page_mask_lem cr3,
              x.physical_new-valid p (omega arith),
              up,
              high,
              down,
              new-eq p (omega arith),
              e,
            )
            (rw up refl),
        v,
        same,
      )

  -- The clone's frame is one of the free ones.
  clone_lem :
      (pinned : ℕ) (root : TableRoot) (s : Frames)
      → IsWf pinned s
      → ((clone root s ≡ panicked unwrap_none) × (free_frames s.array ≡ 0))
        ⊎ ((i : ℕ) × (t : Frames) × (clone root s ≡ done (root_of i, t))
            × IsWf pinned t
            × (suc (free_frames t.array) ≡ free_frames s.array))
  unfolding clone table_frame clone_table copy_table
  clone_lem pinned root s w = elim (allocate_cases pinned kernel_zeroed s w) [
    | inl (n, e) ↦ inl (rw e refl, free_frames-none s.array n)
    | inr (i, t, e, a) ↦
        let lt = lt_of_get_elem? s.array i a.before a.found in
        let up = phys_to_virt-eq (i * 4096) (omega (arith, lt, w.small)) in
        inr (
          i,
          record t {
            memory = copy (x.as_ptr (i * 4096) + 0) (x.as_ptr root.frame.start + 0) 4096 t.memory;
          },
          rw e (rw up refl),
          IsWf-memory pinned t _
              (allocate-IsWf pinned kernel_zeroed s t (some (frame (i * 4096))) w e),
          Allocated-free_frames kernel_zeroed i s t a,
        )
  ]

  -- What `setup` leaves for the first core.
  pub record IsTables (pinned : ℕ) (boot : ℕ) (t : Tables) (s : Frames) : Type 0 where
    pub init : t.init ≡ root_of boot
    pub active : (i : ℕ) × (t.active ≡ root_of i)
    pub cr3 : t.cr3 ≡ t.active.frame.start
    pub valid : IsWf pinned s
    pub kernel_half :
        (j : ℕ)
        → pt.page_index kernel_base pt.page_map_level4 ≤ j
        → j < 512
        → pt.is_present (s.memory (t.active.addr + j * 8)) ≡ true

  pub setup-IsTables :
      (pinned cr3 : ℕ) (info : FrameInfo) (s : Frames)
      → IsWf pinned s
      → cr3 < 0x10_0000_0000_0000
      → get_elem? s.array (cr3 / 4096) ≡ some info
      → 0 < info.count
      → info.count + 1 < 0x1_0000_0000_0000_0000
      → ((setup cr3 s ≡ panicked unwrap_none)
          × (free_frames s.array ≤ 512 - pt.page_index kernel_base pt.page_map_level4))
        ⊎ ((tables : Tables) × (t : Frames) × (setup cr3 s ≡ done (tables, t))
            × IsTables pinned (cr3 / 4096) tables t)
  unfolding setup
  setup-IsTables pinned cr3 info s w valid g pos small =
      let (s1, e1, w1, same) = init_table_lem pinned cr3 info s w valid g pos small in
      elim (clone_lem pinned (root_of (cr3 / 4096)) s1 w1) [
        | inl (e, z) ↦ inl (rw (e1, e) refl, omega arith)
        | inr (i, s2, e2, w2, less) ↦ elim (setup-Filled pinned (root_of i).addr s2 w2) [
          | inl (e, few) ↦ inl (rw (e1, e2, e) refl, omega arith)
          | inr (s3, e3, f) ↦ inr (
            record { init = root_of (cr3 / 4096); active = root_of i; cr3 = i * 4096 },
            s3,
            rw (e1, e2, e3) refl,
            record {
              init = refl;
              active = (i, refl);
              cr3 = refl;
              valid = f.valid;
              kernel_half = λ j lo hi. f.filled j lo (omega arith);
            },
          )
        ]
      ]
