-- ===== src/Smp/Segments.antt =====
-- The task state segments of the cores in the descriptor table.
use silicium_rs.Base.{ℕ, ◌+◌, ◌*◌, ◌<◌, ◌≡◌, ◌≢◌, ◌∙◌, refl, arith, some, done, dec_lt}
use silicium_rs.Crates.SegmentTables.{SegmentTables}
use silicium_rs.Smp.Local.{gdt_entries}
use silicium_rs.Crates.SegmentTables.{null, kernel_code64, kernel_data, user_code64, user_data, tss}
use silicium_rs.Smp.Local.{max_cpu, gdt_setup, install}

module _ ⦃gdt : SegmentTables gdt_entries⦄ where
  -- The five segments that `gdt::setup` installs.
  pub record HasSegments (t : gdt.Table) : Type 0 where
    pub at_0 : gdt.descriptor_at 0 t ≡ some null
    pub at_1 : gdt.descriptor_at 1 t ≡ some kernel_code64
    pub at_2 : gdt.descriptor_at 2 t ≡ some kernel_data
    pub at_3 : gdt.descriptor_at 3 t ≡ some user_code64
    pub at_4 : gdt.descriptor_at 4 t ≡ some user_data

  abbrev pub HasTask : ℕ → gdt.Table → Type 0
  HasTask id t =
      (gdt.descriptor_at (6 + id * 2) t ≡ some (tss id))
      × (gdt.descriptor_at (7 + id * 2) t ≡ some (tss id))

  -- `gdt::setup` never panics and installs the five segments.
  pub gdt_setup-HasSegments :
      (t : gdt.Table) → (t' : gdt.Table) × (gdt_setup t ≡ done t') × HasSegments t'
  unfolding gdt_setup
  gdt_setup-HasSegments t =
      let (a, ea, ia, la, ha) = gdt.set_descriptor_lem 0 null t (omega arith) in
      let (b, eb, ib, lb, hb) = gdt.set_descriptor_lem 1 kernel_code64 a (omega arith) in
      let (c, ec, ic, lc, hc) = gdt.set_descriptor_lem 2 kernel_data b (omega arith) in
      let (d, ed, id, ld, hd) = gdt.set_descriptor_lem 3 user_code64 c (omega arith) in
      let (e, ee, ie, le, he) = gdt.set_descriptor_lem 4 user_data d (omega arith) in
      (
        e,
        rw (ea, eb, ec, ed, ee) refl,
        record {
          at_0 =
              le 0 (omega arith)
              ∙ ld 0 (omega arith)
              ∙ lc 0 (omega arith)
              ∙ lb 0 (omega arith)
              ∙ ia 0 (omega arith) (omega arith);
          at_1 =
              le 1 (omega arith)
              ∙ ld 1 (omega arith)
              ∙ lc 1 (omega arith)
              ∙ ib 1 (omega arith) (omega arith);
          at_2 = le 2 (omega arith) ∙ ld 2 (omega arith) ∙ ic 2 (omega arith) (omega arith);
          at_3 = le 3 (omega arith) ∙ id 3 (omega arith) (omega arith);
          at_4 = ie 4 (omega arith) (omega arith);
        },
      )

  -- What `install` of a core's segment leaves in the table.
  pub record Installed (id : ℕ) (t t' : gdt.Table) : Type 0 where
    pub task : HasTask id t'
    pub segments : HasSegments t → HasSegments t'
    pub others : (other : ℕ) → other ≢ id → HasTask other t → HasTask other t'

  -- For each core that the table has place for, `install` never panics, selects the entry of the
  -- core's segment, and keeps the five segments and the segments of all other cores.
  pub install-Installed :
      (id : ℕ) (t : gdt.Table)
      → id < max_cpu
      → (t' : gdt.Table) × (install id t ≡ done (6 + id * 2, t')) × Installed id t t'
  unfolding install
  install-Installed id t h =
      let (u, e, inside, below, above) =
        gdt.set_descriptor_lem (6 + id * 2) (tss id) t (omega arith) in
      (
        u,
        ground (arith, e),
        record {
          task = (
            inside (6 + id * 2) (omega arith) (omega arith),
            inside (7 + id * 2) (omega arith) (omega arith),
          );
          segments = λ s. record {
            at_0 = below 0 (omega arith) ∙ s.at_0;
            at_1 = below 1 (omega arith) ∙ s.at_1;
            at_2 = below 2 (omega arith) ∙ s.at_2;
            at_3 = below 3 (omega arith) ∙ s.at_3;
            at_4 = below 4 (omega arith) ∙ s.at_4;
          };
          others = λ o n s. elim (dec_lt o id) [
            | yes lt ↦
                (below (6 + o * 2) (omega arith) ∙ s.0, below (7 + o * 2) (omega arith) ∙ s.1)
            | no ge ↦ (above (6 + o * 2) (omega arith) ∙ s.0, above (7 + o * 2) (omega arith) ∙ s.1)
          ];
        },
      )
