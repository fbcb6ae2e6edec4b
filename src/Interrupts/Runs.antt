-- ===== src/Interrupts/Runs.antt =====
-- Sequences of interrupts.
use silicium_rs.Base.{
  ℕ, suc, ◌+◌, ◌^◌, ◌%◌, ◌<◌, ◌≡◌, refl, sym, arith, Bool, true, ◌&&◌, List, [], ◌∷◌, ◌++◌, ◌==◌,
  if◌then◌else◌, done, subst,
}
use silicium_rs.Crates.Addresses.{Addresses}
use silicium_rs.Crates.BitFlags.{BitFlags}
use silicium_rs.Crates.PageTables.{PageTables}
use silicium_rs.Crates.VirtualRanges.{VirtualRanges}
use silicium_rs.Crates.InterruptTables.{InterruptTables}
use silicium_rs.Paging.{Event}
use silicium_rs.Interrupts.Stubs.{Stub}
use silicium_rs.Interrupts.Handlers.{Core, returned, Interrupt}
use silicium_rs.Interrupts.Delivery.{device_events, is_device, after_device, Interrupt-after_device}
use silicium_rs.Interrupts.Vectors.{IsSetUp}

abbrev pub all_devices : List ℕ → Bool
all_devices [] = true
all_devices (v ∷ vs) = is_device v && all_devices vs

-- How often a vector occurs.
abbrev pub occurrences : ℕ → List ℕ → ℕ
occurrences v [] = 0
occurrences v (w ∷ vs) = let n = occurrences v vs in if w == v then suc n else n

-- The events of interrupts one after another, the latest first.
abbrev pub events_after : List ℕ → List Event → List Event
events_after [] es = es
events_after (v ∷ vs) es = events_after vs (device_events v ++ es)

returned_injective : {c d : Core} → done (returned c) ≡ done (returned d) → c ≡ d
returned_injective p = cc

module _ ⦃x : Addresses⦄ ⦃bits : BitFlags⦄ ⦃pt : PageTables⦄ ⦃ranges : VirtualRanges⦄
    ⦃tables : InterruptTables Stub⦄ where
  -- Interrupts that are served one after another, each with its error code.
  pub data Serves (t : tables.Table) : List ℕ → Core → Core → Type 0 where
    idle : {c : Core} → Serves t [] c c
    serve :
        {v code : ℕ} {vs : List ℕ} {c d e : Core}
        → Interrupt t v code c (done (returned d))
        → Serves t vs d e
        → Serves t (v ∷ vs) c e

  pub record Served (vs : List ℕ) (c d : Core) : Type 0 where
    pub ticks : d.ticks ≡ (c.ticks + occurrences 32 vs) % 2 ^ 64
    pub events : d.kernel.machine.cpu.events ≡ events_after vs c.kernel.machine.cpu.events
    pub frames : d.kernel.machine.frames ≡ c.kernel.machine.frames
    pub vmm : d.kernel.vmm ≡ c.kernel.vmm

  Served-after :
      (v : ℕ) (vs : List ℕ) (c d : Core) → Served vs (after_device v c) d → Served (v ∷ vs) c d
  Served-after v vs c d s = record {
    ticks = ground (arith, s.ticks);
    events = s.events;
    frames = s.frames;
    vmm = s.vmm;
  }

  Serves-Served_of :
      (t : tables.Table) {vs : List ℕ} {c d : Core}
      → IsSetUp t
      → all_devices vs ≡ true
      → c.ticks < 2 ^ 64
      → Serves t vs c d
      → Served vs c d
  Serves-Served_of t b h q idle = record {
    ticks = omega arith;
    events = refl;
    frames = refl;
    vmm = refl;
  }
  Serves-Served_of t b h q (serve {v} {code} {vs} {c} {d} {e} i s) =
      let eq = Interrupt-after_device t v code c b (ground arith) in
      let same = returned_injective (eq.1 (done (returned d)) i) in
      Served-after v vs c e (
        subst (λ k. Served vs k e) same
          (Serves-Served_of t b (ground arith)
            (subst (λ (k : Core). k.ticks < 2 ^ 64) (sym same) (ground arith)) s))

  run_total :
      (t : tables.Table) (vs : List ℕ) (c : Core)
      → IsSetUp t
      → all_devices vs ≡ true
      → (d : Core) × Serves t vs c d
  run_total t [] c b h = (c, idle)
  run_total t (v ∷ vs) c b h =
      let (d, s) = run_total t vs (after_device v c) b (ground arith) in
      (d, serve {code = 0} (Interrupt-after_device t v 0 c b (ground arith)).0 s)

  -- On a table that is set up, interrupts of devices are all served, whatever their order. Then the
  -- ticks are counted modulo 2^64, each flush and each acknowledgement has been made in the order of
  -- the interrupts, and the memory, the page tables, the frames and the areas are as before.
  pub Serves-Served :
      (t : tables.Table) (vs : List ℕ) (c : Core)
      → IsSetUp t
      → all_devices vs ≡ true
      → c.ticks < 2 ^ 64
      → ((d : Core) × Serves t vs c d) × ((d : Core) → Serves t vs c d → Served vs c d)
  Serves-Served t vs c b h q = (run_total t vs c b h, λ d s. Serves-Served_of t b h q s)
