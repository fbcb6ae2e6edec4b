-- ===== src/Smp/System.antt =====
-- `start_cpus` on the first core and `ap_start` on the others, interleaved in any order.
use silicium_rs.Base.{
  ℕ, suc, ◌+◌, ◌^◌, ◌%◌, ◌≡◌, ◌≢◌, leb, not, ◌==◌, Bool, true, false, Option, some, List, Outcome,
  done, ◌>>=◌, ◌>>◌, guard, length, get_elem?, set, no_core_found, too_many_cores,
}
use silicium_rs.Crates.Addresses.{Addresses}
use silicium_rs.Crates.BitFlags.{BitFlags}
use silicium_rs.Crates.PageTables.{PageTables}
use silicium_rs.Crates.VirtualRanges.{VirtualRanges}
use silicium_rs.Crates.SegmentTables.{SegmentTables}
use silicium_rs.Allocator.{Frames}
use silicium_rs.Frame.{Frame}
use silicium_rs.Current.{TableRoot, table_frame, clone_table}
use silicium_rs.Vmm.{Vmm, VirtualArea}
use silicium_rs.Smp.Local.{
  max_cpu, gdt_entries, SmpInfo, ThreadLocalInfo, take_area, use_area, install,
}

-- How far a core is: `parked` until it is given `_ap_start` as the address to go to. Each step of
-- `ap_start` up to `ready` takes one lock at most; what it has taken out under one lock and not yet
-- put down under the next stands with the phase.
pub data Phase : Type 0 where
  parked told reloaded : Phase
  with_area : VirtualArea → Phase
  with_storage with_lapic with_segment : Phase
  with_frame : Frame → Phase
  with_table ready : Phase

pub record Core : Type 0 where
  pub info : SmpInfo
  pub phase : Phase
  pub local : Option ThreadLocalInfo
  pub table : Option TableRoot

-- What the first core does: the loop that tells the others, the loop that waits, and the end.
pub data Boot : Type 0 where
  telling : ℕ → Boot
  waiting finished : Boot

module _ ⦃x : Addresses⦄ ⦃bits : BitFlags⦄ ⦃pt : PageTables⦄ ⦃ranges : VirtualRanges⦄
    ⦃gdt : SegmentTables gdt_entries⦄ where
  -- What the cores share. `init` is `INIT_TABLE` and `count` is `CPU_COUNT`.
  pub record Shared : Type 0 where
    pub vmm : Vmm
    pub frames : Frames
    pub gdt_table : gdt.Table
    pub init : TableRoot
    pub count : ℕ

  -- The next step of `ap_start`.
  unfoldable pub ap_step : ℕ → Core → Shared → Outcome (Core × Shared)
  ap_step per_cpu_size c s = elim c.phase [
    | parked ↦ done (c, s)
    | told ↦ done (record c { phase = reloaded }, s)
    | reloaded ↦ do
      (area, vmm) ← take_area per_cpu_size s.vmm
      done (record c { phase = with_area area }, record s { vmm = vmm })
    | with_area area ↦ do
      (local, vmm) ← use_area per_cpu_size c.info area s.vmm
      done (record c { phase = with_storage; local = some local }, record s { vmm = vmm })
    | with_storage ↦ done (record c { phase = with_lapic }, s)
    | with_lapic ↦ do
      (_, t) ← install c.info.processor_id s.gdt_table
      done (record c { phase = with_segment }, record s { gdt_table = t })
    | with_segment ↦ do
      (frame, frames) ← table_frame s.frames
      done (record c { phase = with_frame frame }, record s { frames = frames })
    | with_frame frame ↦ do
      (root, frames) ← clone_table s.init frame s.frames
      done (record c { phase = with_table; table = some root }, record s { frames = frames })
    | with_table ↦ done (record c { phase = ready }, record s { count = (s.count + 1) % 2 ^ 64 })
    | ready ↦ done (c, s)
  ]

  pub record System : Type 0 where
    pub shared : Shared
    pub cores : List Core
    pub boot : Boot

  -- The start of `start_cpus`: the assertions.
  unfoldable pub begin : List Core → Shared → Outcome System
  begin cores s = do
    guard (not (length cores == 0)) no_core_found
    guard (leb (length cores) max_cpu) too_many_cores
    done (record { shared = s; cores = cores; boot = telling 0 })

  -- A core is parked or has no more to do.
  abbrev pub is_idle : Phase → Bool
  is_idle parked = true
  is_idle ready = true
  is_idle _ = false

  -- `first` is the index of the core that runs `start_cpus`. A turn of the loop that waits and finds
  -- another number than that of the cores changes nothing and is no step.
  pub data Step (per_cpu_size first : ℕ) (s : System) : System → Type 0 where
    tell :
        (i : ℕ) (c : Core)
        → s.boot ≡ telling i
        → get_elem? s.cores i ≡ some c
        → c.info.lapic_id ≢ 0
        → Step per_cpu_size first s
            (record s { cores = set s.cores i (record c { phase = told }); boot = telling (suc i) })
    skip :
        (i : ℕ) (c : Core)
        → s.boot ≡ telling i
        → get_elem? s.cores i ≡ some c
        → c.info.lapic_id ≡ 0
        → Step per_cpu_size first s (record s { boot = telling (suc i) })
    all_told :
        s.boot ≡ telling (length s.cores) → Step per_cpu_size first s (record s { boot = waiting })
    all_started :
        s.boot ≡ waiting
        → s.shared.count ≡ length s.cores
        → Step per_cpu_size first s (record s { boot = finished })
    work :
        (i : ℕ) (c c' : Core) (t : Shared)
        → i ≢ first
        → get_elem? s.cores i ≡ some c
        → is_idle c.phase ≡ false
        → ap_step per_cpu_size c s.shared ≡ done (c', t)
        → Step per_cpu_size first s (record s { shared = t; cores = set s.cores i c' })

  pub data Steps (per_cpu_size first : ℕ) (s : System) : System → Type 0 where
    stop : Steps per_cpu_size first s s
    later :
        {t u : System}
        → Steps per_cpu_size first s t
        → Step per_cpu_size first t u
        → Steps per_cpu_size first s u
