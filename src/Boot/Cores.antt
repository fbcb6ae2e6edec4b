-- ===== src/Boot/Cores.antt =====
-- The storage of the first core and those of the cores that `start_cpus` starts after `init_bsp`.
use silicium_rs.Base.{ℕ, ◌≡◌, some, List, get_elem?}
use silicium_rs.Crates.Addresses.{Addresses}
use silicium_rs.Crates.BitFlags.{BitFlags}
use silicium_rs.Crates.PageTables.{PageTables}
use silicium_rs.Crates.VirtualRanges.{VirtualRanges}
use silicium_rs.Crates.SegmentTables.{SegmentTables}
use silicium_rs.Vmm
use silicium_rs.Smp.Local.{gdt_entries, SmpInfo, ThreadLocalInfo}
use silicium_rs.Smp.System.{Core, Boot, Shared, System}
use silicium_rs.Smp.Start.{IsParked}
use silicium_rs.Boot.{FirstCore}

module _ ⦃x : Addresses⦄ ⦃bits : BitFlags⦄ ⦃pt : PageTables⦄ ⦃ranges : VirtualRanges⦄
    ⦃gdt : SegmentTables gdt_entries⦄ where
  -- The state that `start_cpus` begins with: the other cores are parked, only the core that ran
  -- `init_bsp` has storage, and the areas are those that it left.
  pub record AfterInit (first : ℕ) (info : SmpInfo) (c : FirstCore) (cores : List Core) (s : Shared)
      : Type 0 where
    pub parked : IsParked first cores s
    pub areas : s.vmm ≡ c.vmm
    pub init : s.init ≡ c.tables.init
    pub locals :
        (j : ℕ) (d : Core) (l : ThreadLocalInfo)
        → get_elem? cores j ≡ some d
        → d.local ≡ some l
        → (j ≡ first) × (d.info ≡ info) × (l ≡ c.local)
