-- ===== src/Tests/BootTests.antt =====
-- The setup of memory and of the first core, over the answers of a bootloader.
use silicium_rs.Base.{ℕ, ◌≤◌, ◌≡◌, refl, arith, some, false, List, [], ◌∷◌, done, get_elem?}
use silicium_rs.Frame.{Stats, new_stats}
use silicium_rs.FrameState.{FrameInfo}
use silicium_rs.FrameState.Setup
use silicium_rs.Allocator
use silicium_rs.Allocator.{Frames, is_free}
use silicium_rs.Allocator.Invariant.{IsWf}
use silicium_rs.Paging.Start
use silicium_rs.Vmm
use silicium_rs.Current.Init
use silicium_rs.Smp.Local.{SmpInfo, find_bsp}
use silicium_rs.Boot.Accounts.{AreApart}
use silicium_rs.Boot.Settling.{setup-IsWf}
use silicium_rs.Boot.{Responses, hhdm_start}
use silicium_rs.Tests.InterruptTests.{tables_of_stubs}
use silicium_rs.Tests.Bits.{bits}
use silicium_rs.Tests.Machine.{addresses}
use silicium_rs.Tests.Entries.{page_tables}
use silicium_rs.Tests.VmmTests.{ranges}
use silicium_rs.Tests.SetupTests.{free_region, memory_map, last_usable_test, find_test}
use silicium_rs.Tests.SmpTests.{gdt}

abbrev pub cpus : List SmpInfo
cpus = record { processor_id = 1; lapic_id = 4 } ∷ record { processor_id = 0; lapic_id = 0 } ∷ []

abbrev pub answers : Responses
answers = record {
  stack = some tt;
  memmap = some memory_map;
  hhdm = some hhdm_start;
  rsdp = some 0xFFFF_8000_000E_0000;
  smp = some cpus;
}

abbrev nothing : Frames
nothing = record { array = []; statistic = new_stats; memory = λ _. 3 }

memory_map-AreApart : AreApart memory_map
memory_map-AreApart = (λ i c. ground (arith, c), ((λ i c. refl), tt))

setup-IsWf_example :
    (array : List FrameInfo) × (stats : Stats) × (Setup.setup [] memory_map ≡ done (array, stats))
    × IsWf 1 (record { array = array; statistic = stats; memory = λ _. 0 })
    × ((j : ℕ) (b : FrameInfo) → 3 ≤ j → j ≤ 3 → get_elem? array j ≡ some b → is_free b ≡ false)
setup-IsWf_example =
    setup-IsWf memory_map 0x8000 1 free_region (λ _. 0) (omega arith, (omega arith, tt))
      memory_map-AreApart last_usable_test find_test (omega arith) (omega arith)

pub find_bsp_test : find_bsp cpus ≡ some (record { processor_id = 0; lapic_id = 0 })
unfolding find_bsp
find_bsp_test = refl
