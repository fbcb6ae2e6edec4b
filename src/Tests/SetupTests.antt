-- ===== src/Tests/SetupTests.antt =====
-- The frame array of a small memory map: the kernel in the first three frames, five usable ones.
use silicium_rs.Base.{ℕ, ◌<◌, ◌≡◌, refl, arith, List, [], ◌∷◌, some, done, length, get_elem?, add64}
use silicium_rs.Frame.{Stats}
use silicium_rs.FrameState.{FrameInfo}
use silicium_rs.FrameState.Slices.{find}
use silicium_rs.FrameState.Setup.{MemmapEntry, kernel_and_modules, usable, last_usable, setup}
use silicium_rs.FrameState.Setup.Result.{holds, settled, setup-settled}
use silicium_rs.Tests.Bits.{bits}
use silicium_rs.Tests.Machine.{addresses}

abbrev pub free_region : MemmapEntry
free_region = record { base = 0x3000; len = 0x5000; typ = usable }

abbrev pub memory_map : List MemmapEntry
memory_map = record { base = 0; len = 0x3000; typ = kernel_and_modules } ∷ free_region ∷ []

pub last_usable_test : last_usable memory_map ≡ some 0x8000
unfolding last_usable add64
last_usable_test = refl

pub find_test : find (holds 8) memory_map ≡ some (1, free_region)
unfolding find
find_test = refl

setup-settled_example :
    (array : List FrameInfo) × (stats : Stats) × (setup [] memory_map ≡ done (array, stats))
    × (length array ≡ 8)
    × ((j : ℕ) → j < 8 → get_elem? array j ≡ some (settled memory_map free_region 8 j))
setup-settled_example =
    setup-settled memory_map 0x8000 1 free_region (omega arith, (omega arith, tt)) last_usable_test
      find_test (omega arith) (omega arith)
