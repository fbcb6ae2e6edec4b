-- ===== src/Tests/FrameTests.antt =====
-- Frames, ranges and the direct map at concrete inputs.
use silicium_rs.Base.{
  ◌-◌, ℕ, ◌+◌, ◌*◌, ◌≡◌, ◌⊎◌, done, panicked, ◌>>=◌, arith, sub64, not_in_hhdm, ◌<◌, ◌≤◌,
}
use silicium_rs.Address.{phys_to_virt, virt_to_phys}
use silicium_rs.Address.Laws.{virt_to_phys-phys_to_virt, virt_to_phys_cases}
use silicium_rs.Frame.{frame, Range}
use silicium_rs.Frame.Ranges.{range, count, collect}
use silicium_rs.Frame.Ranges.Laws.{frames_from, IsRange, collect-frames_from}
use silicium_rs.Tests.Machine.{addresses}

virt_to_phys-phys_to_virt_example : (phys_to_virt 0x1000 >>= virt_to_phys) ≡ done 0x1000
virt_to_phys-phys_to_virt_example = virt_to_phys-phys_to_virt 0x1000 (omega arith)

abbrev last : ℕ
last = 0xffff_8fff_ffff_ffff

virt_to_phys_cases_example :
    ((0xffff_8000_0000_0000 ≤ last)
      × (last < 0xffff_8fff_ffff_ffff)
      × (virt_to_phys last ≡ done (last - 0xffff_8000_0000_0000))
      × (phys_to_virt (last - 0xffff_8000_0000_0000) ≡ done last))
    ⊎ ((virt_to_phys last ≡ panicked not_in_hhdm)
        × ((last < 0xffff_8000_0000_0000) ⊎ (0xffff_8fff_ffff_ffff ≤ last)))
virt_to_phys_cases_example = virt_to_phys_cases 0xffff_8fff_ffff_ffff

abbrev three : Range
three = range (frame 0x3000) (frame 0x6000)

three-IsRange : IsRange three
three-IsRange = omega arith

collect-frames_from_example :
    (collect 4 three ≡ done (frames_from 0x3000 (count three)))
    × (0x3000 + count three * 4096 ≡ 0x6000)
unfolding count sub64
collect-frames_from_example = collect-frames_from three 4 three-IsRange (omega arith)
