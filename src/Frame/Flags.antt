-- ===== src/Frame/Flags.antt =====
-- The `FrameFlags` and `AllocationFlags` of src/mm/frame/mod.rs.
use silicium_rs.Base.{ℕ, ◌^◌}

abbrev pub poisoned : ℕ
poisoned = 2 ^ 0

abbrev pub reserved : ℕ
reserved = 2 ^ 1

abbrev pub free : ℕ
free = 2 ^ 2

abbrev pub zeroed : ℕ
zeroed = 2 ^ 3

abbrev pub dirty : ℕ
dirty = 2 ^ 4

abbrev pub kernel : ℕ
kernel = 2 ^ 5

abbrev pub borrowed : ℕ
borrowed = 2 ^ 6

abbrev pub bios : ℕ
bios = 2 ^ 7

abbrev pub isa : ℕ
isa = 2 ^ 8

abbrev pub x86 : ℕ
x86 = 2 ^ 9
