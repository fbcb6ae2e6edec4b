-- ===== src/Tests/Entries.antt =====
-- Page table entries as the processor reads them: the flags in the bits 0 to 11 and 52 to 63, the
-- address in the others.
use silicium_rs.Base.{
  ap, ℕ, ◌+◌, ◌*◌, ◌/◌, ◌%◌, ◌^◌, ◌≡◌, ◌<◌, refl, Bool, true, not, none, some, ◌==◌, if◌then◌else◌,
  arith,
}
use Prim.Native.Nat.{bit_or}
use silicium_rs.Crates.PageTables.{PageTables}
use silicium_rs.Tests.Bits.{bits, contains, contains-or, contains-digit, digit}

abbrev pub is_present : ℕ → Bool
is_present e = e % 2 == 1

abbrev pub address_bits : ℕ → ℕ
address_bits e = e / 4096 % 0x100_0000_0000 * 4096

abbrev pub flag_bits : ℕ → ℕ
flag_bits e = e % 4096 + e / 0x10_0000_0000_0000 * 0x10_0000_0000_0000

abbrev pub set_address : ℕ → ℕ → ℕ
set_address e a = flag_bits e + address_bits a

abbrev pub set_flags : ℕ → ℕ → ℕ
set_flags e f = address_bits e + flag_bits f

pub contains-present : (f : ℕ) → contains f 1 ≡ is_present f
unfolding digit
contains-present f = contains-digit f 0

pub address_lem :
    (e : ℕ)
    → is_present e ≡ true
    → (if is_present e then some (address_bits e) else none) ≡ some (address_bits e)
address_lem e h = rw h refl

pub address_bits-set_address :
    (e a : ℕ) → a % 4096 ≡ 0 → a < 0x10_0000_0000_0000 → address_bits (set_address e a) ≡ a
address_bits-set_address e a h k = omega arith

pub address_bits-set_flags : (e f : ℕ) → address_bits (set_flags e f) ≡ address_bits e
address_bits-set_flags e f = omega arith

pub is_present-set_address : (e a : ℕ) → is_present (set_address e a) ≡ is_present e
is_present-set_address e a = ground arith

pub is_present-set_flags : (e f : ℕ) → is_present (set_flags e f) ≡ contains f 1
is_present-set_flags e f = ground (arith, contains-present f)

pub is_present-add_flags : (e f : ℕ) → contains f 1 ≡ true → is_present (bit_or e f) ≡ true
is_present-add_flags e f h = ground (arith, contains-present (bit_or e f), contains-or e f 0)

pub flags-set_flags : (e f : ℕ) → (address_bits f == 0) ≡ true → flag_bits (set_flags e f) ≡ f
flags-set_flags e f h = ground arith

-- Nine bits of the address for each level, after the twelve of the offset.
abbrev pub page_index : ℕ → ℕ → ℕ
page_index at l = at / 4096 / 2 ^ (9 * l) % 512

pub page_index_page : (at l : ℕ) → page_index (at / 4096 * 4096) l ≡ page_index at l
page_index_page at l =
    let same : at / 4096 * 4096 / 4096 ≡ at / 4096 = omega arith in
    ap (λ (a : ℕ). a / 2 ^ (9 * l) % 512) same

instance abbrev pub page_tables : PageTables
page_tables = record {
  page_map_level4 = 3;
  pml4_offset = λ at. page_index at 3;
  entry_count = 512;
  page_index = page_index;
  present_bit = 0;
  writable_bit = 1;
  no_execute_bit = 63;
  no_cache_bit = 4;
  write_through_bit = 3;
  protection_violation_bit = 0;
  write_access_bit = 1;
  instruction_fetch_bit = 4;
  is_flags = λ f. address_bits f == 0;
  is_present = is_present;
  is_writable = λ e. contains e 2;
  is_executable = λ e. not (contains e (2 ^ 63));
  address = λ e. if is_present e then some (address_bits e) else none;
  flags = flag_bits;
  set_address = set_address;
  set_flags = set_flags;
  add_flags = bit_or;
  clear = λ e. 0;
  address_bits = address_bits;
  page_map_level4_lem = refl;
  page_index-lt = λ at l. omega arith;
  pml4_offset_lem = λ at. refl;
  entry_count_lem = refl;
  page_index_page = page_index_page;
  address_lem = address_lem;
  address_bits-set_address = address_bits-set_address;
  address_bits-set_flags = address_bits-set_flags;
  is_present-set_address = is_present-set_address;
  is_present-set_flags = is_present-set_flags;
  is_present-add_flags = is_present-add_flags;
  is_present-clear = λ e. refl;
  is_present-zero = refl;
  flags-set_flags = flags-set_flags;
}
