-- ===== src/Crates/PageTables.antt =====
-- `Level`, `PageTable`, `PageEntry` and the flags of x86_64::paging. A page table is 512 entries of
-- 8 bytes. A level is given by the number of levels below it: 0 is `Level::PageTable`, and
-- `Level::next` of a level that is not the last is one less.
use silicium_rs.Base.{ℕ, ◌*◌, ◌/◌, ◌%◌, ◌^◌, ◌<◌, ◌≡◌, Bool, true, false, Option, some}
use silicium_rs.Crates.Addresses.{Physical, Virtual}
use silicium_rs.Crates.BitFlags.{BitFlags}

abbrev pub Level : Type 0
Level = ℕ

-- The `u64` of an entry.
abbrev pub PageEntry : Type 0
PageEntry = ℕ

pub record PageTables ⦃bits : BitFlags⦄ : Type 0 where
  -- `Level::PageMapLevel4`
  pub page_map_level4 : Level
  -- `Virtual::pml4_offset` and `PageTable::COUNT`
  pub pml4_offset : Virtual → ℕ
  pub entry_count : ℕ
  pub page_index : Virtual → Level → ℕ
  -- the bits of `PageEntryFlags`
  pub present_bit : ℕ
  pub writable_bit : ℕ
  pub no_execute_bit : ℕ
  pub no_cache_bit : ℕ
  pub write_through_bit : ℕ
  -- the bits of `PageFaultErrorCode`
  pub protection_violation_bit : ℕ
  pub write_access_bit : ℕ
  pub instruction_fetch_bit : ℕ
  -- the values that a `PageEntryFlags` can have
  pub is_flags : ℕ → Bool
  pub is_present : PageEntry → Bool
  pub is_writable : PageEntry → Bool
  pub is_executable : PageEntry → Bool
  pub address : PageEntry → Option Physical
  pub flags : PageEntry → ℕ
  -- the methods that change an entry, with the entry's new value
  pub set_address : PageEntry → Physical → PageEntry
  pub set_flags : PageEntry → ℕ → PageEntry
  pub add_flags : PageEntry → ℕ → PageEntry
  pub clear : PageEntry → PageEntry
  -- the address bits of an entry, which `address` returns if the entry is present
  pub address_bits : PageEntry → Physical
  pub page_map_level4_lem : page_map_level4 ≡ 3
  pub page_index-lt : (at : Virtual) (l : Level) → page_index at l < 512
  pub pml4_offset_lem : (at : Virtual) → pml4_offset at ≡ page_index at page_map_level4
  pub entry_count_lem : entry_count ≡ 512
  pub page_index_page :
      (at : Virtual) (l : Level) → page_index (at / 4096 * 4096) l ≡ page_index at l
  pub address_lem : (e : PageEntry) → is_present e ≡ true → address e ≡ some (address_bits e)
  pub address_bits-set_address :
      (e : PageEntry) (a : Physical)
      → a % 4096 ≡ 0
      → a < 2 ^ 52
      → address_bits (set_address e a) ≡ a
  pub address_bits-set_flags :
      (e : PageEntry) (f : ℕ) → address_bits (set_flags e f) ≡ address_bits e
  pub is_present-set_address :
      (e : PageEntry) (a : Physical) → is_present (set_address e a) ≡ is_present e
  pub is_present-set_flags :
      (e : PageEntry) (f : ℕ) → is_present (set_flags e f) ≡ bits.contains f (2 ^ present_bit)
  pub is_present-add_flags :
      (e : PageEntry) (f : ℕ)
      → bits.contains f (2 ^ present_bit) ≡ true
      → is_present (add_flags e f) ≡ true
  pub is_present-clear : (e : PageEntry) → is_present (clear e) ≡ false
  pub is_present-zero : is_present 0 ≡ false
  pub flags-set_flags : (e : PageEntry) (f : ℕ) → is_flags f ≡ true → flags (set_flags e f) ≡ f
