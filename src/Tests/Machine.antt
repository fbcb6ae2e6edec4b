-- ===== src/Tests/Machine.antt =====
-- The addresses of the x86_64 crate, with its limits.
use silicium_rs.Base.{
  ℕ, ◌+◌, ◌-◌, ◌*◌, ◌/◌, ◌%◌, ◌≤◌, ◌<◌, ◌≡◌, refl, ◌||◌, ◌&&◌, ◌==◌, ltb, leb, if◌then◌else◌,
  Outcome, done, panicked, invalid_address, arith,
}
use silicium_rs.Crates.Addresses.{Addresses}

abbrev pub physical_new : ℕ → Outcome ℕ
physical_new a = if ltb a 0x10_0000_0000_0000 then done a else panicked invalid_address

abbrev pub virtual_new : ℕ → Outcome ℕ
virtual_new a =
    if ltb a 0x8000_0000_0000 || leb 0xffff_8000_0000_0000 a && ltb a 0x1_0000_0000_0000_0000
    then done a
    else panicked invalid_address

pub physical_new-valid : (a : ℕ) → a < 0x10_0000_0000_0000 → physical_new a ≡ done a
physical_new-valid a h = ground arith

pub physical_new-invalid :
    (a : ℕ) → 0x10_0000_0000_0000 < a → physical_new a ≡ panicked invalid_address
physical_new-invalid a h = ground arith

pub virtual_new-low : (a : ℕ) → a < 0x8000_0000_0000 → virtual_new a ≡ done a
virtual_new-low a h = ground arith

pub virtual_new-high :
    (a : ℕ) → 0xffff_8000_0000_0000 ≤ a → a < 0x1_0000_0000_0000_0000 → virtual_new a ≡ done a
virtual_new-high a h k = ground arith

pub physical_sub-valid :
    (a n : ℕ) → n ≤ a → a < 0x10_0000_0000_0000 → physical_new (a - n) ≡ done (a - n)
physical_sub-valid a n h k = ground arith

pub virtual_add-high :
    (a n : ℕ)
    → 0xffff_8000_0000_0000 ≤ a
    → a + n < 0x1_0000_0000_0000_0000
    → virtual_new (a + n) ≡ done (a + n)
virtual_add-high a n h k = virtual_new-high (a + n) (omega arith) k

instance abbrev pub addresses : Addresses
addresses = record {
  physical_new = physical_new;
  physical_add = λ a n. physical_new (a + n);
  physical_sub = λ a n. physical_new (a - n);
  is_page_aligned = λ a. a % 4096 == 0;
  frame_index = λ a. a / 4096;
  virtual_add = λ a n. virtual_new (a + n);
  virtual_new = virtual_new;
  page_align_down = λ a. a / 4096 * 4096;
  as_ptr = λ a. a + 0xffff_8000_0000_0000;
  page_align_up = λ a. (a + 4095) / 4096 * 4096;
  page_mask = λ a. a / 4096 * 4096;
  page_size = 4096;
  page_shift = 12;
  physical_new-valid = physical_new-valid;
  physical_new-invalid = physical_new-invalid;
  physical_add-valid = λ a n. physical_new-valid (a + n);
  physical_sub-valid = physical_sub-valid;
  is_page_aligned_lem = λ a. refl;
  frame_index_lem = λ a. refl;
  virtual_new-low = virtual_new-low;
  virtual_new-high = virtual_new-high;
  virtual_add-high = virtual_add-high;
  page_align_down_lem = λ a. refl;
  page_align_up_lem = λ a h. refl;
  page_mask_lem = λ a. refl;
  page_size_lem = refl;
  page_shift_lem = refl;
}
