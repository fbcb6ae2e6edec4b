-- ===== src/Crates/Addresses.antt =====
-- The types `Physical`, `Virtual` and the paging constants of the x86_64 crate. An address is the
-- `u64` that `as_u64` returns. A physical address is valid below 2^52; a virtual address is valid
-- if it is canonical.
use silicium_rs.Base.{
  ℕ, ◌+◌, ◌-◌, ◌*◌, ◌/◌, ◌%◌, ◌^◌, ◌≤◌, ◌<◌, ◌≡◌, Bool, ◌==◌, Outcome, done, panicked,
  invalid_address,
}

abbrev pub Physical : Type 0
Physical = ℕ

abbrev pub Virtual : Type 0
Virtual = ℕ

abbrev pub physical_limit : ℕ
physical_limit = 2 ^ 52

abbrev pub high_half : ℕ
high_half = 0xffff_8000_0000_0000

pub record Addresses : Type 0 where
  -- `Physical::new`, and `+` and `-` of a `Physical` and a number
  pub physical_new : ℕ → Outcome Physical
  pub physical_add : Physical → ℕ → Outcome Physical
  pub physical_sub : Physical → ℕ → Outcome Physical
  pub is_page_aligned : Physical → Bool
  pub frame_index : Physical → ℕ
  -- `+` of a `Virtual` and a number
  pub virtual_add : Virtual → ℕ → Outcome Virtual
  -- `as_ptr` and `as_mut_ptr` of a `Physical`, by the address in the HHDM of the memory that they
  -- reach; what that is depends on the page tables, and a theorem says what it relies on
  pub as_ptr : Physical → Virtual
  -- `Virtual::new`, `Virtual::page_align_down` and `Virtual::page_align_up`
  pub virtual_new : ℕ → Outcome Virtual
  pub page_align_down : Virtual → Virtual
  pub page_align_up : Virtual → Virtual
  -- `a & PAGE_MASK`
  pub page_mask : ℕ → ℕ
  pub page_size : ℕ
  pub page_shift : ℕ
  pub physical_new-valid : (a : ℕ) → a < 2 ^ 52 → physical_new a ≡ done a
  pub physical_new-invalid : (a : ℕ) → 2 ^ 52 < a → physical_new a ≡ panicked invalid_address
  pub physical_add-valid : (a n : ℕ) → a + n < 2 ^ 52 → physical_add a n ≡ done (a + n)
  pub physical_sub-valid : (a n : ℕ) → n ≤ a → a < 2 ^ 52 → physical_sub a n ≡ done (a - n)
  pub is_page_aligned_lem : (a : ℕ) → is_page_aligned a ≡ (a % 4096 == 0)
  pub frame_index_lem : (a : ℕ) → frame_index a ≡ a / 4096
  pub virtual_new-low : (a : ℕ) → a < 2 ^ 47 → virtual_new a ≡ done a
  pub virtual_new-high : (a : ℕ) → 0xffff_8000_0000_0000 ≤ a → a < 2 ^ 64 → virtual_new a ≡ done a
  pub virtual_add-high :
      (a n : ℕ) → 0xffff_8000_0000_0000 ≤ a → a + n < 2 ^ 64 → virtual_add a n ≡ done (a + n)
  pub page_align_down_lem : (a : ℕ) → page_align_down a ≡ a / 4096 * 4096
  pub page_align_up_lem : (a : ℕ) → a + 4095 < 2 ^ 64 → page_align_up a ≡ (a + 4095) / 4096 * 4096
  pub page_mask_lem : (a : ℕ) → page_mask a ≡ a / 4096 * 4096
  pub page_size_lem : page_size ≡ 4096
  pub page_shift_lem : page_shift ≡ 12
