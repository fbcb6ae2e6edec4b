-- ===== src/Frame/Laws.antt =====
-- Frames and the addresses in them.
use silicium_rs.Base.{
  ℕ, ◌+◌, ◌*◌, ◌/◌, ◌%◌, ◌<◌, ◌≡◌, ◌≢◌, ◌⊎◌, ◌↔◌, inl, inr, true, done, panicked, frame_not_aligned,
  ◌>>=◌, arith, mul64, ℕ_discrete,
}
use silicium_rs.Crates.Addresses.{Addresses}
use silicium_rs.Frame.{Frame, frame, ok, err, new, try_new, contains, add, sub, index}

mul64-eq : (n : ℕ) → n * 4096 < 0x10000000000000 → mul64 n 4096 ≡ n * 4096
unfolding mul64
mul64-eq n h = omega arith

module _ ⦃x : Addresses⦄ where
  pub new-eq : (a : ℕ) → a % 4096 ≡ 0 → new a ≡ done (frame a)
  unfolding new
  new-eq a h = ground (arith, x.is_page_aligned_lem a)

  pub index-eq : (a : ℕ) → a < 0x10000000000000 → index a ≡ done (a / 4096)
  unfolding index
  index-eq a h = ground (arith, x.physical_new-valid a, x.frame_index_lem a)

  -- `new` and `try_new` accept the same addresses, those that are a multiple of 4096, and give the
  -- same frame. At any other address `new` panics and `try_new` returns the address with 4096.
  pub new-try_new :
      (a : ℕ)
      → ((a % 4096 ≡ 0) × (new a ≡ done (frame a)) × (try_new a ≡ ok (frame a)))
        ⊎ ((a % 4096 ≢ 0)
            × (new a ≡ panicked frame_not_aligned)
            × (try_new a ≡ err (record { address = a; alignment = 4096 })))
  unfolding new try_new
  new-try_new a = elim (ℕ_discrete (a % 4096) 0) [
    | yes h ↦
        inl (h, ground (arith, x.is_page_aligned_lem a), ground (arith, x.is_page_aligned_lem a))
    | no h ↦
        inr (h, ground (arith, x.is_page_aligned_lem a), ground (arith, x.is_page_aligned_lem a))
  ]

  -- `f + n - n` is `f`, for an aligned frame and while `f + n` is a valid address.
  pub sub-add :
      (f : Frame) (n : ℕ)
      → f.start % 4096 ≡ 0
      → f.start + n * 4096 < 0x10000000000000
      → (add f n >>= λ g. sub g n) ≡ done f
  unfolding add sub
  sub-add f n h k = ground (
    arith,
    mul64-eq n,
    x.physical_add-valid f.start (n * 4096),
    x.physical_sub-valid (f.start + n * 4096) (n * 4096),
    x.is_page_aligned_lem (f.start + n * 4096),
    x.is_page_aligned_lem f.start,
  )

  -- An address below 2^52 is in an aligned frame that ends below 2^52 exactly when its frame index
  -- is that of the frame.
  pub contains-index :
      (f : Frame) (a : ℕ)
      → f.start % 4096 ≡ 0
      → f.start + 4096 < 0x10000000000000
      → a < 0x10000000000000
      → (contains f a ≡ done true) ↔ (index a ≡ index f.start)
  unfolding contains
  contains-index f a h k b = (
    λ e. ground (arith, x.physical_add-valid f.start 4096, index-eq a, index-eq f.start),
    λ e. ground (arith, x.physical_add-valid f.start 4096, index-eq a, index-eq f.start),
  )
