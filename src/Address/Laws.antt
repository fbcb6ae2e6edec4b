-- ===== src/Address/Laws.antt =====
-- Round trips between physical addresses and the HHDM, and the test of its bounds.
use silicium_rs.Base.{
  ℕ, ◌+◌, ◌<◌, ◌≤◌, ◌≡◌, ◌⊎◌, inl, inr, ◌-◌, dec_lt, done, panicked, not_in_hhdm, ◌>>=◌, arith,
  add64-eq, sub64-eq,
}
use silicium_rs.Crates.Addresses.{Addresses}
use silicium_rs.Address.{phys_to_virt, virt_to_phys}

module _ ⦃x : Addresses⦄ where
  pub phys_to_virt-eq :
      (p : ℕ) → p < 0x8000_0000_0000 → phys_to_virt p ≡ done (p + 0xffff_8000_0000_0000)
  unfolding phys_to_virt
  phys_to_virt-eq p h =
      ground
        (arith, add64-eq p 0xffff_8000_0000_0000, x.virtual_new-high (p + 0xffff_8000_0000_0000))

  pub virt_to_phys-add :
      (p : ℕ) → p < 0x0fff_ffff_ffff → virt_to_phys (p + 0xffff_8000_0000_0000) ≡ done p
  unfolding virt_to_phys
  virt_to_phys-add p h =
      ground
        (arith, x.physical_new-valid p, sub64-eq (p + 0xffff_8000_0000_0000) 0xffff_8000_0000_0000)

  -- A physical address below 0x0FFF_FFFF_FFFF comes back from its address in the HHDM.
  pub virt_to_phys-phys_to_virt :
      (p : ℕ) → p < 0x0fff_ffff_ffff → (phys_to_virt p >>= virt_to_phys) ≡ done p
  virt_to_phys-phys_to_virt p h = ground (arith, phys_to_virt-eq p, virt_to_phys-add p)

  -- Either the virtual address is from 0xFFFF_8000_0000_0000 up to but not including
  -- 0xFFFF_8FFF_FFFF_FFFF, and `virt_to_phys` returns its distance from the former, from which
  -- `phys_to_virt` leads back to the virtual address; or it is outside, and `virt_to_phys` panics.
  pub virt_to_phys_cases :
      (v : ℕ)
      → ((0xffff_8000_0000_0000 ≤ v)
          × (v < 0xffff_8fff_ffff_ffff)
          × (virt_to_phys v ≡ done (v - 0xffff_8000_0000_0000))
          × (phys_to_virt (v - 0xffff_8000_0000_0000) ≡ done v))
        ⊎ ((virt_to_phys v ≡ panicked not_in_hhdm)
            × ((v < 0xffff_8000_0000_0000) ⊎ (0xffff_8fff_ffff_ffff ≤ v)))
  unfolding virt_to_phys
  virt_to_phys_cases v = elim (dec_lt v 0xffff_8000_0000_0000) [
    | yes low ↦ inr (ground arith, inl low)
    | no low ↦ elim (dec_lt v 0xffff_8fff_ffff_ffff) [
      | no high ↦ inr (ground arith, inr (omega arith))
      | yes high ↦
          let p : ℕ = v - 0xffff_8000_0000_0000 in
          let e : p + 0xffff_8000_0000_0000 ≡ v = omega arith in
          inl (
            omega arith,
            omega arith,
            rw e at (virt_to_phys-add p (omega arith)),
            rw e at (phys_to_virt-eq p (omega arith)),
          )
    ]
  ]
