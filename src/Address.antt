-- ===== src/Address.antt =====
-- src/arch/address.rs: the high half direct map (HHDM).
pub mod Laws
use silicium_rs.Base.{
  ℕ, Bool, ◌&&◌, ltb, leb, Outcome, ◌>>=◌, ◌>>◌, guard, not_in_hhdm, add64, sub64,
}
use silicium_rs.Crates.Addresses.{Addresses, Physical, Virtual}

module _ ⦃x : Addresses⦄ where
  unfoldable pub phys_to_virt : Physical → Outcome Virtual
  phys_to_virt phys = x.virtual_new (add64 phys 0xffff_8000_0000_0000)

  unfoldable pub virt_to_phys : Virtual → Outcome Physical
  virt_to_phys virt = do
    guard (leb 0xffff_8000_0000_0000 virt && ltb virt 0xffff_8fff_ffff_ffff) not_in_hhdm
    x.physical_new (sub64 virt 0xffff_8000_0000_0000)
