-- ===== src/Current/Init.antt =====
-- The initial root table, the first active one, and `setup` of src/arch/paging.rs as a whole.
use silicium_rs.Base.{ℕ, Outcome, done, ◌>>=◌}
use silicium_rs.Crates.Addresses.{Addresses}
use silicium_rs.Crates.BitFlags.{BitFlags}
use silicium_rs.Crates.PageTables.{PageTables}
use silicium_rs.Address.{virt_to_phys}
use silicium_rs.Frame.{new}
use silicium_rs.Allocator.{Frames, reference}
use silicium_rs.Paging.Start
use silicium_rs.PageFault.{active_table}
use silicium_rs.Current.{TableRoot, from, clone}

-- `INIT_TABLE` and `ACTIVE_TABLE` of a core, and its CR3, once they are there.
pub record Tables : Type 0 where
  pub init : TableRoot
  pub active : TableRoot
  pub cr3 : ℕ

module _ ⦃x : Addresses⦄ ⦃bits : BitFlags⦄ ⦃pt : PageTables⦄ where
  -- The first use of `INIT_TABLE`: the root table that the boot loader has left in CR3.
  unfoldable pub init_table : ℕ → Frames → Outcome (TableRoot × Frames)
  init_table cr3 s = do
    table ← active_table cr3
    virtual ← x.virtual_new table
    physical ← virt_to_phys virtual
    boot_pml4 ← new physical
    s ← reference boot_pml4 s
    root ← from boot_pml4
    done (root, s)

  -- `setup`, with the first uses of `ACTIVE_TABLE`, which is a clone of `INIT_TABLE`, and of
  -- `INIT_TABLE`, and with the change of CR3 between.
  unfoldable pub setup : ℕ → Frames → Outcome (Tables × Frames)
  setup cr3 s = do
    (init, s) ← init_table cr3 s
    (active, s) ← clone init s
    s ← Start.setup active.addr s
    done (record { init = init; active = active; cr3 = active.frame.start }, s)
