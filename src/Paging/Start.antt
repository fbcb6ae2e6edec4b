-- ===== src/Paging/Start.antt =====
-- `setup` of src/arch/paging.rs: the tables below the entries of the kernel's half are allocated.
pub mod Laws
use silicium_rs.Base.{
  ℕ, zero, suc, ◌+◌, ◌-◌, ◌*◌, if◌then◌else◌, Outcome, done, ◌>>=◌, or_panic, unwrap_none,
}
use silicium_rs.Crates.Addresses.{Addresses, Virtual}
use silicium_rs.Crates.BitFlags.{BitFlags}
use silicium_rs.Crates.PageTables.{PageTables}
use silicium_rs.Frame.Flags
use silicium_rs.Allocator.{Frames, allocate}
use silicium_rs.Paging.{write, present, writable}

abbrev pub kernel_base : Virtual
kernel_base = 0xFFFF_8000_0000_0000

module _ ⦃x : Addresses⦄ ⦃bits : BitFlags⦄ ⦃pt : PageTables⦄ where
  -- The body of the loop, for the entry at an address.
  unfoldable pub preallocate : Virtual → Frames → Outcome Frames
  preallocate entry s = if pt.is_present (s.memory entry) then done s else do
    (found, s) ← allocate Flags.kernel s
    frame ← or_panic found unwrap_none
    let e = pt.set_flags (pt.set_address (s.memory entry) frame.start) (bits.union present writable)
    done (record s { memory = write s.memory entry e })

  -- The loop over `n` entries from the index `i` on.
  unfoldable pub preallocate_all : ℕ → ℕ → Virtual → Frames → Outcome Frames
  preallocate_all zero i table s = done s
  preallocate_all (suc n) i table s = do
    s ← preallocate (table + i * 8) s
    preallocate_all n (suc i) table s

  -- `setup`, on the active root table.
  unfoldable pub setup : Virtual → Frames → Outcome Frames
  setup table s =
      let start = pt.pml4_offset kernel_base in
      preallocate_all (pt.entry_count - start) start table s
