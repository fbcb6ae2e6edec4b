-- ===== src/Current.antt =====
-- The operations of src/arch/paging.rs on root tables and on the active one.
pub mod Clone
pub mod Init
use silicium_rs.Base.{
  ◌+◌, ◌-◌, ◌*◌, ◌&&◌, leb, ltb, if◌then◌else◌, or_panic, unwrap_none, Option, Outcome, done, ◌>>=◌,
  ℕ,
}
use silicium_rs.Crates.Addresses.{Addresses, Physical, Virtual}
use silicium_rs.Crates.BitFlags.{BitFlags}
use silicium_rs.Crates.PageTables.{PageTables}
use silicium_rs.Address.{phys_to_virt}
use silicium_rs.Frame.{Frame}
use silicium_rs.Allocator.{Memory, Frames, allocate}
use silicium_rs.Paging.{Machine, MapResult, kernel_zeroed, map, unmap}
use silicium_rs.PageFault.{Kernel}

pub record TableRoot : Type 0 where
  pub addr : Virtual
  pub frame : Frame

abbrev pub set_machine : Machine → Kernel → Kernel
set_machine m k = record k { machine = m }

-- `change_table`.
unfoldable pub change_table : TableRoot → Kernel → Kernel
change_table table k = record k { cr3 = table.frame.start }

-- `ACTIVE_TABLE` is represented by the address of its table.
unfoldable pub set_current_table : TableRoot → Kernel → Kernel
set_current_table table k = change_table table (record k { active = table.addr })

abbrev pub set_frames : Frames → Kernel → Kernel
set_frames s k = set_machine (record k.machine { frames = s }) k

-- `copy_nonoverlapping` of `n` bytes.
unfoldable pub copy : Virtual → Virtual → ℕ → Memory → Memory
copy dst src n m a = if leb dst a && ltb a (dst + n) then m (a - dst + src) else m a

module _ ⦃x : Addresses⦄ ⦃bits : BitFlags⦄ ⦃pt : PageTables⦄ where
  -- `TableRoot::from`.
  unfoldable pub from : Frame → Outcome TableRoot
  from phys = do addr ← phys_to_virt phys.start; done (record { addr = addr; frame = phys })

  -- The frame of a new root table.
  unfoldable pub table_frame : Frames → Outcome (Frame × Frames)
  table_frame s = do
    (found, s) ← allocate kernel_zeroed s
    frame ← or_panic found unwrap_none
    done (frame, s)

  -- A part of the entries of another table is copied: `n` bytes from an offset on.
  unfoldable pub copy_table : Virtual → ℕ → ℕ → Frame → Frames → Outcome (TableRoot × Frames)
  copy_table src offset n frame s = do
    let dst = x.as_ptr frame.start + offset
    addr ← phys_to_virt frame.start
    done (
      record { addr = addr; frame = frame },
      record s { memory = copy dst (src + offset) n s.memory },
    )

  unfoldable pub new_table : Virtual → ℕ → ℕ → Frames → Outcome (TableRoot × Frames)
  new_table src offset n s = do (frame, s) ← table_frame s; copy_table src offset n frame s

  -- `TableRoot::new`, which takes the kernel's half of the initial table.
  unfoldable pub new : TableRoot → Frames → Outcome (TableRoot × Frames)
  new init s = new_table init.addr (256 * 8) (256 * 8) s

  -- `clone` of a `TableRoot`, after its frame is allocated, and as a whole.
  unfoldable pub clone_table : TableRoot → Frame → Frames → Outcome (TableRoot × Frames)
  clone_table root frame s = copy_table (x.as_ptr root.frame.start) 0 4096 frame s

  unfoldable pub clone : TableRoot → Frames → Outcome (TableRoot × Frames)
  clone root s = do (frame, s) ← table_frame s; clone_table root frame s

  unfoldable pub map_current : Virtual → Frame → ℕ → Kernel → Outcome (MapResult × Kernel)
  map_current at f flags k = do
    (result, s) ← map k.active at f flags k.machine.frames
    done (result, set_frames s k)

  unfoldable pub unmap_current : Virtual → Kernel → Outcome (Option Physical × Kernel)
  unmap_current at k = do (target, m) ← unmap k.active at k.machine; done (target, set_machine m k)
