-- ===== src/Paging.antt =====
-- src/arch/paging.rs: walks of the page tables, mappings and their changes.
pub mod Walk
pub mod Space
pub mod Grow
pub mod NewTable
pub mod Create
pub mod Kept
pub mod NewFrame
pub mod Map
pub mod Translation
pub mod Unmap
pub mod Served
pub mod Given
pub mod Separate
pub mod Protection
pub mod Start
pub mod CreatePte
use silicium_rs.Base.{
  ℕ, zero, suc, ◌+◌, ◌-◌, ◌*◌, ◌/◌, ◌%◌, ◌^◌, Bool, true, false, not, Option, none, some, List, [],
  ◌∷◌, ◌++◌, ◌==◌, if◌then◌else◌, Outcome, done, ◌>>=◌, ◌>>◌, or_panic, unwrap_none, add64,
}
use silicium_rs.Crates.Addresses.{Addresses, Physical, Virtual}
use silicium_rs.Crates.BitFlags.{BitFlags}
use silicium_rs.Crates.PageTables.{PageTables, PageEntry, Level}
use silicium_rs.Address.{phys_to_virt}
use silicium_rs.Frame.{Frame}
use silicium_rs.Frame.Flags
use silicium_rs.Allocator.{Memory, Frames, allocate}

pub data MapError : Type 0 where
  out_of_memory already_mapped : MapError

pub data MapResult : Type 0 where
  ok : MapResult
  err : MapError → MapResult

-- What the core and its local APIC are told, the latest first.
pub data Event : Type 0 where
  reload_cr3 : Event
  send_ipi : ℕ → Event
  send_nmi : ℕ → Event
  send_eoi : Event
  pic_eoi : ℕ → Event

pub record Cpu : Type 0 where
  pub lapic_initialized : Bool
  pub events : List Event

pub record Machine : Type 0 where
  pub frames : Frames
  pub cpu : Cpu

abbrev pub tlb_shootdown_vector : ℕ
tlb_shootdown_vector = 0xF0

unfoldable pub flush_all : Cpu → Cpu
flush_all c = record c { events = reload_cr3 ∷ c.events }

unfoldable pub shootdown : Cpu → Cpu
unfolding flush_all
shootdown c =
    let c' = flush_all c in
    if c.lapic_initialized
    then record c' { events = send_ipi tlb_shootdown_vector ∷ c'.events }
    else c'

-- A write of one word.
abbrev pub write : Memory → Virtual → ℕ → Memory
write m at v a = if at == a then v else m a

module _ ⦃x : Addresses⦄ ⦃bits : BitFlags⦄ ⦃pt : PageTables⦄ where
  abbrev pub present : ℕ
  present = 2 ^ pt.present_bit

  abbrev pub writable : ℕ
  writable = 2 ^ pt.writable_bit

  -- The address of the entry `table[at.page_index(level)]`.
  abbrev pub slot : Virtual → Level → Virtual → Virtual
  slot table l at = table + pt.page_index at l * 8

  -- The table that a present entry leads to.
  unfoldable pub next_table : PageEntry → Outcome Virtual
  next_table e = do phys ← or_panic (pt.address e) unwrap_none; phys_to_virt phys

  -- `fetch_pte` and `fetch_pte_mut`: a reference to an entry is the entry's address.
  unfoldable pub fetch_pte : Level → Virtual → Virtual → Memory → Outcome (Option Virtual)
  fetch_pte zero table at m =
      if pt.is_present (m (slot table zero at)) then done (some (slot table zero at)) else done none
  fetch_pte (suc l) table at m =
      if pt.is_present (m (slot table (suc l) at))
      then (do next ← next_table (m (slot table (suc l) at)); fetch_pte l next at m)
      else done none

  abbrev pub kernel_zeroed : ℕ
  kernel_zeroed = bits.union Flags.kernel Flags.zeroed

  -- The entry at an address that is no leaf: if it is not present, a new table is allocated for
  -- it. `false` if there is no frame.
  unfoldable pub ensure_entry : Virtual → Frames → Outcome (Bool × Frames)
  ensure_entry entry s = if pt.is_present (s.memory entry) then done (true, s) else do
    (found, s') ← allocate kernel_zeroed s
    elim found [
      | none ↦ done (false, s')
      | some f ↦
          let e = pt.add_flags (s'.memory entry) (bits.union present writable) in
          done (true, record s' { memory = write s'.memory entry (pt.set_address e f.start) })
    ]

  unfoldable pub creat_and_fetch_pte :
      Level → Virtual → Virtual → Frames → Outcome (Option Virtual × Frames)
  creat_and_fetch_pte zero table at s = done (some (slot table zero at), s)
  creat_and_fetch_pte (suc l) table at s = do
    (created, s') ← ensure_entry (slot table (suc l) at) s
    if created
        then (do
          next ← next_table (s'.memory (slot table (suc l) at))
          creat_and_fetch_pte l next at s')
        else done (none, s')

  -- The frame to map: a new one if the given one is null.
  unfoldable pub frame_to_map : Frame → Frames → Outcome (Option Frame × Frames)
  frame_to_map f s = if f.start == 0 then allocate kernel_zeroed s else done (some f, s)

  unfoldable pub map : Virtual → Virtual → Frame → ℕ → Frames → Outcome (MapResult × Frames)
  map table at f flags s = do
    (entry, s) ← creat_and_fetch_pte pt.page_map_level4 table at s
    elim entry [
      | none ↦ done (err out_of_memory, s)
      | some pte ↦ if pt.is_present (s.memory pte) then done (err already_mapped, s) else do
        (found, s) ← frame_to_map f s
        elim found [
          | none ↦ done (err out_of_memory, s)
          | some g ↦
              let e = pt.set_flags (pt.set_address (s.memory pte) g.start) flags in
              done (ok, record s { memory = write s.memory pte e })
        ]
    ]

  -- The offset of an address in its page, `at & 0xFFF`.
  abbrev pub page_offset : Virtual → ℕ
  page_offset at = at % 4096

  -- `fetch_pte` from the root, if the entry that it finds is present.
  unfoldable pub present_entry : Virtual → Virtual → Memory → Outcome (Option Virtual)
  present_entry table at m = do
    entry ← fetch_pte pt.page_map_level4 table at m
    elim entry [
      | none ↦ done none
      | some pte ↦ if pt.is_present (m pte) then done (some pte) else done none
    ]

  -- The physical address that a present entry gives.
  unfoldable pub entry_target : PageEntry → Virtual → Outcome Physical
  entry_target e at = do
    addr ← or_panic (pt.address e) unwrap_none
    x.physical_new (add64 addr (page_offset at))

  unfoldable pub unmap : Virtual → Virtual → Machine → Outcome (Option Physical × Machine)
  unmap table at s = do
    entry ← present_entry table at s.frames.memory
    elim entry [
      | none ↦ done (none, s)
      | some pte ↦ do
        let m = s.frames.memory
        target ← entry_target (m pte) at
        done (
          some target,
          record {
            frames = record s.frames { memory = write m pte (pt.clear (m pte)) };
            cpu = shootdown s.cpu;
          },
        )
    ]

  unfoldable pub protection : Virtual → Virtual → Memory → Outcome (Option ℕ)
  protection table at m = do
    entry ← present_entry table at m
    elim entry [ none ↦ done none | some pte ↦ done (some (pt.flags (m pte))) ]

  unfoldable pub change_protection : Virtual → Virtual → ℕ → Machine → Outcome (Option ℕ × Machine)
  change_protection table at flags s = do
    entry ← present_entry table at s.frames.memory
    elim entry [
      | none ↦ done (none, s)
      | some pte ↦
          let m = s.frames.memory in
          done (
            some (pt.flags (m pte)),
            record {
              frames = record s.frames { memory = write m pte (pt.set_flags (m pte) flags) };
              cpu = shootdown s.cpu;
            },
          )
    ]

  unfoldable pub translate : Virtual → Virtual → Memory → Outcome (Option Physical)
  translate table at m = do
    entry ← present_entry table at m
    elim entry [
      | none ↦ done none
      | some pte ↦ do target ← entry_target (m pte) at; done (some target)
    ]
