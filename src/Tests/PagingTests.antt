-- ===== src/Tests/PagingTests.antt =====
-- Page tables with one mapped page, beside the four frames.
use silicium_rs.Base.{
  ℕ, zero, suc, ◌+◌, ◌*◌, ◌%◌, ◌≡◌, ◌<◌, refl, true, none, some, ◌==◌, if◌then◌else◌, arith, done,
  get_elem?, [], add64, ◌∷◌,
}
use silicium_rs.Address.{phys_to_virt}
use silicium_rs.Frame.{frame, new_stats}
use silicium_rs.Frame.Flags
use silicium_rs.FrameState.{FrameInfo}
use silicium_rs.FrameState.Slices.{find}
use silicium_rs.Allocator.{Memory, Frames, is_free, allocate, claim, zero_bytes}
use silicium_rs.Paging.{
  write, MapResult, Machine, ok, err, already_mapped, next_table, ensure_entry, creat_and_fetch_pte,
  frame_to_map, map, unmap, fetch_pte, present_entry, entry_target, protection, change_protection,
  translate, shootdown,
}
use silicium_rs.Paging.Space.{Typing, IsSpace, IsPaged}
use silicium_rs.Paging.Grow.{Extends}
use silicium_rs.Paging.Translation.{map-IsPaged, map-kept, translate-map}
use silicium_rs.Paging.Unmap.{map-already_mapped, unmap-translate, with_memory}
use silicium_rs.Paging.Protection.{change_protection-protection}
use silicium_rs.Tests.Bits.{bits}
use silicium_rs.Tests.Machine.{addresses}
use silicium_rs.Tests.Entries.{page_tables}
use silicium_rs.Tests.AllocatorTests.{four, four-IsWf, entry}

-- The tables at 0x100000, 0x101000, 0x102000 and 0x103000 map the page 0 to 0xb8000.
abbrev pub root : ℕ
root = 0xffff_8000_0010_0000

abbrev pub words : Memory
words a =
    if a == root
    then 0x10_1003
    else if a == root + 0x1000
    then 0x10_2003
    else if a == root + 0x2000
    then 0x10_3003
    else if a == root + 0x3000
    then 0xb_8003
    else 0

abbrev pub tables : Typing
tables a =
    if a == root
    then some 3
    else if a == root + 0x1000
    then some 2
    else if a == root + 0x2000
    then some 1
    else if a == root + 0x3000
    then some 0
    else none

abbrev pub paged : Frames
paged = record four { memory = words }

tables-aligned : (b l : ℕ) → tables b ≡ some l → b % 4096 ≡ 0
tables-aligned b l h = ground arith

tables-present :
    (b l i : ℕ)
    → tables b ≡ some (suc l)
    → i < 512
    → page_tables.is_present (words (b + i * 8)) ≡ true
    → i ≡ 0
tables-present b l i h k p = ground arith

tables-next : (b l : ℕ) → tables b ≡ some (suc l) → tables (b + 0x1000) ≡ some l
tables-next b l h = ground arith

-- Each entry leads to the next page.
entry-leads : (n : ℕ) → n < 3 → next_table ((0x101 + n) * 4096 + 3) ≡ done (root + (n + 1) * 4096)
unfolding next_table phys_to_virt add64
entry-leads zero h = refl
entry-leads (suc zero) h = refl
entry-leads (suc (suc zero)) h = refl
entry-leads (suc (suc (suc n))) h = absurd (omega arith)

words-leads :
    (b l : ℕ) → tables b ≡ some (suc l) → next_table (words (b + 0 * 8)) ≡ done (b + 0x1000)
words-leads b l h =
    ground
      (arith, entry-leads 0 (omega arith), entry-leads 1 (omega arith), entry-leads 2 (omega arith))

tables-IsSpace : IsSpace tables words
tables-IsSpace = record {
  aligned = tables-aligned;
  children = λ b l i h k p.
      let z : i ≡ 0 = tables-present b l i h k p in
      (b + 0x1000, rw z (words-leads b l h), tables-next b l h);
}

paged-apart :
    (i : ℕ) (info : FrameInfo)
    → get_elem? four.array i ≡ some info
    → is_free info ≡ true
    → tables (i * 4096 + 0xffff_8000_0000_0000) ≡ none
paged-apart zero info h f = refl
paged-apart (suc zero) info h f = refl
paged-apart (suc (suc zero)) info h f = refl
paged-apart (suc (suc (suc zero))) info h f = refl
paged-apart (suc (suc (suc (suc i)))) info h f = cc

pub paged-IsPaged : IsPaged 1 tables paged
paged-IsPaged = record {
  wf = record {
    infos = four-IsWf.infos;
    small = four-IsWf.small;
    accounted = four-IsWf.accounted;
    few_pinned = four-IsWf.few_pinned;
  };
  space = tables-IsSpace;
  apart = paged-apart;
}

-- The address is mapped to an offset in the VGA text buffer.
translate_test : translate root 0x123 words ≡ done (some 0xb_8123)
unfolding translate present_entry fetch_pte next_table phys_to_virt entry_target add64
translate_test = refl

abbrev present_writable : ℕ
present_writable = 3

-- A map in another part of the address space, for which a table is missing: it is made in the
-- frame at 0x2000.
abbrev mapped : Frames
mapped = record {
  array =
      entry 0 Flags.kernel 2
      ∷ entry 1 Flags.kernel 0
      ∷ entry 2 Flags.kernel 1
      ∷ entry 3 Flags.free 0
      ∷ [];
  statistic = record new_stats { total = 4; usable = 4; allocated = 3; kernel = 3 };
  memory =
      write (write (zero_bytes 0xffff_8000_0000_2000 4096 words) (root + 0x2008) 0x2003)
        0xffff_8000_0000_2000 0x7003;
}

map_test : map root 0x20_0123 (frame 0x7000) present_writable paged ≡ done (ok, mapped)
unfolding map creat_and_fetch_pte ensure_entry next_table phys_to_virt add64 allocate find claim
    frame_to_map zero_bytes
map_test = refl

translate-map_example : translate root 0x20_0123 mapped.memory ≡ done (some 0x7123)
translate-map_example =
    translate-map 1 tables root 0x20_0123 (frame 0x7000) present_writable paged mapped paged-IsPaged
      refl refl (omega arith) refl (omega arith) map_test

map-kept_example : translate root 0x123 mapped.memory ≡ done (some 0xb_8123)
map-kept_example =
    map-kept 1 tables root 0x20_0123 (frame 0x7000) present_writable paged mapped ok root 0x123
      0xb_8123 paged-IsPaged refl refl map_test translate_test

map-IsPaged_example :
    (r : MapResult) × (s' : Frames) × (after : Typing) × (map root 0x20_0123
        (frame 0x7000)
        present_writable
        paged
      ≡ done (r, s'))
    × IsPaged 1 after s'
    × Extends tables after
map-IsPaged_example =
    map-IsPaged 1 tables root 0x20_0123 (frame 0x7000) present_writable paged paged-IsPaged refl

map-already_mapped_example :
    map root 0x123 (frame 0x7000) present_writable paged ≡ done (err already_mapped, paged)
map-already_mapped_example =
    map-already_mapped root 0x123 (frame 0x7000) present_writable 0xb_8123 paged translate_test

abbrev pub machine : Machine
machine = record { frames = paged; cpu = record { lapic_initialized = true; events = [] } }

unmap-translate_example :
    (m : Memory) × (unmap root 0x123 machine
      ≡ done (some 0xb_8123, with_memory machine m (shootdown machine.cpu)))
    × (translate root 0x123 m ≡ done none)
    × IsPaged 1 tables (record paged { memory = m })
unmap-translate_example =
    unmap-translate 1 tables root 0x123 0xb_8123 machine paged-IsPaged refl translate_test

no_translation_test : translate root 0x1123 words ≡ done none
unfolding translate present_entry fetch_pte next_table phys_to_virt add64
no_translation_test = refl

protection_test : protection root 0x123 words ≡ done (some 3)
unfolding protection present_entry fetch_pte next_table phys_to_virt add64
protection_test = refl

change_protection-protection_example :
    (m : Memory) × (change_protection root 0x123 1 machine
      ≡ done (some 3, with_memory machine m (shootdown machine.cpu)))
    × (protection root 0x123 m ≡ done (some 1))
    × (translate root 0x123 m ≡ translate root 0x123 words)
    × IsPaged 1 tables (record paged { memory = m })
change_protection-protection_example =
    change_protection-protection 1 tables root 0x123 1 3 machine paged-IsPaged refl refl refl
      protection_test
