-- ===== src/Paging/NewTable.antt =====
-- A frame that is allocated for a page table.
use mathlib.Core.Option.{some-injective}
use silicium_rs.Base.{
  ◌∙◌, ap, sym, subst, ℕ, ◌+◌, ◌*◌, ◌%◌, ◌<◌, ◌≤◌, ◌≡◌, ◌≢◌, ◌⊎◌, true, none, some, arith, done,
  get_elem?, ℕ_discrete, ne→==, set, get_elem?-set_self, get_elem?-set_ne, lt_of_get_elem?,
}
use silicium_rs.Crates.Addresses.{Addresses, Virtual}
use silicium_rs.Crates.BitFlags.{BitFlags}
use silicium_rs.Crates.PageTables.{PageTables, Level, PageEntry}
use silicium_rs.Address.Laws.{phys_to_virt-eq}
use silicium_rs.Frame.Flags
use silicium_rs.FrameState.{FrameInfo}
use silicium_rs.Allocator.{Memory, Frames, is_free, zero_bytes}
use silicium_rs.Allocator.Invariant.{IsWf, IsWf-get}
use silicium_rs.Allocator.Allocate.{Allocated}
use silicium_rs.Paging.{next_table, kernel_zeroed, present, writable}
use silicium_rs.Paging.Space.{Typing, IsPaged, FreeApart, direct_map}
use silicium_rs.Paging.Grow.{assign, IsSpace-assign}

pub zero_bytes-inside : (b n : ℕ) (m : Memory) (a : ℕ) → b ≤ a → a < b + n → zero_bytes b n m a ≡ 0
unfolding zero_bytes
zero_bytes-inside b n m a h k = ground arith

zero_bytes-outside :
    (b n : ℕ) (m : Memory) (a : ℕ) → (a < b) ⊎ (b + n ≤ a) → zero_bytes b n m a ≡ m a
unfolding zero_bytes
zero_bytes-outside b n m a h = ground arith

module _ ⦃x : Addresses⦄ ⦃bits : BitFlags⦄ ⦃pt : PageTables⦄ where
  -- The entry that is written for a new table.
  unfoldable pub new_entry : PageEntry → ℕ → PageEntry
  new_entry e a = pt.set_address (pt.add_flags e (bits.union present writable)) a

  pub new_entry-present : (e : PageEntry) (a : ℕ) → pt.is_present (new_entry e a) ≡ true
  unfolding new_entry
  new_entry-present e a =
      let f = bits.union present writable in
      ground (
        arith,
        pt.is_present-set_address (pt.add_flags e f) a,
        pt.is_present-add_flags e f,
        bits.contains-union present writable pt.present_bit,
        bits.contains-bit pt.present_bit pt.present_bit,
      )

  pub new_entry-leads :
      (e : PageEntry) (a : ℕ)
      → a % 4096 ≡ 0
      → a < 0x8000_0000_0000
      → next_table (new_entry e a) ≡ done (direct_map a)
  unfolding next_table
  new_entry-leads e a h k = rw (pt.address_lem (new_entry e a) (new_entry-present e a)) (
      unfold new_entry in
      rw
        (pt.address_bits-set_address (pt.add_flags e (bits.union present writable)) a h
          (omega arith))
        (phys_to_virt-eq a k))

  -- The memory after a frame has been allocated for a table.
  pub Allocated-memory :
      (i : ℕ) (s s' : Frames) (pinned : ℕ)
      → IsWf pinned s
      → Allocated kernel_zeroed i s s'
      → s'.memory ≡ zero_bytes (direct_map (i * 4096)) 4096 s.memory
  Allocated-memory i s s' pinned w a =
      let v = IsWf-get pinned i a.before s w a.found in
      a.claimed.memory
      ∙ ground
          (arith, v.placed, bits.contains-union Flags.kernel Flags.zeroed 3, bits.contains-bit 3 3)

  -- The words of a table are not in a page that is no table.
  pub outside_new :
      (ty : Typing) (b c : Virtual) (k j : ℕ)
      → ((d : Virtual) (l : Level) → ty d ≡ some l → d % 4096 ≡ 0)
      → ty b ≡ none
      → b % 4096 ≡ 0
      → ty c ≡ some k
      → j < 512
      → (c + j * 8 < b) ⊎ (b + 4096 ≤ c + j * 8)
  outside_new ty b c k j al fresh hb p hj =
      let ne : b ≢ c = λ e. ground (arith, ap ty e, fresh, p) in omega (arith, al c k p)

  FreeApart-allocate :
      (ty : Typing) (l i : ℕ) (s s' : Frames)
      → FreeApart ty s
      → Allocated kernel_zeroed i s s'
      → FreeApart (assign ty (direct_map (i * 4096)) l) s'
  FreeApart-allocate ty l i s s' h a j info found free = elim (ℕ_discrete i j) [
    | yes e ↦
        let at_i : get_elem? s'.array j ≡ some a.after =
          ap (λ xs. get_elem? xs j) a.array
          ∙ subst (λ k. get_elem? (set s.array i a.after) k ≡ some a.after) e
              (get_elem?-set_self s.array i a.after (lt_of_get_elem? s.array i a.before a.found)) in
        let same = some-injective a.after info (sym at_i ∙ found) in
        absurd (ground (arith, a.claimed.taken, ap (λ (c : FrameInfo). is_free c) same))
    | no n ↦
        let before : get_elem? s.array j ≡ some info =
          sym (get_elem?-set_ne s.array i j a.after n)
          ∙ ap (λ xs. get_elem? xs j) (sym a.array)
          ∙ found in
        let ne : direct_map (i * 4096) ≢ direct_map (j * 4096) = λ e. n (omega arith) in
        rw (ne→== (direct_map (i * 4096)) (direct_map (j * 4096)) ne) (h j info before free)
  ]

  -- The words of the tables that there are do not change, whatever the flags.
  pub Allocated-kept :
      (pinned flags : ℕ) (ty : Typing) (i : ℕ) (s s' : Frames)
      → IsPaged pinned ty s
      → Allocated flags i s s'
      → (c : Virtual) (k j : ℕ) → ty c ≡ some k
      → j < 512
      → s'.memory (c + j * 8) ≡ s.memory (c + j * 8)
  Allocated-kept pinned flags ty i s s' p a c k j q hj =
      let b = direct_map (i * 4096) in
      let fresh : ty b ≡ none = p.apart i a.before a.found a.was_free in
      let o = outside_new ty b c k j p.space.aligned fresh (omega arith) q hj in
      let v = IsWf-get pinned i a.before s p.wf a.found in
      ap (λ m. m (c + j * 8)) a.claimed.memory
      ∙ ground (arith, v.placed, zero_bytes-outside b 4096 s.memory (c + j * 8) o)

  pub allocated-IsPaged :
      (pinned : ℕ) (ty : Typing) (l i : ℕ) (s s' : Frames)
      → IsPaged pinned ty s
      → IsWf pinned s'
      → Allocated kernel_zeroed i s s'
      → IsPaged pinned (assign ty (direct_map (i * 4096)) l) s'
  allocated-IsPaged pinned ty l i s s' p w a =
      let b = direct_map (i * 4096) in
      let e = Allocated-memory i s s' pinned p.wf a in
      let fresh : ty b ≡ none = p.apart i a.before a.found a.was_free in
      record {
        wf = w;
        space =
            IsSpace-assign ty s.memory s'.memory b l p.space (omega arith) fresh
              (Allocated-kept pinned kernel_zeroed ty i s s' p a)
              (λ j hj.
                rw (e, zero_bytes-inside b 4096 s.memory (b + j * 8) (omega arith) (omega arith))
                  pt.is_present-zero);
        apart = FreeApart-allocate ty l i s s' p.apart a;
      }
