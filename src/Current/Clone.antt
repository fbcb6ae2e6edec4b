-- ===== src/Current/Clone.antt =====
-- A root table that is cloned translates every address as the original does.
use silicium_rs.Base.{
  zero, true, false, List, get_elem?, length, ◌∙◌, ap, sym, ℕ, suc, ◌+◌, ◌-◌, ◌*◌, ◌<◌, ◌≤◌, ◌≡◌,
  ◌≢◌, ◌⊎◌, refl, none, some, arith, done, panicked, unwrap_none, inl, inr, ℕ_discrete, eq→==,
  lt_of_get_elem?,
}
use silicium_rs.Crates.Addresses.{Addresses, Physical, Virtual}
use silicium_rs.Crates.BitFlags.{BitFlags}
use silicium_rs.Crates.PageTables.{PageTables, Level}
use silicium_rs.Address.Laws.{phys_to_virt-eq}
use silicium_rs.Frame.{frame}
use silicium_rs.FrameState.{FrameInfo}
use silicium_rs.Allocator.{Memory, Frames, allocate, is_free}
use silicium_rs.Allocator.Allocate.{allocate_cases, allocate-IsWf}
use silicium_rs.Paging.{fetch_pte, present_entry, translate, kernel_zeroed}
use silicium_rs.Paging.Space.{Typing, IsSpace, IsPaged, direct_map}
use silicium_rs.Paging.Grow.{assign, assign-Extends}
use silicium_rs.Paging.NewTable.{allocated-IsPaged, Allocated-kept}
use silicium_rs.Paging.Kept.{Walk-kept, Walk-typed, translate_of_Walk, translate-Walk}
use silicium_rs.Paging.Served.{Served}
use silicium_rs.Paging.Unmap.{IsPaged-memory}
use silicium_rs.Current.{TableRoot, copy, new_table, table_frame, copy_table, clone_table, clone}

offset : (dst src i : ℕ) → dst + i - dst + src ≡ src + i
offset dst src i = omega arith

copy-inside :
    (dst src n : ℕ) (m : Memory) (i : ℕ) → i < n → copy dst src n m (dst + i) ≡ m (src + i)
copy-inside dst src n m i h = unfold copy in ground (arith, ap (λ (j : ℕ). m j) (offset dst src i))

copy-outside :
    (dst src n : ℕ) (m : Memory) (a : ℕ) → (a < dst) ⊎ (dst + n ≤ a) → copy dst src n m a ≡ m a
copy-outside dst src n m a h = unfold copy in ground arith

module _ ⦃x : Addresses⦄ ⦃bits : BitFlags⦄ ⦃pt : PageTables⦄ where
  -- Words of two tables.
  apart :
      (ty : Typing) (m : Memory) (b c : Virtual) (k l j : ℕ)
      → IsSpace ty m
      → ty b ≡ some k
      → ty c ≡ some l
      → b ≢ c
      → j < 512
      → (c + j * 8 < b) ⊎ (b + 4096 ≤ c + j * 8)
  apart ty m b c k l j s p q n hj = omega (arith, s.aligned b k p, s.aligned c l q)

  -- A table of the same level becomes a copy of another.
  IsSpace-copy :
      (ty : Typing) (m : Memory) (dst src : Virtual) (l : Level)
      → IsSpace ty m
      → ty dst ≡ some l
      → ty src ≡ some l
      → IsSpace ty (copy dst src 4096 m)
  IsSpace-copy ty m dst src l s p q = record {
    aligned = s.aligned;
    children = λ c k j r hj pr. elim (ℕ_discrete dst c) [
      | yes e ↦
          let r' : ty src ≡ some (suc k) = q ∙ sym p ∙ ap ty e ∙ r in
          let same : copy dst src 4096 m (c + j * 8) ≡ m (src + j * 8) =
            ap (λ (b : ℕ). copy dst src 4096 m (b + j * 8)) (sym e)
            ∙ copy-inside dst src 4096 m (j * 8) (omega arith) in
          let (next, g, t) = s.children src k j r' hj (rw same at pr) in (next, rw same g, t)
      | no n ↦
          let same =
            copy-outside dst src 4096 m (c + j * 8) (apart ty m dst c l (suc k) j s p r n hj) in
          let (next, g, t) = s.children c k j r hj (rw same at pr) in (next, rw same g, t)
    ];
  }

  -- A memory with the same tables has the same translations.
  tables-kept :
      (ty : Typing) (table a p : ℕ) (m m' : Memory)
      → IsSpace ty m
      → ty table ≡ some pt.page_map_level4
      → ((c : Virtual) (k j : ℕ) → ty c ≡ some k → j < 512 → m' (c + j * 8) ≡ m (c + j * 8))
      → translate table a m ≡ done (some p)
      → translate table a m' ≡ done (some p)
  tables-kept ty table a p m m' s q same h =
      let (e, w, pr, t) = translate-Walk m a table p h in
      let (last, le, lt) = Walk-typed ty m a s q w in
      let here : m' e ≡ m e = rw le (same last 0 (pt.page_index a 0) lt (pt.page_index-lt a 0)) in
      translate_of_Walk m' a table e p
        (Walk-kept ty m m' a s q (λ c k j pc hj _. same c (suc k) j pc hj) w) (rw here pr)
        (rw here t)

  -- Tables with the same entries lead to the same.
  fetch_pte-same :
      (l : Level) (table other a : Virtual) (m : Memory)
      → ((j : ℕ) → j < 512 → m (other + j * 8) ≡ m (table + j * 8))
      → fetch_pte (suc l) other a m ≡ fetch_pte (suc l) table a m
  unfolding fetch_pte
  fetch_pte-same l table other a m h =
      rw (h (pt.page_index a (suc l)) (pt.page_index-lt a (suc l))) refl

  translate-same :
      (table other a : Virtual) (m : Memory)
      → ((j : ℕ) → j < 512 → m (other + j * 8) ≡ m (table + j * 8))
      → translate other a m ≡ translate table a m
  unfolding translate present_entry
  translate-same table other a m h =
      rw (pt.page_map_level4_lem, fetch_pte-same 2 table other a m h) refl

  not_first :
      (xs : List FrameInfo) (i : ℕ) (info : FrameInfo)
      → get_elem? xs i ≡ some info
      → is_free info ≡ true
      → ((b : FrameInfo) → get_elem? xs 0 ≡ some b → is_free b ≡ false)
      → 0 < i
  not_first xs zero info g f h = absurd (ground (arith, f, h info g))
  not_first xs (suc i) info g f h = omega arith

  -- What `clone` makes of a root table.
  pub record Cloned (pinned : ℕ) (ty after : Typing) (root root' : TableRoot) (s s' : Frames)
      : Type 0 where
    pub served : Served pinned ty after s s'
    pub fresh : ty root'.addr ≡ none
    pub typed : after root'.addr ≡ some pt.page_map_level4
    pub placed : root'.addr ≡ root'.frame.start + 0xffff_8000_0000_0000
    pub translates :
        (a : Virtual) → translate root'.addr a s'.memory ≡ translate root.addr a s'.memory

  -- Physical memory from the second page on, up to 4 GiB, is mapped at its own addresses, as the
  -- boot loader leaves it: a pointer to a physical address reaches what the direct map shows there.
  abbrev pub IsIdentityMapped : Type 0
  IsIdentityMapped =
      (a : Physical) → 0x1000 ≤ a → a < 0x1_0000_0000 → x.as_ptr a ≡ a + 0xffff_8000_0000_0000

  -- `clone` makes pointers of physical addresses. Where the memory from the second page on, up to
  -- 4 GiB, is mapped at its own addresses, all frames are below 4 GiB and the first one is not
  -- free: on well-formed page tables `clone` of a root table, whose frame is not the first and
  -- whose address is that of the frame in the direct map, panics if no frame is free and returns a
  -- new root table otherwise. The new table was no table before, it is one now, and it translates every address to exactly what
  -- the original translates it to; every translation below every root table is kept and the page
  -- tables stay well-formed.
  pub clone-Cloned :
      (pinned : ℕ) (ty : Typing) (root : TableRoot) (s : Frames)
      → IsPaged pinned ty s
      → ty root.addr ≡ some pt.page_map_level4
      → IsIdentityMapped
      → 0x1000 ≤ root.frame.start
      → root.frame.start < 0x1_0000_0000
      → length s.array * 4096 ≤ 0x1_0000_0000
      → ((info : FrameInfo) → get_elem? s.array 0 ≡ some info → is_free info ≡ false)
      → root.addr ≡ root.frame.start + 0xffff_8000_0000_0000
      → ((allocate kernel_zeroed s ≡ done (none, s)) × (clone root s ≡ panicked unwrap_none))
        ⊎ ((root' : TableRoot) × (s' : Frames) × (after : Typing) × (clone root s
              ≡ done (root', s'))
            × Cloned pinned ty after root root' s s')
  unfolding clone new_table table_frame copy_table clone_table
  clone-Cloned pinned ty root s v q reach above small all first pl =
      elim (allocate_cases pinned kernel_zeroed s v.wf) [
        | inl (_, e) ↦ inl (e, ground (arith, e))
        | inr (i, t, e, a) ↦
            let w = allocate-IsWf pinned kernel_zeroed s t (some (frame (i * 4096))) v.wf e in
            let b = direct_map (i * 4096) in
            let l4 = pt.page_map_level4 in
            let after = assign ty b l4 in
            let fresh : ty b ≡ none = v.apart i a.before a.found a.was_free in
            let lt = lt_of_get_elem? s.array i a.before a.found in
            let paged = allocated-IsPaged pinned ty l4 i s t v w a in
            let to_root : after root.addr ≡ some l4 = assign-Extends ty b l4 fresh root.addr l4 q in
            let here : after b ≡ some l4 = rw (eq→== b b refl) refl in
            let src : x.as_ptr root.frame.start ≡ root.addr =
              reach root.frame.start above small ∙ sym pl in
            let dst : x.as_ptr (i * 4096) ≡ b =
              reach (i * 4096)
                (omega (arith, not_first s.array i a.before a.found a.was_free first))
                (omega (arith, lt, all)) in
            let m = copy b root.addr 4096 t.memory in
            let ne : b ≢ root.addr = λ f. ground (arith, ap ty f, fresh, q) in
            let kept : (c : Virtual) (k j : ℕ)
                → ty c ≡ some k
                → j < 512
                → m (c + j * 8) ≡ s.memory (c + j * 8) =
              λ c k j pc hj.
                copy-outside b root.addr 4096 t.memory (c + j * 8) (
                  apart after t.memory b c l4 k j paged.space here
                    (assign-Extends ty b l4 fresh c k pc) (λ f. ground (arith, ap ty f, fresh, pc))
                    hj)
                ∙ Allocated-kept pinned kernel_zeroed ty i s t v a c k j pc hj in
            let z1 : b + 0 ≡ b = omega arith in
            let z2 : root.addr + 0 ≡ root.addr = omega arith in
            let up = phys_to_virt-eq (i * 4096) (omega (arith, lt, v.wf.small)) in
            inr (
              record { addr = b; frame = frame (i * 4096) },
              record t { memory = m },
              after,
              rw (src, e) (rw (dst, up, z1, z2) refl),
              record {
                served = record {
                  paged =
                      IsPaged-memory pinned after t m paged
                        (IsSpace-copy after t.memory b root.addr l4 paged.space here to_root);
                  extends = assign-Extends ty b l4 fresh;
                  kept = λ other c p r h. tables-kept ty other c p s.memory m v.space r kept h;
                };
                fresh = fresh;
                typed = here;
                placed = refl;
                translates = λ c. translate-same root.addr b c m (λ j hj.
                    copy-inside b root.addr 4096 t.memory (j * 8) (omega arith)
                    ∙ sym (
                        copy-outside b root.addr 4096 t.memory (root.addr + j * 8) (
                          apart after t.memory b root.addr l4 l4 j paged.space here to_root ne
                            hj)));
              },
            )
      ]
