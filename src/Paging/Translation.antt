-- ===== src/Paging/Translation.antt =====
-- `map` and the translations of the addresses.
use silicium_rs.Base.{
  ap, sym, subst, ℕ, suc, ◌+◌, ◌*◌, ◌%◌, ◌≤◌, ◌≡◌, ◌≢◌, refl, true, some, arith, done, inl, inr,
  done_unique, done_unique_state, eq→==, ne→==,
}
use silicium_rs.Crates.Addresses.{Addresses, Virtual}
use silicium_rs.Crates.BitFlags.{BitFlags}
use silicium_rs.Crates.PageTables.{PageTables, PageEntry}
use silicium_rs.Frame.{Frame}
use silicium_rs.Allocator.{Memory, Frames}
use silicium_rs.Paging.{MapResult, ok, err, slot, write, map, present, translate}
use silicium_rs.Paging.Walk.{Walk, SamePage, Walk-SamePage}
use silicium_rs.Paging.Space.{Typing, IsSpace, IsPaged, slot-ne}
use silicium_rs.Paging.Grow.{Extends, IsSpace-write_leaf}
use silicium_rs.Paging.CreatePte.{Grown}
use silicium_rs.Paging.Kept.{InnerKept, Walk-kept, Walk-typed, translate_of_Walk, translate-Walk}
use silicium_rs.Paging.Map.{
  Mapped, map_cases, mapped_entry, mapped_entry-present, mapped_entry-target,
}

module _ ⦃x : Addresses⦄ ⦃bits : BitFlags⦄ ⦃pt : PageTables⦄ where
  -- A write of a leaf changes no table that is not of the last level.
  pub InnerKept-write :
      (ty : Typing) (m : Memory) (last : Virtual) (at : Virtual) (v : PageEntry)
      → IsSpace ty m
      → ty last ≡ some 0
      → InnerKept ty m (write m (slot last 0 at) v)
  InnerKept-write ty m last at v s q c k j pc hj pr =
      let i = pt.page_index at 0 in
      let ne =
        slot-ne ty last c 0 (suc k) i j q pc (s.aligned last 0 q) (s.aligned c (suc k) pc)
          (pt.page_index-lt at 0) hj (omega arith) in
      rw (ne→== (slot last 0 at) (c + j * 8) ne)

  pub Mapped-translate :
      (pinned : ℕ) (ty after : Typing) (table at a : Virtual) (f : Frame) (flags : ℕ)
      (s s' : Frames)
      → SamePage at a
      → ty table ≡ some pt.page_map_level4
      → bits.contains flags present ≡ true
      → f.start % 4096 ≡ 0
      → f.start + 4096 ≤ 0x10_0000_0000_0000
      → Mapped pinned ty after table at f flags s s'
      → translate table a s'.memory ≡ done (some (f.start + a % 4096))
  Mapped-translate pinned ty after table at a f flags s s' sp q h al b d =
      let g = d.grown in
      let r = d.reached in
      let m = d.middle.memory in
      let v = mapped_entry (m d.entry) f.start flags in
      let m' = write m d.entry v in
      let here : m' d.entry ≡ v = rw (eq→== d.entry d.entry refl) in
      let kept : InnerKept after m m' =
        subst (λ e. InnerKept after m (write m e v)) (sym r.entry)
          (InnerKept-write after m r.last at v g.paged.space r.typed) in
      let w = Walk-SamePage m' at a sp (
        Walk-kept after m m' at g.paged.space (g.extends table pt.page_map_level4 q) kept r.walk) in
      subst (λ (t : Frames). translate table a t.memory ≡ done (some (f.start + a % 4096)))
        (sym d.result)
        (translate_of_Walk m' a table d.entry (f.start + a % 4096) w
          (rw here (mapped_entry-present (m d.entry) f.start flags h))
          (rw here (mapped_entry-target (m d.entry) f.start flags a h al b)))

  -- The tables that grow keep every translation.
  Grown-translate :
      (pinned : ℕ) (ty after : Typing) (table at : Virtual) (p : ℕ) (s s' : Frames)
      → IsPaged pinned ty s
      → ty table ≡ some pt.page_map_level4
      → Grown pinned pt.page_map_level4 ty after s s'
      → (e : Virtual) → Walk s.memory at pt.page_map_level4 table e
      → pt.is_present (s.memory e) ≡ true
      → Walk s'.memory at pt.page_map_level4 table e × (s'.memory e ≡ s.memory e)
  Grown-translate pinned ty after table at p s s' v q g e w pr =
      let (last, le, lt) = Walk-typed ty s.memory at v.space q w in
      (
        Walk-kept ty s.memory s'.memory at v.space q
            (λ c k j pc hj h. g.kept c (suc k) j pc hj (inr (inr h))) w,
        rw le (g.kept last 0 (pt.page_index at 0) lt (pt.page_index-lt at 0) (inr (inl refl))),
      )

  -- A mapped page keeps the translations: its entry was not present before.
  pub Mapped-kept :
      (pinned : ℕ) (ty after : Typing) (table at : Virtual) (f : Frame) (flags : ℕ) (s s' : Frames)
      → (other a : Virtual) (p : ℕ) → IsPaged pinned ty s
      → ty other ≡ some pt.page_map_level4
      → Mapped pinned ty after table at f flags s s'
      → translate other a s.memory ≡ done (some p)
      → translate other a s'.memory ≡ done (some p)
  Mapped-kept pinned ty after table at f flags s s' other a p v q d h =
      let (e, w, pr, t) = translate-Walk s.memory a other p h in
      let g = d.grown in
      let r = d.reached in
      let m = d.middle.memory in
      let (w', same) = Grown-translate pinned ty after other a p s d.middle v q g e w pr in
      let u = mapped_entry (m d.entry) f.start flags in
      let kept : InnerKept after m (write m d.entry u) =
        subst (λ b. InnerKept after m (write m b u)) (sym r.entry)
          (InnerKept-write after m r.last at u g.paged.space r.typed) in
      let ne : d.entry ≢ e = λ i. ground (arith, d.blank, ap (λ (b : ℕ). m b) i, same, pr) in
      let there : write m d.entry u e ≡ m e = rw (ne→== d.entry e ne) in
      subst (λ (c : Frames). translate other a c.memory ≡ done (some p)) (sym d.result)
        (translate_of_Walk (write m d.entry u) a other e p
          (Walk-kept after m (write m d.entry u) a g.paged.space
            (g.extends other pt.page_map_level4 q) kept w')
          (rw (there, same) pr) (rw (there, same) t))

  pub Grown-kept :
      (pinned : ℕ) (ty after : Typing) (other a : Virtual) (p : ℕ) (s s' : Frames)
      → IsPaged pinned ty s
      → ty other ≡ some pt.page_map_level4
      → Grown pinned pt.page_map_level4 ty after s s'
      → translate other a s.memory ≡ done (some p)
      → translate other a s'.memory ≡ done (some p)
  Grown-kept pinned ty after other a p s s' v q g h =
      let (e, w, pr, t) = translate-Walk s.memory a other p h in
      let (w', same) = Grown-translate pinned ty after other a p s s' v q g e w pr in
      translate_of_Walk s'.memory a other e p w' (rw same pr) (rw same t)

  pub Mapped-IsPaged :
      (pinned : ℕ) (ty after : Typing) (table at : Virtual) (f : Frame) (flags : ℕ) (s s' : Frames)
      → Mapped pinned ty after table at f flags s s'
      → IsPaged pinned after s'
  Mapped-IsPaged pinned ty after table at f flags s s' d =
      let g = d.grown.paged in
      let r = d.reached in
      let m = d.middle.memory in
      let v = mapped_entry (m d.entry) f.start flags in
      subst (IsPaged pinned after) (sym d.result) (record {
        wf = record {
          infos = g.wf.infos;
          small = g.wf.small;
          accounted = g.wf.accounted;
          few_pinned = g.wf.few_pinned;
        };
        space =
            subst (λ e. IsSpace after (write m e v)) (sym r.entry)
              (IsSpace-write_leaf after m r.last (pt.page_index at 0) v g.space r.typed
                (pt.page_index-lt at 0));
        apart = g.apart;
      })

  -- On well-formed page tables, `map` in a root table with any outcome leaves well-formed page
  -- tables, with the tables that there were and possibly more of them; it never panics.
  pub map-IsPaged :
      (pinned : ℕ) (ty : Typing) (table at : Virtual) (f : Frame) (flags : ℕ) (s : Frames)
      → IsPaged pinned ty s
      → ty table ≡ some pt.page_map_level4
      → (r : MapResult) × (s' : Frames) × (after : Typing) × (map table at f flags s ≡ done (r, s'))
        × IsPaged pinned after s'
        × Extends ty after
  map-IsPaged pinned ty table at f flags s v q = elim (map_cases pinned ty table at f flags s v q) [
    | inl (s', after, g, e, _, d) ↦
        (ok, s', after, e, Mapped-IsPaged pinned ty after table at g flags s s' d, d.grown.extends)
    | inr (r, s', after, e, d, _) ↦ (err r, s', after, e, d.paged, d.extends)
  ]

  -- On well-formed page tables, `map` in a root table with any outcome, a failure and a null frame
  -- included, keeps every translation below every root table.
  pub map-kept :
      (pinned : ℕ) (ty : Typing) (table at : Virtual) (f : Frame) (flags : ℕ) (s s' : Frames)
      (r : MapResult)
      → (other a : Virtual) (p : ℕ) → IsPaged pinned ty s
      → ty table ≡ some pt.page_map_level4
      → ty other ≡ some pt.page_map_level4
      → map table at f flags s ≡ done (r, s')
      → translate other a s.memory ≡ done (some p)
      → translate other a s'.memory ≡ done (some p)
  map-kept pinned ty table at f flags s s' r other a p v q q' e h =
      elim (map_cases pinned ty table at f flags s v q) [
        | inl (t, after, g, e', _, d) ↦
            subst (λ (c : Frames). translate other a c.memory ≡ done (some p))
              (done_unique_state e' e)
              (Mapped-kept pinned ty after table at g flags s t other a p v q' d h)
        | inr (_, t, after, e', d, _) ↦
            subst (λ (c : Frames). translate other a c.memory ≡ done (some p))
              (done_unique_state e' e) (Grown-kept pinned ty after other a p s t v q' d h)
      ]

  -- On well-formed page tables, after a `map` in a root table of a frame (not null, aligned,
  -- within 52 bits) with flags that contain `present` has returned `ok`, the address translates to
  -- the frame's start and the address's offset in its page.
  pub translate-map :
      (pinned : ℕ) (ty : Typing) (table at : Virtual) (f : Frame) (flags : ℕ) (s s' : Frames)
      → IsPaged pinned ty s
      → ty table ≡ some pt.page_map_level4
      → bits.contains flags present ≡ true
      → f.start ≢ 0
      → f.start % 4096 ≡ 0
      → f.start + 4096 ≤ 0x10_0000_0000_0000
      → map table at f flags s ≡ done (ok, s')
      → translate table at s'.memory ≡ done (some (f.start + at % 4096))
  translate-map pinned ty table at f flags s s' v q h nz al b e =
      elim (map_cases pinned ty table at f flags s v q) [
        | inl (t, after, g, e', tg, d) ↦
            let same : g ≡ f = elim tg [ inl (_, i) ↦ i | inr (z, _, _) ↦ absurd (nz z) ] in
            subst (λ (c : Frames). translate table at c.memory ≡ done (some (f.start + at % 4096)))
              (done_unique_state e' e)
              (Mapped-translate pinned ty after table at at f flags s t (λ l. refl) q h al b
                (subst (λ (k : Frame). Mapped pinned ty after table at k flags s t) same d))
        | inr (_, _, _, e', _, _) ↦ ground (arith, done_unique e' e)
      ]
