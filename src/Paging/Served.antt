-- ===== src/Paging/Served.antt =====
-- An allocation and a `map` as a page fault makes them: what they keep and what they give.
use silicium_rs.Base.{
  sym, subst, ℕ, suc, ◌+◌, ◌*◌, ◌%◌, ◌≤◌, ◌≡◌, ◌⊎◌, true, none, some, arith, done, inl, inr,
  lt_of_get_elem?,
}
use silicium_rs.Crates.Addresses.{Addresses, Virtual}
use silicium_rs.Crates.BitFlags.{BitFlags}
use silicium_rs.Crates.PageTables.{PageTables}
use silicium_rs.Frame.{Frame, frame}
use silicium_rs.Allocator.{Frames, allocate}
use silicium_rs.Allocator.Allocate.{allocate_cases, allocate-IsWf}
use silicium_rs.Paging.{MapError, ok, err, out_of_memory, map, present, translate}
use silicium_rs.Paging.Walk.{SamePage}
use silicium_rs.Paging.Space.{Typing, IsPaged}
use silicium_rs.Paging.Grow.{Extends}
use silicium_rs.Paging.NewTable.{Allocated-kept}
use silicium_rs.Paging.CreatePte.{Grown, Grown-refl}
use silicium_rs.Paging.Kept.{Walk-kept, Walk-typed}
use silicium_rs.Paging.NewFrame.{IsTarget, Grown-allocate}
use silicium_rs.Paging.Map.{Mapping, Mapped, map_cases}
use silicium_rs.Paging.Translation.{Mapped-translate, Mapped-kept, Grown-kept, Mapped-IsPaged}

module _ ⦃x : Addresses⦄ ⦃bits : BitFlags⦄ ⦃pt : PageTables⦄ where
  -- The page tables are well-formed, with the tables that there were, and every translation of
  -- every address space is kept.
  pub record Served (pinned : ℕ) (ty after : Typing) (s s' : Frames) : Type 0 where
    pub paged : IsPaged pinned after s'
    pub extends : Extends ty after
    pub kept :
        (other a : Virtual) (p : ℕ)
        → ty other ≡ some pt.page_map_level4
        → translate other a s.memory ≡ done (some p)
        → translate other a s'.memory ≡ done (some p)

  pub Served-refl :
      (pinned : ℕ) (ty : Typing) (s : Frames) → IsPaged pinned ty s → Served pinned ty ty s s
  Served-refl pinned ty s v = record { paged = v; extends = λ b k h. h; kept = λ other a p q h. h }

  pub Served-trans :
      (pinned : ℕ) (ty middle after : Typing) (s t u : Frames)
      → Served pinned ty middle s t
      → Served pinned middle after t u
      → Served pinned ty after s u
  Served-trans pinned ty middle after s t u v w = record {
    paged = w.paged;
    extends = λ b k h. w.extends b k (v.extends b k h);
    kept = λ other a p q h.
        w.kept other a p (v.extends other pt.page_map_level4 q) (v.kept other a p q h);
  }

  pub Served-Grown :
      (pinned : ℕ) (ty after : Typing) (s t : Frames)
      → IsPaged pinned ty s
      → Grown pinned pt.page_map_level4 ty after s t
      → Served pinned ty after s t
  Served-Grown pinned ty after s t v g = record {
    paged = g.paged;
    extends = g.extends;
    kept = λ other a p q h. Grown-kept pinned ty after other a p s t v q g h;
  }

  pub Served-Mapped :
      (pinned : ℕ) (ty after : Typing) (table at : Virtual) (g : Frame) (flags : ℕ) (s s' : Frames)
      → IsPaged pinned ty s
      → Mapped pinned ty after table at g flags s s'
      → Served pinned ty after s s'
  Served-Mapped pinned ty after table at g flags s s' v d = record {
    paged = Mapped-IsPaged pinned ty after table at g flags s s' d;
    extends = d.grown.extends;
    kept = λ other a p q k. Mapped-kept pinned ty after table at g flags s s' other a p v q d k;
  }

  -- A frame is handed out, or there is none; nothing else is mapped than before.
  pub allocate_outcome :
      (pinned flags : ℕ) (ty : Typing) (s : Frames)
      → IsPaged pinned ty s
      → (allocate flags s ≡ done (none, s))
        ⊎ ((f : Frame) × (t : Frames) × (allocate flags s ≡ done (some f, t))
            × Served pinned ty ty s t
            × (f.start % 4096 ≡ 0)
            × (f.start + 4096 ≤ 0x10_0000_0000_0000)
            × ((table at : Virtual)
                → ty table ≡ some pt.page_map_level4
                → Mapping table at t.memory
                → Mapping table at s.memory))
  allocate_outcome pinned flags ty s v = elim (allocate_cases pinned flags s v.wf) [
    | inl (_, e) ↦ inl e
    | inr (i, t, e, a) ↦
        let w = allocate-IsWf pinned flags s t (some (frame (i * 4096))) v.wf e in
        let g =
          Grown-allocate pinned flags pt.page_map_level4 ty ty i s s t
            (Grown-refl pinned pt.page_map_level4 ty s v) w a in
        let small = lt_of_get_elem? s.array i a.before a.found in
        let kept = Allocated-kept pinned flags ty i s t v a in
        inr (
          frame (i * 4096),
          t,
          e,
          Served-Grown pinned ty ty s t v g,
          omega arith,
          omega (arith, small, v.wf.small),
          λ table at q h.
              let (last, le, lt) = Walk-typed ty t.memory at g.paged.space q h.walk in
              let same : t.memory h.entry ≡ s.memory h.entry =
                rw le (kept last 0 (pt.page_index at 0) lt (pt.page_index-lt at 0)) in
              record {
                entry = h.entry;
                walk =
                    Walk-kept ty t.memory s.memory at g.paged.space q
                      (λ c k j pc hj pr. sym (kept c (suc k) j pc hj)) h.walk;
                present = rw (← same) h.present;
              },
        )
  ]

  target_bounds :
      (f g : Frame)
      → IsTarget f g
      → f.start % 4096 ≡ 0
      → f.start + 4096 ≤ 0x10_0000_0000_0000
      → (g.start % 4096 ≡ 0) × (g.start + 4096 ≤ 0x10_0000_0000_0000)
  target_bounds f g (inl (_, e)) al b =
      subst (λ (h : Frame). (h.start % 4096 ≡ 0) × (h.start + 4096 ≤ 0x10_0000_0000_0000)) (sym e)
        (al, b)
  target_bounds f g (inr (_, al', b')) al b = (al', b')

  -- `map` of any frame, null included, that is aligned and within 52 bits.
  pub map_outcome :
      (pinned : ℕ) (ty : Typing) (table at : Virtual) (f : Frame) (flags : ℕ) (s : Frames)
      → IsPaged pinned ty s
      → ty table ≡ some pt.page_map_level4
      → bits.contains flags present ≡ true
      → f.start % 4096 ≡ 0
      → f.start + 4096 ≤ 0x10_0000_0000_0000
      → ((s' : Frames) × (after : Typing) × (map table at f flags s ≡ done (ok, s'))
          × Served pinned ty after s s'
          × ((a : Virtual)
              → SamePage at a
              → (p : ℕ) × (translate table a s'.memory ≡ done (some p))))
        ⊎ ((e : MapError) × (s' : Frames) × (after : Typing) × (map table at f flags s
              ≡ done (err e, s'))
            × Served pinned ty after s s'
            × ((e ≡ out_of_memory) ⊎ Mapping table at s.memory))
  map_outcome pinned ty table at f flags s v q h al b =
      elim (map_cases pinned ty table at f flags s v q) [
        | inl (s', after, g, e, t, d) ↦
            let (al', b') = target_bounds f g t al b in
            inl (
              s',
              after,
              e,
              Served-Mapped pinned ty after table at g flags s s' v d,
              λ a sp. (
                g.start + a % 4096,
                Mapped-translate pinned ty after table at a g flags s s' sp q h al' b' d,
              ),
            )
        | inr (e, s', after, r, g, o) ↦
            inr (e, s', after, r, Served-Grown pinned ty after s s' v g, o)
      ]
