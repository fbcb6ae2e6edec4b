-- ===== src/Paging/Map.antt =====
-- `map`: the new translation, and the translations that stay.
use silicium_rs.Base.{
  ◌∙◌, ap, ℕ, suc, ◌+◌, ◌*◌, ◌%◌, ◌<◌, ◌≤◌, ◌≡◌, refl, ◌⊎◌, true, false, some, arith, done, inl,
  inr, Bool-cases,
}
use silicium_rs.Crates.Addresses.{Addresses, Virtual}
use silicium_rs.Crates.BitFlags.{BitFlags}
use silicium_rs.Crates.PageTables.{PageTables, PageEntry}
use silicium_rs.Frame.{Frame}
use silicium_rs.Allocator.{Memory, Frames}
use silicium_rs.Paging.{
  MapError, ok, err, out_of_memory, already_mapped, write, map, present, entry_target,
}
use silicium_rs.Paging.Walk.{Walk}
use silicium_rs.Paging.Space.{Typing, IsPaged}
use silicium_rs.Paging.NewFrame.{IsTarget, frame_to_map_cases}
use silicium_rs.Paging.CreatePte.{Grown, Reached, WasReached, creat_and_fetch_pte_cases}
use silicium_rs.Paging.Kept.{Walk-kept, Walk-typed, entry_target-eq}

module _ ⦃x : Addresses⦄ ⦃bits : BitFlags⦄ ⦃pt : PageTables⦄ where
  -- The entry that `map` writes.
  pub mapped_entry : PageEntry → ℕ → ℕ → PageEntry
  mapped_entry e a flags = pt.set_flags (pt.set_address e a) flags

  pub mapped_entry-present :
      (e : PageEntry) (a flags : ℕ)
      → bits.contains flags present ≡ true
      → pt.is_present (mapped_entry e a flags) ≡ true
  unfolding mapped_entry
  mapped_entry-present e a flags h =
      ground (arith, h, pt.is_present-set_flags (pt.set_address e a) flags)

  pub mapped_entry-target :
      (e : PageEntry) (a flags at : ℕ)
      → bits.contains flags present ≡ true
      → a % 4096 ≡ 0
      → a + 4096 ≤ 0x10_0000_0000_0000
      → entry_target (mapped_entry e a flags) at ≡ done (a + at % 4096)
  mapped_entry-target e a flags at h al b =
      entry_target-eq (mapped_entry e a flags) at a
        (pt.address_lem (mapped_entry e a flags) (mapped_entry-present e a flags h)
          ∙ ap some (
              unfold mapped_entry in
              (pt.address_bits-set_flags (pt.set_address e a) flags
                ∙ pt.address_bits-set_address e a al (omega arith))))
        b

  -- The steps of a `map` that returns `ok`: `after` gives the tables, `f` is the frame mapped.
  pub record Mapped (pinned : ℕ) (ty after : Typing) (table at : Virtual) (f : Frame) (flags : ℕ)
      (s s' : Frames) : Type 0 where
    pub middle : Frames
    pub grown : Grown pinned pt.page_map_level4 ty after s middle
    pub entry : Virtual
    pub reached : Reached at pt.page_map_level4 table entry after middle.memory
    pub blank : pt.is_present (middle.memory entry) ≡ false
    pub result : s' ≡ record middle {
      memory = write middle.memory entry (mapped_entry (middle.memory entry) f.start flags);
    }

  -- An entry that was reached is still reached after a frame was handed out.
  Reached-kept :
      (at table e : Virtual) (pinned : ℕ) (ty : Typing) (t u : Frames)
      → IsPaged pinned ty t
      → ty table ≡ some pt.page_map_level4
      → Reached at pt.page_map_level4 table e ty t.memory
      → ((c : Virtual) (k j : ℕ)
          → ty c ≡ some k
          → j < 512
          → u.memory (c + j * 8) ≡ t.memory (c + j * 8))
      → Reached at pt.page_map_level4 table e ty u.memory × (u.memory e ≡ t.memory e)
  Reached-kept at table e pinned ty t u p q r k = (
    record {
      last = r.last;
      entry = r.entry;
      typed = r.typed;
      walk =
          Walk-kept ty t.memory u.memory at p.space q (λ c l j pc hj pr. k c (suc l) j pc hj)
            r.walk;
    },
    rw r.entry (k r.last 0 (pt.page_index at 0) r.typed (pt.page_index-lt at 0)),
  )

  -- A present entry of the address, reached from the table.
  pub record Mapping (table at : Virtual) (m : Memory) : Type 0 where
    pub entry : Virtual
    pub walk : Walk m at pt.page_map_level4 table entry
    pub present : pt.is_present (m entry) ≡ true

  WasReached-Mapping :
      (pinned : ℕ) (ty after : Typing) (table at e : Virtual) (s t : Frames)
      → IsPaged pinned ty s
      → ty table ≡ some pt.page_map_level4
      → Grown pinned pt.page_map_level4 ty after s t
      → WasReached at pt.page_map_level4 table e s t
      → pt.is_present (t.memory e) ≡ true
      → Mapping table at s.memory
  WasReached-Mapping pinned ty after table at e s t p q g (inr b) h = absurd (ground (arith, b))
  WasReached-Mapping pinned ty after table at e s t p q g (inl w) h =
      let (last, le, lt) = Walk-typed ty s.memory at p.space q w in
      let same : t.memory e ≡ s.memory e =
        rw le (g.kept last 0 (pt.page_index at 0) lt (pt.page_index-lt at 0) (inr (inl refl))) in
      record { entry = e; walk = w; present = rw (← same) h }

  -- `map` on tables that are well-formed: it never panics; either it maps the given frame, or the
  -- first free one if that is null, or it returns an error, and all that it did is make tables.
  -- Only for an address that was mapped it returns `already_mapped`.
  pub map_cases :
      (pinned : ℕ) (ty : Typing) (table at : Virtual) (f : Frame) (flags : ℕ) (s : Frames)
      → IsPaged pinned ty s
      → ty table ≡ some pt.page_map_level4
      → ((s' : Frames) × (after : Typing) × (g : Frame) × (map table at f flags s ≡ done (ok, s'))
          × IsTarget f g
          × Mapped pinned ty after table at g flags s s')
        ⊎ ((e : MapError) × (s' : Frames) × (after : Typing) × (map table at f flags s
              ≡ done (err e, s'))
            × Grown pinned pt.page_map_level4 ty after s s'
            × ((e ≡ out_of_memory) ⊎ Mapping table at s.memory))
  unfolding map mapped_entry
  map_cases pinned ty table at f flags s p q =
      let (t, after, g, o) =
        creat_and_fetch_pte_cases pinned pt.page_map_level4 ty table at s p q in
      elim o [
        | inl e ↦ inr (out_of_memory, t, after, ground (arith, e), g, inl refl)
        | inr (pte, e, r, b) ↦ elim (Bool-cases (pt.is_present (t.memory pte))) [
          | inl there ↦ inr (
            already_mapped,
            t,
            after,
            ground (arith, e, there),
            g,
            inr (WasReached-Mapping pinned ty after table at pte s t p q g b there),
          )
          | inr blank ↦ elim (frame_to_map_cases pinned pt.page_map_level4 ty after f s t g) [
            | inl (d, _) ↦ inr (out_of_memory, t, after, ground (arith, e, blank, d), g, inl refl)
            | inr (h, u, d, tg, g', k) ↦
                let (r', same) =
                  Reached-kept at table pte pinned after t u g.paged
                    (g.extends table pt.page_map_level4 q) r k in
                inl (
                  record u {
                    memory = write u.memory pte (mapped_entry (u.memory pte) h.start flags);
                  },
                  after,
                  h,
                  ground (arith, e, blank, d),
                  tg,
                  record {
                    middle = u;
                    grown = g';
                    entry = pte;
                    reached = r';
                    blank = rw same blank;
                    result = refl;
                  },
                )
          ]
        ]
      ]
