-- ===== src/Paging/Given.antt =====
-- `map` of a frame that is given: every address of the page translates into the frame.
use silicium_rs.Base.{ℕ, ◌+◌, ◌%◌, ◌≤◌, ◌≡◌, ◌≢◌, ◌⊎◌, true, some, done, inl, inr, subst}
use silicium_rs.Crates.Addresses.{Addresses, Virtual}
use silicium_rs.Crates.BitFlags.{BitFlags}
use silicium_rs.Crates.PageTables.{PageTables}
use silicium_rs.Frame.{Frame}
use silicium_rs.Allocator.{Frames}
use silicium_rs.Paging.{MapError, ok, err, map, present, translate}
use silicium_rs.Paging.Walk.{SamePage}
use silicium_rs.Paging.Space.{Typing, IsPaged}
use silicium_rs.Paging.Map.{Mapped, map_cases}
use silicium_rs.Paging.NewFrame.{IsTarget}
use silicium_rs.Paging.Served.{Served, Served-Mapped, Served-Grown}
use silicium_rs.Paging.Translation.{Mapped-translate}

module _ ⦃x : Addresses⦄ ⦃bits : BitFlags⦄ ⦃pt : PageTables⦄ where
  IsTarget-eq : (f g : Frame) → f.start ≢ 0 → IsTarget f g → g ≡ f
  IsTarget-eq f g n (inl (_, e)) = e
  IsTarget-eq f g n (inr (z, _, _)) = absurd (n z)

  pub map_given_outcome :
      (pinned : ℕ) (ty : Typing) (table at : Virtual) (f : Frame) (flags : ℕ) (s : Frames)
      → IsPaged pinned ty s
      → ty table ≡ some pt.page_map_level4
      → bits.contains flags present ≡ true
      → f.start ≢ 0
      → f.start % 4096 ≡ 0
      → f.start + 4096 ≤ 0x10_0000_0000_0000
      → ((s' : Frames) × (after : Typing) × (map table at f flags s ≡ done (ok, s'))
          × Served pinned ty after s s'
          × ((a : Virtual)
              → SamePage at a
              → translate table a s'.memory ≡ done (some (f.start + a % 4096))))
        ⊎ ((e : MapError) × (s' : Frames) × (after : Typing) × (map table at f flags s
              ≡ done (err e, s'))
            × Served pinned ty after s s')
  map_given_outcome pinned ty table at f flags s v q h n al b =
      elim (map_cases pinned ty table at f flags s v q) [
        | inl (s', after, g, e, t, d) ↦ inl (
          s',
          after,
          e,
          Served-Mapped pinned ty after table at g flags s s' v d,
          λ a sp.
              Mapped-translate pinned ty after table at a f flags s s' sp q h al b
                (subst (λ i. Mapped pinned ty after table at i flags s s') (IsTarget-eq f g n t) d),
        )
        | inr (e, s', after, r, g, o) ↦ inr (e, s', after, r, Served-Grown pinned ty after s s' v g)
      ]
