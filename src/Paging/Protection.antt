-- ===== src/Paging/Protection.antt =====
-- `protection` and `change_protection`.
use silicium_rs.Base.{
  ◌∙◌, sym, ℕ, ◌≡◌, refl, true, Option, none, some, arith, done, done_injective, ◌>>=◌, >>=-eq-done,
  eq→==,
}
use mathlib.Core.Option.{some-injective}
use silicium_rs.Crates.Addresses.{Addresses, Virtual}
use silicium_rs.Crates.BitFlags.{BitFlags}
use silicium_rs.Crates.PageTables.{PageTables, PageEntry}
use silicium_rs.Allocator.{Memory}
use silicium_rs.Paging.{
  Machine, write, protection, change_protection, present, present_entry, entry_target, translate,
  shootdown,
}
use silicium_rs.Paging.Walk.{Walk}
use silicium_rs.Paging.Space.{Typing, IsPaged}
use silicium_rs.Paging.Kept.{present_entry_of_Walk, present_entry-Walk}
use silicium_rs.Paging.Unmap.{write-Walk, IsPaged-memory, with_memory}

module _ ⦃x : Addresses⦄ ⦃bits : BitFlags⦄ ⦃pt : PageTables⦄ where
  protection-Walk :
      (m : Memory) (at table : Virtual) (f : ℕ)
      → protection table at m ≡ done (some f)
      → (e : Virtual) × Walk m at pt.page_map_level4 table e
        × (pt.is_present (m e) ≡ true)
        × (pt.flags (m e) ≡ f)
  unfolding protection
  protection-Walk m at table f h =
      let (r, d, g) = >>=-eq-done (present_entry table at m) _ h in found r d g
    where
      found :
          (r : Option Virtual)
          → present_entry table at m ≡ done r
          → elim r [ none ↦ done none | some pte ↦ done (some (pt.flags (m pte))) ] ≡ done (some f)
          → (e : Virtual) × Walk m at pt.page_map_level4 table e
            × (pt.is_present (m e) ≡ true)
            × (pt.flags (m e) ≡ f)
      found none d g = cc
      found (some pte) d g =
          let (w, p) = present_entry-Walk m at table pte d in
          (pte, w, p, some-injective _ _ (done_injective g))

  -- The target of an entry does not depend on its flags.
  entry_target-set_flags :
      (e : PageEntry) (flags : ℕ) (at : Virtual)
      → pt.is_present e ≡ true
      → bits.contains flags present ≡ true
      → entry_target (pt.set_flags e flags) at ≡ entry_target e at
  unfolding entry_target
  entry_target-set_flags e flags at p h =
      let p' : pt.is_present (pt.set_flags e flags) ≡ true = pt.is_present-set_flags e flags ∙ h in
      rw
        (
          pt.address_lem e p,
          pt.address_lem (pt.set_flags e flags) p',
          pt.address_bits-set_flags e flags,
        )
        refl

  translate-eq :
      (m : Memory) (at table e : Virtual)
      → Walk m at pt.page_map_level4 table e
      → pt.is_present (m e) ≡ true
      → translate table at m ≡ (do target ← entry_target (m e) at; done (some target))
  unfolding translate
  translate-eq m at table e w p = ground (arith, present_entry_of_Walk m at table e w, p)

  -- On well-formed page tables, `change_protection` in a root table of an address with a
  -- protection, to valid flags that contain `present`, returns the old protection and flushes the
  -- TLBs. The page tables are well-formed afterwards, the address has the new protection and
  -- translates to what it did before.
  pub change_protection-protection :
      (pinned : ℕ) (ty : Typing) (table at : Virtual) (flags old : ℕ) (s : Machine)
      → IsPaged pinned ty s.frames
      → ty table ≡ some pt.page_map_level4
      → bits.contains flags present ≡ true
      → pt.is_flags flags ≡ true
      → protection table at s.frames.memory ≡ done (some old)
      → (m : Memory) × (change_protection table at flags s
          ≡ done (some old, with_memory s m (shootdown s.cpu)))
        × (protection table at m ≡ done (some flags))
        × (translate table at m ≡ translate table at s.frames.memory)
        × IsPaged pinned ty (record s.frames { memory = m })
  unfolding change_protection protection
  change_protection-protection pinned ty table at flags old s v q h fl g =
      let m = s.frames.memory in
      let (e, w, pr, o) = protection-Walk m at table old g in
      let u = pt.set_flags (m e) flags in
      let m' = write m e u in
      let (w', sp) = write-Walk ty m at table e u v.space q w in
      let here : m' e ≡ u = rw (eq→== e e refl) in
      let pr' : pt.is_present (m' e) ≡ true = rw here (pt.is_present-set_flags (m e) flags ∙ h) in
      (
        m',
        ground (arith, present_entry_of_Walk m at table e w, pr, o),
        ground (
          arith,
          present_entry_of_Walk m' at table e w',
          pr',
          here,
          pt.flags-set_flags (m e) flags fl,
        ),
        translate-eq m' at table e w' pr'
            ∙ rw (here, entry_target-set_flags (m e) flags at pr h)
                (sym (translate-eq m at table e w pr)),
        IsPaged-memory pinned ty s.frames m' v sp,
      )
