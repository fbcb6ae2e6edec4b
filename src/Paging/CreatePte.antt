-- ===== src/Paging/CreatePte.antt =====
-- `creat_and_fetch_pte`: the walk that it makes, and what it leaves alone.
use silicium_rs.Base.{
  ◌∙◌, ap, sym, subst, ℕ, zero, suc, ◌+◌, ◌*◌, ◌<◌, ◌≡◌, refl, ◌⊎◌, true, false, none, some, arith,
  done, inl, inr, ℕ_discrete,
}
use silicium_rs.Crates.Addresses.{Addresses, Virtual}
use silicium_rs.Crates.BitFlags.{BitFlags}
use silicium_rs.Crates.PageTables.{PageTables, Level}
use silicium_rs.Allocator.{Memory, Frames}
use silicium_rs.Paging.{slot, next_table, creat_and_fetch_pte}
use silicium_rs.Paging.Walk.{Walk, leaf, down}
use silicium_rs.Paging.Space.{Typing, IsPaged, slot-ne}
use silicium_rs.Paging.Grow.{Extends}
use silicium_rs.Paging.Create.{Ensured, ensure_entry_cases}

module _ ⦃x : Addresses⦄ ⦃bits : BitFlags⦄ ⦃pt : PageTables⦄ where
  -- The tables of the first state and some more, made from a level down: of the entries of the
  -- first tables only those change that are of that level or below, no leaves and not present.
  pub record Grown (pinned : ℕ) (l : Level) (ty after : Typing) (s s' : Frames) : Type 0 where
    pub paged : IsPaged pinned after s'
    pub extends : Extends ty after
    pub kept :
        (c : Virtual) (k j : ℕ)
        → ty c ≡ some k
        → j < 512
        → (l < k) ⊎ ((k ≡ 0) ⊎ (pt.is_present (s.memory (c + j * 8)) ≡ true))
        → s'.memory (c + j * 8) ≡ s.memory (c + j * 8)

  -- The entry of an address is reached from the table, in a table of the last level.
  pub record Reached (at : Virtual) (l : Level) (table e : Virtual) (ty : Typing) (m : Memory)
      : Type 0 where
    pub last : Virtual
    pub entry : e ≡ slot last 0 at
    pub typed : ty last ≡ some 0
    pub walk : Walk m at l table e

  pub Grown-refl :
      (pinned : ℕ) (l : Level) (ty : Typing) (s : Frames)
      → IsPaged pinned ty s
      → Grown pinned l ty ty s s
  Grown-refl pinned l ty s p = record {
    paged = p;
    extends = λ b k h. h;
    kept = λ c k j q hj o. refl;
  }

  kept_first :
      (pinned : ℕ) (l : Level) (ty : Typing) (table at : Virtual) (s t : Frames)
      → IsPaged pinned ty s
      → ty table ≡ some (suc l)
      → Ensured pinned l ty (slot table (suc l) at) s t
      → (c : Virtual) (k j : ℕ) → ty c ≡ some k
      → j < 512
      → (suc l < k) ⊎ ((k ≡ 0) ⊎ (pt.is_present (s.memory (c + j * 8)) ≡ true))
      → t.memory (c + j * 8) ≡ s.memory (c + j * 8)
  kept_first pinned l ty table at s t p q e c k j pc hj o = elim (ℕ_discrete k (suc l)) [
    | yes same ↦ e.kept c k j pc hj (inr (ground arith))
    | no ne ↦ e.kept c k j pc hj (
        inl (
          slot-ne ty c table k (suc l) j (pt.page_index at (suc l)) pc q (p.space.aligned c k pc)
            (p.space.aligned table (suc l) q) hj (pt.page_index-lt at (suc l)) ne))
  ]

  present_later :
      {a b : ℕ} (P Q : Type 0) {R : Type 0}
      → R ⊎ (Q ⊎ (pt.is_present a ≡ true))
      → (R → P)
      → b ≡ a
      → P ⊎ (Q ⊎ (pt.is_present b ≡ true))
  present_later P Q (inl r) f e = inl (f r)
  present_later P Q (inr (inl q)) f e = inr (inl q)
  present_later P Q (inr (inr p)) f e = inr (inr (rw e p))

  Grown-step :
      (pinned : ℕ) (l : Level) (ty : Typing) (table at : Virtual) (s t u : Frames)
      → IsPaged pinned ty s
      → ty table ≡ some (suc l)
      → (e : Ensured pinned l ty (slot table (suc l) at) s t) → (after : Typing)
      → Grown pinned l e.after after t u
      → Grown pinned (suc l) ty after s u
  Grown-step pinned l ty table at s t u p q e after g = record {
    paged = g.paged;
    extends = λ b k h. g.extends b k (e.extends b k h);
    kept = λ c k j pc hj o.
        let first = kept_first pinned l ty table at s t p q e c k j pc hj o in
        g.kept c k j (e.extends c k pc) hj
          (present_later (l < k) (k ≡ 0) o (λ h. omega arith) first)
        ∙ first;
  }

  -- The entry was reached before, or it is blank.
  abbrev pub WasReached : Virtual → Level → Virtual → Virtual → Frames → Frames → Type 0
  WasReached at l table e s s' = Walk s.memory at l table e ⊎ (pt.is_present (s'.memory e) ≡ false)

  -- In a table of blank entries only a leaf is reached.
  blank_Walk :
      (at : Virtual) (pinned : ℕ) (ty after : Typing) (t u : Frames) {l : Level} {table e : Virtual}
      → ty table ≡ some l
      → ((j : ℕ) → j < 512 → pt.is_present (t.memory (table + j * 8)) ≡ false)
      → Grown pinned l ty after t u
      → Walk t.memory at l table e
      → pt.is_present (u.memory e) ≡ false
  blank_Walk at pinned ty after t u q blank g (leaf {table} h) =
      let i = pt.page_index at 0 in
      rw (h, g.kept table 0 i q (pt.page_index-lt at 0) (inr (inl refl)))
        (blank i (pt.page_index-lt at 0))
  blank_Walk at pinned ty after t u q blank g (down {l} p n w) =
      absurd (ground (arith, blank (pt.page_index at (suc l)) (pt.page_index-lt at (suc l)), p))

  WasReached-suc :
      (at : Virtual) (l : Level) (table e : Virtual) (pinned : ℕ) (ty after : Typing)
      (s t u : Frames)
      → (en : Ensured pinned l ty (slot table (suc l) at) s t) → Grown pinned l en.after after t u
      → WasReached at l en.next e t u
      → WasReached at (suc l) table e s u
  WasReached-suc at l table e pinned ty after s t u en g (inr b) = inr b
  WasReached-suc at l table e pinned ty after s t u en g (inl w) = elim en.origin [
    | inl same ↦
        let m : t.memory (slot table (suc l) at) ≡ s.memory (slot table (suc l) at) =
          ap (λ (f : Frames). f.memory (slot table (suc l) at)) same in
        inl (
          down (sym (ap (λ (v : ℕ). pt.is_present v) m) ∙ en.created)
            (sym (ap next_table m) ∙ en.leads)
            (subst (λ (f : Frames). Walk f.memory at l en.next e) same w))
    | inr blank ↦ inr (blank_Walk at pinned en.after after t u en.typed blank g w)
  ]

  pub creat_and_fetch_pte_cases :
      (pinned : ℕ) (l : Level) (ty : Typing) (table at : Virtual) (s : Frames)
      → IsPaged pinned ty s
      → ty table ≡ some l
      → (s' : Frames) × (after : Typing) × Grown pinned l ty after s s'
        × ((creat_and_fetch_pte l table at s ≡ done (none, s'))
            ⊎ ((e : Virtual) × (creat_and_fetch_pte l table at s ≡ done (some e, s'))
                × Reached at l table e after s'.memory
                × WasReached at l table e s s'))
  unfolding creat_and_fetch_pte
  creat_and_fetch_pte_cases pinned zero ty table at s p q = (
    s,
    ty,
    Grown-refl pinned 0 ty s p,
    inr (
      slot table 0 at,
      refl,
      record { last = table; entry = refl; typed = q; walk = leaf refl },
      inl (leaf refl),
    ),
  )
  creat_and_fetch_pte_cases pinned (suc l) ty table at s p q =
      elim (ensure_entry_cases pinned ty table l (pt.page_index at (suc l)) s p q
        (pt.page_index-lt at (suc l))) [
          | inl r ↦ (s, ty, Grown-refl pinned (suc l) ty s p, inl (rw r))
          | inr (t, r, e) ↦
              let (u, after, g, o) =
                creat_and_fetch_pte_cases pinned l e.after e.next at t e.paged e.typed in
              let i = pt.page_index at (suc l) in
              let same : u.memory (slot table (suc l) at) ≡ t.memory (slot table (suc l) at) =
                g.kept table (suc l) i (e.extends table (suc l) q) (pt.page_index-lt at (suc l))
                  (inl (omega arith)) in
              (
                u,
                after,
                Grown-step pinned l ty table at s t u p q e after g,
                elim o [
                  | inl none_left ↦ inl (rw (r, e.leads) none_left)
                  | inr (f, found, h, b) ↦ inr (
                    f,
                    rw (r, e.leads) found,
                    record {
                      last = h.last;
                      entry = h.entry;
                      typed = h.typed;
                      walk = down (rw same e.created) (rw same e.leads) h.walk;
                    },
                    WasReached-suc at l table f pinned ty after s t u e g b,
                  )
                ],
              )
        ]
