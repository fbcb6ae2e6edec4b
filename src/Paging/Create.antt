-- ===== src/Paging/Create.antt =====
-- A new table for an entry: `ensure_entry`.
use silicium_rs.Base.{
  ap, sym, ℕ, suc, ◌+◌, ◌*◌, ◌<◌, ◌≡◌, ◌≢◌, refl, ◌⊎◌, true, false, none, some, arith, done, inl,
  inr, Bool-cases, eq→==, ne→==, lt_of_get_elem?,
}
use silicium_rs.Crates.Addresses.{Addresses, Virtual}
use silicium_rs.Crates.BitFlags.{BitFlags}
use silicium_rs.Crates.PageTables.{PageTables, Level}
use silicium_rs.Frame.{frame}
use silicium_rs.Allocator.{Memory, Frames}
use silicium_rs.Allocator.Invariant.{IsWf}
use silicium_rs.Allocator.Allocate.{Allocated, allocate_cases, allocate-IsWf}
use silicium_rs.Paging.{next_table, write, ensure_entry, kernel_zeroed}
use silicium_rs.Paging.Space.{Typing, IsPaged, direct_map}
use silicium_rs.Paging.Grow.{assign, Extends, assign-Extends, IsSpace-write}
use silicium_rs.Paging.NewTable.{
  zero_bytes-inside, new_entry, new_entry-present, new_entry-leads, outside_new, Allocated-memory,
  Allocated-kept, allocated-IsPaged,
}

module _ ⦃x : Addresses⦄ ⦃bits : BitFlags⦄ ⦃pt : PageTables⦄ where
  -- What `ensure_entry` has done when it returns true.
  pub record Ensured (pinned : ℕ) (l : Level) (ty : Typing) (entry : Virtual) (s s' : Frames)
      : Type 0 where
    pub after : Typing
    pub paged : IsPaged pinned after s'
    pub extends : Extends ty after
    pub created : pt.is_present (s'.memory entry) ≡ true
    pub next : Virtual
    pub leads : next_table (s'.memory entry) ≡ done next
    pub typed : after next ≡ some l
    pub origin : (s' ≡ s) ⊎ ((j : ℕ) → j < 512 → pt.is_present (s'.memory (next + j * 8)) ≡ false)
    pub kept :
        (c : Virtual) (k j : ℕ)
        → ty c ≡ some k
        → j < 512
        → (c + j * 8 ≢ entry) ⊎ (pt.is_present (s.memory (c + j * 8)) ≡ true)
        → s'.memory (c + j * 8) ≡ s.memory (c + j * 8)

  other_entry :
      (m : Memory) (e a : Virtual)
      → pt.is_present (m e) ≡ false
      → (a ≢ e) ⊎ (pt.is_present (m a) ≡ true)
      → e ≢ a
  other_entry m e a blank (inl n) q = n (sym q)
  other_entry m e a blank (inr p) q = ground (arith, ap (λ (b : ℕ). m b) q)

  Ensured-old :
      (pinned : ℕ) (ty : Typing) (b : Virtual) (l n : ℕ) (s : Frames)
      → IsPaged pinned ty s
      → ty b ≡ some (suc l)
      → n < 512
      → pt.is_present (s.memory (b + n * 8)) ≡ true
      → Ensured pinned l ty (b + n * 8) s s
  Ensured-old pinned ty b l n s p q hn there =
      let (next, leads, typed) = p.space.children b l n q hn there in
      record {
        after = ty;
        paged = p;
        extends = λ c k h. h;
        created = there;
        next = next;
        leads = leads;
        typed = typed;
        origin = inl refl;
        kept = λ c k j pc hj o. refl;
      }

  Ensured-new :
      (pinned : ℕ) (ty : Typing) (b : Virtual) (l n i : ℕ) (s t : Frames)
      → IsPaged pinned ty s
      → ty b ≡ some (suc l)
      → n < 512
      → pt.is_present (s.memory (b + n * 8)) ≡ false
      → IsWf pinned t
      → Allocated kernel_zeroed i s t
      → i * 4096 < 0x1000_0000_0000
      → Ensured pinned l ty (b + n * 8) s (record t {
        memory = write t.memory (b + n * 8) (new_entry (t.memory (b + n * 8)) (i * 4096));
      })
  Ensured-new pinned ty b l n i s t p q hn blank w a hi =
      let base = direct_map (i * 4096) in
      let fresh : ty base ≡ none = p.apart i a.before a.found a.was_free in
      let ext = assign-Extends ty base l fresh in
      let v = new_entry (t.memory (b + n * 8)) (i * 4096) in
      let pg = allocated-IsPaged pinned ty l i s t p w a in
      let typed : assign ty base l base ≡ some l = rw (eq→== base base refl) in
      let leads = new_entry-leads (t.memory (b + n * 8)) (i * 4096) (omega arith) (omega arith) in
      let here : write t.memory (b + n * 8) v (b + n * 8) ≡ v =
        rw (eq→== (b + n * 8) (b + n * 8) refl) in
      record {
        after = assign ty base l;
        paged = record {
          wf = record {
            infos = w.infos;
            small = w.small;
            accounted = w.accounted;
            few_pinned = w.few_pinned;
          };
          space =
              IsSpace-write (assign ty base l) t.memory b n l v base pg.space (ext b (suc l) q) hn
                leads typed;
          apart = pg.apart;
        };
        extends = ext;
        created = rw here (new_entry-present (t.memory (b + n * 8)) (i * 4096));
        next = base;
        leads = rw here leads;
        typed = typed;
        origin = inr (λ j hj.
            let o = outside_new ty base b (suc l) n p.space.aligned fresh (omega arith) q hn in
            let ne : b + n * 8 ≢ base + j * 8 = λ e. omega arith in
            rw
              (
                ne→== (b + n * 8) (base + j * 8) ne,
                Allocated-memory i s t pinned p.wf a,
                zero_bytes-inside base 4096 s.memory (base + j * 8) (omega arith) (omega arith),
              )
              pt.is_present-zero);
        kept = λ c k j pc hj o.
            rw
              (ne→== (b + n * 8) (c + j * 8) (other_entry s.memory (b + n * 8) (c + j * 8) blank o))
              (Allocated-kept pinned kernel_zeroed ty i s t p a c k j pc hj);
      }

  -- Either the entry leads to a table afterwards, or there is no free frame and nothing changes.
  pub ensure_entry_cases :
      (pinned : ℕ) (ty : Typing) (b : Virtual) (l n : ℕ) (s : Frames)
      → IsPaged pinned ty s
      → ty b ≡ some (suc l)
      → n < 512
      → (ensure_entry (b + n * 8) s ≡ done (false, s))
        ⊎ ((s' : Frames) × (ensure_entry (b + n * 8) s ≡ done (true, s'))
            × Ensured pinned l ty (b + n * 8) s s')
  unfolding ensure_entry new_entry
  ensure_entry_cases pinned ty b l n s p q hn =
      elim (Bool-cases (pt.is_present (s.memory (b + n * 8)))) [
        | inl there ↦ inr (s, ground (arith, there), Ensured-old pinned ty b l n s p q hn there)
        | inr blank ↦ elim (allocate_cases pinned kernel_zeroed s p.wf) [
          | inl (_, e) ↦ inl (ground (arith, blank, e))
          | inr (i, t, e, a) ↦ inr (
            record t {
              memory = write t.memory (b + n * 8) (new_entry (t.memory (b + n * 8)) (i * 4096));
            },
            ground (arith, blank, e),
            Ensured-new pinned ty b l n i s t p q hn blank
                (allocate-IsWf pinned kernel_zeroed s t (some (frame (i * 4096))) p.wf e) a
                (omega (arith, lt_of_get_elem? s.array i a.before a.found, p.wf.small)),
          )
        ]
      ]
