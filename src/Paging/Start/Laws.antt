-- ===== src/Paging/Start/Laws.antt =====
-- `setup` of the paging: which entries it fills.
use silicium_rs.Base.{
  ◌∙◌, ap, sym, subst, ℕ, zero, suc, ◌+◌, ◌-◌, ◌*◌, ◌<◌, ◌≤◌, ◌≡◌, ◌≢◌, refl, ◌⊎◌, inl, inr, true,
  some, arith, done, panicked, unwrap_none, Bool-cases, eq→==, ne→==, ℕ_discrete,
}
use silicium_rs.Crates.Addresses.{Addresses, Virtual}
use silicium_rs.Crates.BitFlags.{BitFlags}
use silicium_rs.Crates.PageTables.{PageTables}
use silicium_rs.Frame.{frame}
use silicium_rs.Frame.Flags
use silicium_rs.Allocator.{Frames}
use silicium_rs.Allocator.Invariant.{IsWf}
use silicium_rs.Allocator.Left.{free_frames, free_frames-none, Allocated-free_frames}
use silicium_rs.Allocator.Allocate.{Allocated, allocate_cases, allocate-IsWf}
use silicium_rs.Paging.{write, present, writable}
use silicium_rs.Paging.Start.{preallocate, preallocate_all, setup, kernel_base}

module _ ⦃x : Addresses⦄ ⦃bits : BitFlags⦄ ⦃pt : PageTables⦄ where
  -- Every present entry and every word that is none of the entries is kept; the entries are
  -- present.
  pub record Filled (pinned : ℕ) (table : Virtual) (i n : ℕ) (s t : Frames) : Type 0 where
    pub valid : IsWf pinned t
    pub filled : (j : ℕ) → i ≤ j → j < i + n → pt.is_present (t.memory (table + j * 8)) ≡ true
    pub kept : (a : Virtual) → pt.is_present (s.memory a) ≡ true → t.memory a ≡ s.memory a
    pub others :
        (a : Virtual) → ((j : ℕ) → i ≤ j → j < i + n → a ≢ table + j * 8) → t.memory a ≡ s.memory a

  -- A frame for a table of the kernel is not zeroed.
  Allocated-same : (i : ℕ) (s t : Frames) → Allocated Flags.kernel i s t → t.memory ≡ s.memory
  Allocated-same i s t a = a.claimed.memory ∙ ground (arith, bits.contains-bit 5 3)

  preallocate_cases :
      (pinned : ℕ) (entry : Virtual) (s : Frames)
      → IsWf pinned s
      → ((preallocate entry s ≡ panicked unwrap_none) × (free_frames s.array ≡ 0))
        ⊎ ((t : Frames) × (preallocate entry s ≡ done t)
            × (free_frames s.array ≤ suc (free_frames t.array))
            × IsWf pinned t
            × (pt.is_present (t.memory entry) ≡ true)
            × ((a : Virtual)
                → (pt.is_present (s.memory a) ≡ true) ⊎ (a ≢ entry)
                → t.memory a ≡ s.memory a))
  unfolding preallocate
  preallocate_cases pinned entry s w = elim (Bool-cases (pt.is_present (s.memory entry))) [
    | inl p ↦ inr (s, ground (arith, p), omega arith, w, p, λ a o. refl)
    | inr p ↦ elim (allocate_cases pinned Flags.kernel s w) [
      | inl (n, e) ↦ inl (ground (arith, p, e), free_frames-none s.array n)
      | inr (i, u, e, al) ↦
          let v = allocate-IsWf pinned Flags.kernel s u (some (frame (i * 4096))) w e in
          let same = Allocated-same i s u al in
          let entry_value =
            pt.set_flags (pt.set_address (u.memory entry) (i * 4096))
              (bits.union present writable) in
          let here : write u.memory entry entry_value entry ≡ entry_value =
            rw (eq→== entry entry refl) in
          inr (
            record u { memory = write u.memory entry entry_value },
            ground (arith, p, e),
            omega (arith, Allocated-free_frames Flags.kernel i s u al),
            record {
              infos = v.infos;
              small = v.small;
              accounted = v.accounted;
              few_pinned = v.few_pinned;
            },
            rw here (
                ground (
                  arith,
                  pt.is_present-set_flags (pt.set_address (u.memory entry) (i * 4096))
                      (bits.union present writable),
                  bits.contains-union present writable pt.present_bit,
                  bits.contains-bit pt.present_bit pt.present_bit,
                )),
            λ a o.
                let ne : ¬ (entry ≡ a) = λ q. elim o [
                  | inl pr ↦ ground (arith, p, ap (λ (b : ℕ). s.memory b) q, pr)
                  | inr n ↦ n (sym q)
                ] in
                rw (ne→== entry a ne) (ap (λ m. m a) same),
          )
    ]
  ]

  Filled-suc :
      (pinned : ℕ) (table : Virtual) (i n : ℕ) (s t u : Frames)
      → (pt.is_present (t.memory (table + i * 8)) ≡ true)
      → ((a : Virtual)
          → (pt.is_present (s.memory a) ≡ true) ⊎ (a ≢ table + i * 8)
          → t.memory a ≡ s.memory a)
      → Filled pinned table (suc i) n t u
      → Filled pinned table i (suc n) s u
  Filled-suc pinned table i n s t u here kept f = record {
    valid = f.valid;
    filled = λ j p q. elim (ℕ_discrete i j) [
      | yes e ↦
          subst (λ k. pt.is_present (u.memory (table + k * 8)) ≡ true) e
            (ap (λ (v : ℕ). pt.is_present v) (f.kept (table + i * 8) here) ∙ here)
      | no ne ↦ f.filled j (omega arith) (omega arith)
    ];
    kept = λ a p. f.kept a (ap (λ (v : ℕ). pt.is_present v) (kept a (inl p)) ∙ p) ∙ kept a (inl p);
    others = λ a h.
        f.others a (λ j p q. h j (omega arith) (omega arith))
        ∙ kept a (inr (h i (omega arith) (omega arith)));
  }

  preallocate_all_cases :
      (pinned n i : ℕ) (table : Virtual) (s : Frames)
      → IsWf pinned s
      → ((preallocate_all n i table s ≡ panicked unwrap_none) × (free_frames s.array < n))
        ⊎ ((t : Frames) × (preallocate_all n i table s ≡ done t) × Filled pinned table i n s t)
  unfolding preallocate_all
  preallocate_all_cases pinned zero i table s w = inr (
    s,
    refl,
    record {
      valid = w;
      filled = λ j p q. absurd (omega arith);
      kept = λ a p. refl;
      others = λ a h. refl;
    },
  )
  preallocate_all_cases pinned (suc n) i table s w =
      elim (preallocate_cases pinned (table + i * 8) s w) [
        | inl (e, z) ↦ inl (ground (arith, e), omega arith)
        | inr (t, e, left, v, here, kept) ↦
            elim (preallocate_all_cases pinned n (suc i) table t v) [
              | inl (d, few) ↦ inl (ground (arith, e, d), omega arith)
              | inr (u, d, f) ↦
                  inr (u, ground (arith, e, d), Filled-suc pinned table i n s t u here kept f)
            ]
      ]

  -- With a well-formed frame allocator, `setup` panics, which it does only if fewer frames are free
  -- than there are entries from that of the kernel's base up to the last, or it returns and every entry of the root table from that of the kernel's base up to the last is
  -- present, present words are kept, and no other word of memory changes; the frame allocator
  -- stays well-formed.
  pub setup-Filled :
      (pinned : ℕ) (table : Virtual) (s : Frames)
      → IsWf pinned s
      → ((setup table s ≡ panicked unwrap_none)
          × (free_frames s.array < 512 - pt.page_index kernel_base pt.page_map_level4))
        ⊎ ((t : Frames) × (setup table s ≡ done t)
            × Filled pinned table
                (pt.page_index kernel_base pt.page_map_level4)
                (512 - pt.page_index kernel_base pt.page_map_level4)
                s
                t)
  unfolding setup
  setup-Filled pinned table s w =
      rw (pt.pml4_offset_lem kernel_base, pt.entry_count_lem)
        (preallocate_all_cases pinned (512 - pt.page_index kernel_base pt.page_map_level4)
          (pt.page_index kernel_base pt.page_map_level4) table s w)
