-- ===== src/Paging/NewFrame.antt =====
-- The frame that `map` maps: the given one, or a new one.
use silicium_rs.Base.{
  ◌∙◌, ap, sym, ℕ, suc, ◌+◌, ◌*◌, ◌%◌, ◌<◌, ◌≤◌, ◌≡◌, ◌≢◌, refl, ◌⊎◌, none, some, arith, done, inl,
  inr, ℕ_discrete, get_elem?, lt_of_get_elem?, get_elem?-set_self, get_elem?-set_ne,
}
use silicium_rs.Crates.Addresses.{Addresses, Virtual}
use silicium_rs.Crates.BitFlags.{BitFlags}
use silicium_rs.Crates.PageTables.{PageTables, Level}
use silicium_rs.Frame.{Frame, frame}
use silicium_rs.Allocator.{Frames}
use silicium_rs.Allocator.Invariant.{IsWf}
use silicium_rs.Allocator.Allocate.{Allocated, allocate_cases, allocate-IsWf}
use silicium_rs.Paging.{kernel_zeroed, frame_to_map}
use silicium_rs.Paging.Space.{Typing, IsSpace, FreeApart}
use silicium_rs.Paging.NewTable.{Allocated-kept}
use silicium_rs.Paging.CreatePte.{Grown}

module _ ⦃x : Addresses⦄ ⦃bits : BitFlags⦄ ⦃pt : PageTables⦄ where
  -- Tables stay where their entries do not change.
  IsSpace-same :
      (ty : Typing) (s t : Frames)
      → IsSpace ty s.memory
      → ((c : Virtual) (k j : ℕ)
          → ty c ≡ some k
          → j < 512
          → t.memory (c + j * 8) ≡ s.memory (c + j * 8))
      → IsSpace ty t.memory
  IsSpace-same ty s t v h = record {
    aligned = v.aligned;
    children = λ b l i q hi p.
        let same = h b (suc l) i q hi in
        let (next, leads, typed) = v.children b l i q hi (rw same at p) in
        (next, rw same leads, typed);
  }

  FreeApart-taken :
      (flags : ℕ) (ty : Typing) (i : ℕ) (s t : Frames)
      → FreeApart ty s
      → Allocated flags i s t
      → FreeApart ty t
  FreeApart-taken flags ty i s t h a j info found free = elim (ℕ_discrete i j) [
    | yes e ↦
        let v = get_elem?-set_self s.array i a.after (lt_of_get_elem? s.array i a.before a.found) in
        absurd (ground (arith, a.claimed.taken, a.array, v, e, found))
    | no n ↦
        h j info
          (sym (get_elem?-set_ne s.array i j a.after n)
            ∙ ap (λ xs. get_elem? xs j) (sym a.array)
            ∙ found)
          free
  ]

  -- A frame that is handed out changes no table.
  pub Grown-allocate :
      (pinned flags : ℕ) (l : Level) (ty after : Typing) (i : ℕ) (s t u : Frames)
      → Grown pinned l ty after s t
      → IsWf pinned u
      → Allocated flags i t u
      → Grown pinned l ty after s u
  Grown-allocate pinned flags l ty after i s t u g w a =
      let k = Allocated-kept pinned flags after i t u g.paged a in
      record {
        paged = record {
          wf = w;
          space = IsSpace-same after t u g.paged.space k;
          apart = FreeApart-taken flags after i t u g.paged.apart a;
        };
        extends = g.extends;
        kept = λ c j n pc hn o. k c j n (g.extends c j pc) hn ∙ g.kept c j n pc hn o;
      }

  -- The frame that is mapped: the given one unless that is null, otherwise the first free frame.
  abbrev pub IsTarget : Frame → Frame → Type 0
  IsTarget f g =
      ((f.start ≢ 0) × (g ≡ f))
      ⊎ ((f.start ≡ 0) × (g.start % 4096 ≡ 0) × (g.start + 4096 ≤ 0x10_0000_0000_0000))

  pub frame_to_map_cases :
      (pinned : ℕ) (l : Level) (ty after : Typing) (f : Frame) (s t : Frames)
      → Grown pinned l ty after s t
      → ((frame_to_map f t ≡ done (none, t)) × (f.start ≡ 0))
        ⊎ ((g : Frame) × (u : Frames) × (frame_to_map f t ≡ done (some g, u))
            × IsTarget f g
            × Grown pinned l ty after s u
            × ((c : Virtual) (k j : ℕ)
                → after c ≡ some k
                → j < 512
                → u.memory (c + j * 8) ≡ t.memory (c + j * 8)))
  unfolding frame_to_map
  frame_to_map_cases pinned l ty after f s t g = elim (ℕ_discrete f.start 0) [
    | no n ↦ inr (f, t, ground (arith, n), inl (n, refl), g, λ c k j pc hj. refl)
    | yes z ↦ elim (allocate_cases pinned kernel_zeroed t g.paged.wf) [
      | inl (_, e) ↦ inl (ground (arith, z, e), z)
      | inr (i, u, e, a) ↦
          let w = allocate-IsWf pinned kernel_zeroed t u (some (frame (i * 4096))) g.paged.wf e in
          let small = lt_of_get_elem? t.array i a.before a.found in
          inr (
            frame (i * 4096),
            u,
            ground (arith, z, e),
            inr (z, omega arith, omega (arith, small, g.paged.wf.small)),
            Grown-allocate pinned kernel_zeroed l ty after i s t u g w a,
            Allocated-kept pinned kernel_zeroed after i t u g.paged a,
          )
    ]
  ]
