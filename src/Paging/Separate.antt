-- ===== src/Paging/Separate.antt =====
-- `unmap` where the pages of a region have entries of their own: it takes one page's translation.
use silicium_rs.Base.{
  ap, sym, subst, ℕ, suc, ◌+◌, ◌*◌, ◌/◌, ◌<◌, ◌≤◌, ◌≡◌, ◌≢◌, refl, false, none, some, arith, done,
  eq→==, ne→==, ℕ_discrete,
}
use silicium_rs.Crates.Addresses.{Addresses, Virtual}
use silicium_rs.Crates.BitFlags.{BitFlags}
use silicium_rs.Crates.PageTables.{PageTables, PageEntry}
use silicium_rs.Allocator.{Memory}
use silicium_rs.Paging.{Machine, slot, write, unmap, translate, shootdown}
use silicium_rs.Paging.Walk.{Walk, Walk-SamePage, SamePage-of}
use silicium_rs.Paging.Space.{Typing, IsSpace, IsPaged, slot-ne}
use silicium_rs.Paging.Kept.{
  Walk-kept, Walk-typed, present_entry_of_Walk, translate_of_Walk, translate-Walk,
}
use silicium_rs.Paging.Unmap.{write-Walk, unmapped-translate, with_memory, IsPaged-memory}

module _ ⦃x : Addresses⦄ ⦃bits : BitFlags⦄ ⦃pt : PageTables⦄ where
  -- Addresses of a region whose walks end at the same entry are of the same page.
  abbrev pub Separate : Virtual → Virtual → Virtual → Memory → Type 0
  Separate lo hi table m =
      (a b e : Virtual)
      → lo ≤ a
      → a < hi
      → lo ≤ b
      → b < hi
      → Walk m a pt.page_map_level4 table e
      → Walk m b pt.page_map_level4 table e
      → a / 4096 ≡ b / 4096

  -- A write of an entry of the last level.
  inner_same :
      (ty : Typing) (m : Memory) (last at : Virtual) (v : PageEntry)
      → IsSpace ty m
      → ty last ≡ some 0
      → (c : Virtual) (k j : ℕ) → ty c ≡ some (suc k)
      → j < 512
      → write m (slot last 0 at) v (c + j * 8) ≡ m (c + j * 8)
  inner_same ty m last at v s q c k j pc hj =
      let ne =
        slot-ne ty last c 0 (suc k) (pt.page_index at 0) j q pc (s.aligned last 0 q)
          (s.aligned c (suc k) pc) (pt.page_index-lt at 0) hj (omega arith) in
      rw (ne→== (slot last 0 at) (c + j * 8) ne)

  abbrev pub IsUnmapped : Virtual → Virtual → Memory → Type 0
  IsUnmapped table at m = (p : ℕ) → translate table at m ≢ done (some p)

  -- What the unmapping of an address leaves, for the addresses of the region.
  pub record Cleared (lo hi table at : Virtual) (m m' : Memory) : Type 0 where
    pub gone : (b : Virtual) → at / 4096 ≡ b / 4096 → translate table b m' ≡ done none
    pub kept :
        (b : Virtual) (q : ℕ)
        → lo ≤ b
        → b < hi
        → at / 4096 ≢ b / 4096
        → translate table b m ≡ done (some q)
        → translate table b m' ≡ done (some q)
    pub still_gone : (b : Virtual) → IsUnmapped table b m → IsUnmapped table b m'
    pub separate : Separate lo hi table m'

  pub Cleared-write :
      (ty : Typing) (lo hi table at e : Virtual) (v : PageEntry) (m : Memory)
      → IsSpace ty m
      → ty table ≡ some pt.page_map_level4
      → lo ≤ at
      → at < hi
      → Separate lo hi table m
      → Walk m at pt.page_map_level4 table e
      → pt.is_present v ≡ false
      → Cleared lo hi table at m (write m e v)
  Cleared-write ty lo hi table at e v m s q l h sep w absent =
      let (last, le, lt) = Walk-typed ty m at s q w in
      let m' = write m e v in
      let (w', s') = write-Walk ty m at table e v s q w in
      let here : m' e ≡ v = rw (eq→== e e refl) in
      let inner : (c : Virtual) (k j : ℕ)
          → ty c ≡ some (suc k)
          → j < 512
          → m' (c + j * 8) ≡ m (c + j * 8) =
        subst
          (λ i.
            (c : Virtual) (k j : ℕ)
            → ty c ≡ some (suc k)
            → j < 512
            → write m i v (c + j * 8) ≡ m (c + j * 8))
          (sym le) (inner_same ty m last at v s lt) in
      let forth : (b i : Virtual)
          → Walk m b pt.page_map_level4 table i
          → Walk m' b pt.page_map_level4 table i =
        λ b i u. Walk-kept ty m m' b s q (λ c k j pc hj _. inner c k j pc hj) u in
      let back : (b i : Virtual)
          → Walk m' b pt.page_map_level4 table i
          → Walk m b pt.page_map_level4 table i =
        λ b i u. Walk-kept ty m' m b s' q (λ c k j pc hj _. sym (inner c k j pc hj)) u in
      let other : (i : Virtual) → e ≢ i → m' i ≡ m i = λ i n. rw (ne→== e i n) in
      record {
        gone = λ b p.
            unmapped-translate m' b table e (Walk-SamePage m' at b (SamePage-of at b p) w')
              (rw here absent);
        kept = λ b p lb hb n t.
            let (i, u, pr, g) = translate-Walk m b table p t in
            let o = other i (λ f. n (
              sep at b e l h lb hb w
                (subst (λ j. Walk m b pt.page_map_level4 table j) (sym f) u))) in
            translate_of_Walk m' b table i p (forth b i u) (rw o pr) (rw o g);
        still_gone = λ b t p f.
            let (i, u, pr, g) = translate-Walk m' b table p f in
            elim (ℕ_discrete e i) [
              | yes same ↦ ground (arith, here, absent, pr, ap (λ (j : ℕ). m' j) same)
              | no n ↦
                  let o = other i n in
                  t p (translate_of_Walk m b table i p (back b i u) (rw (← o) pr) (rw (← o) g))
            ];
        separate = λ a b i la ha lb hb u v'. sep a b i la ha lb hb (back a i u) (back b i v');
      }

  -- On well-formed page tables, where addresses of different pages of a region have different
  -- entries, `unmap` in a root table of an address of the region that translates to `p` returns `p`
  -- and flushes the TLBs. No address of the page has a translation afterwards, every translation of
  -- another page of the region is kept, no address gains one, and both conditions stay true.
  pub unmap-Cleared :
      (pinned : ℕ) (ty : Typing) (lo hi table at : Virtual) (p : ℕ) (s : Machine)
      → IsPaged pinned ty s.frames
      → ty table ≡ some pt.page_map_level4
      → lo ≤ at
      → at < hi
      → Separate lo hi table s.frames.memory
      → translate table at s.frames.memory ≡ done (some p)
      → (m : Memory) × (unmap table at s ≡ done (some p, with_memory s m (shootdown s.cpu)))
        × Cleared lo hi table at s.frames.memory m
        × IsPaged pinned ty (record s.frames { memory = m })
  unfolding unmap
  unmap-Cleared pinned ty lo hi table at p s v q l h sep t =
      let m = s.frames.memory in
      let (e, w, pr, g) = translate-Walk m at table p t in
      (
        write m e (pt.clear (m e)),
        ground (arith, present_entry_of_Walk m at table e w, pr, g),
        Cleared-write ty lo hi table at e (pt.clear (m e)) m v.space q l h sep w
            (pt.is_present-clear (m e)),
        IsPaged-memory pinned ty s.frames (write m e (pt.clear (m e))) v
            (write-Walk ty m at table e (pt.clear (m e)) v.space q w).1,
      )
