-- ===== src/Smp/Start.antt =====
-- `start_cpus` from its beginning: it returns once all cores have started, and then only.
use silicium_rs.Base.{
  ℕ, suc, ◌≤◌, ◌<◌, ◌≡◌, ◌≢◌, ◌∙◌, sym, subst, inl, inr, refl, ap, arith, true, false, Bool, some,
  List, done, Panic, length, get_elem?, get_elem?_of_lt, set, set_cases, length-set, not, ◌==◌, leb,
  leb→le, guard, >>=-eq-done, done_injective, no_core_found, too_many_cores,
}
use silicium_rs.Crates.Addresses.{Addresses}
use silicium_rs.Crates.BitFlags.{BitFlags}
use silicium_rs.Crates.PageTables.{PageTables}
use silicium_rs.Crates.VirtualRanges.{VirtualRanges}
use silicium_rs.Crates.SegmentTables.{SegmentTables}
use silicium_rs.Smp.Local.{gdt_entries, max_cpu, SmpInfo}
use silicium_rs.Smp.Totals.{total-zero, total-all}
use silicium_rs.Smp.System.{
  Phase, ready, Core, telling, finished, Shared, System, begin, Step, tell, skip, all_told,
  all_started, work, Steps, stop, later,
}
use silicium_rs.Smp.Counted.{started, started-le, Step-Worked, IsCounted, Step-IsCounted}

module _ ⦃x : Addresses⦄ ⦃bits : BitFlags⦄ ⦃pt : PageTables⦄ ⦃ranges : VirtualRanges⦄
    ⦃gdt : SegmentTables gdt_entries⦄ where
  -- Before the start every core is parked and only the first is counted.
  pub record IsParked (first : ℕ) (cores : List Core) (s : Shared) : Type 0 where
    pub inside : first < length cores
    pub counted : s.count ≡ 1
    pub parked : (j : ℕ) (c : Core) → get_elem? cores j ≡ some c → c.phase ≡ Phase.parked

  pub begin_eq :
      (cores : List Core) (s : Shared) (t : System)
      → begin cores s ≡ done t
      → (length cores ≤ max_cpu) × (t ≡ record { shared = s; cores = cores; boot = telling 0 })
  unfolding begin
  begin_eq cores s t e =
      let (_, g, f) = >>=-eq-done (guard (not (length cores == 0)) no_core_found) _ e in
      let (_, h, q) = >>=-eq-done (guard (leb (length cores) max_cpu) too_many_cores) _ f in
      (
        leb→le (length cores) max_cpu (guarded (leb (length cores) max_cpu) too_many_cores h),
        sym (done_injective q),
      )
    where
      guarded : (b : Bool) (p : Panic) {a : Unit {0}} → guard b p ≡ done a → b ≡ true
      guarded true p h = refl
      guarded false p h = cc

  begin-IsCounted :
      {first : ℕ} {cores : List Core} {s : Shared} {t : System}
      → IsParked first cores s
      → begin cores s ≡ done t
      → IsCounted first t
  begin-IsCounted {first} {cores} {s} {t} p e =
      let (few, q) = begin_eq cores s t e in
      subst (IsCounted first) (sym q) (record {
        few = few;
        counted =
            omega (
              arith,
              p.counted,
              total-zero started cores (λ j c g. ground (arith, p.parked j c g)),
            );
        own = λ c g. ground (arith, p.parked first c g);
        within = omega arith;
        untold = λ j c g _. p.parked j c g;
        none_left = λ j c g lt. absurd (omega arith);
        skipped = λ j c g _. p.parked j c g;
      })

  -- All cores but the first have come to the end of `ap_start`.
  abbrev pub AllReady : ℕ → System → Type 0
  AllReady first s =
      (j : ℕ) (c : Core)
      → get_elem? s.cores j ≡ some c
      → j ≢ first
      → (c.phase ≡ ready) × (c.info.lapic_id ≢ 0)

  ready_of : (c : Core) → started c ≡ 1 → c.phase ≡ ready
  ready_of c h = ground arith

  all_counted :
      {first : ℕ} {s : System}
      → IsCounted first s
      → first < length s.cores
      → s.shared.count ≡ length s.cores
      → AllReady first s
  all_counted {first} {s} v f e j c g n =
      let (own, og) = get_elem?_of_lt s.cores first f in
      let r = ready_of c (
        total-all started started-le s.cores first j own c og (v.own own og)
          (omega (arith, v.counted)) (λ q. n (sym q)) g) in
      (r, λ z. ground (arith, v.skipped j c g z, r))

  Step-length : {n first : ℕ} {s t : System} → Step n first s t → length t.cores ≡ length s.cores
  Step-length {s} (tell i c b g z) = length-set s.cores i _
  Step-length (skip i c b g z) = refl
  Step-length (all_told b) = refl
  Step-length (all_started b e) = refl
  Step-length {s} (work i c c' t ne g idle e) = length-set s.cores i c'

  finished_ready :
      {n first : ℕ} {s t : System}
      → IsCounted first s
      → first < length s.cores
      → (s.boot ≡ finished → AllReady first s)
      → Step n first s t
      → t.boot ≡ finished
      → AllReady first t
  finished_ready v f h (tell i c b g z) q = cc
  finished_ready v f h (skip i c b g z) q = cc
  finished_ready v f h (all_told b) q = cc
  finished_ready v f h (all_started b e) q = all_counted v f e
  finished_ready v f h (work i c c' t ne g idle e) q =
      absurd (ground (arith, (h q i c g ne).0, idle))

  -- Every core but the first has a local APIC with another number than 0.
  abbrev pub OthersNumbered : ℕ → List Core → Type 0
  OthersNumbered first cores =
      (j : ℕ) (c : Core) → get_elem? cores j ≡ some c → j ≢ first → c.info.lapic_id ≢ 0

  set-OthersNumbered :
      (first i : ℕ) (cs : List Core) (c c' : Core)
      → OthersNumbered first cs
      → get_elem? cs i ≡ some c
      → c'.info ≡ c.info
      → OthersNumbered first (set cs i c')
  set-OthersNumbered first i cs c c' o g same j d h n z = elim (set_cases cs i j c' d h) [
    | inl (e, f) ↦
        o i c g (λ q. n (sym e ∙ q))
          (sym (ap (λ (k : SmpInfo). k.lapic_id) same) ∙ ap (λ (k : Core). k.info.lapic_id) f ∙ z)
    | inr (_, h') ↦ o j d h' n z
  ]

  pub Step-OthersNumbered :
      {n first : ℕ} {s t : System}
      → OthersNumbered first s.cores
      → Step n first s t
      → OthersNumbered first t.cores
  Step-OthersNumbered {n} {first} {s} o (tell i c b g z) =
      set-OthersNumbered first i s.cores c _ o g refl
  Step-OthersNumbered o (skip i c b g z) = o
  Step-OthersNumbered o (all_told b) = o
  Step-OthersNumbered o (all_started b e) = o
  Step-OthersNumbered {n} {first} {s} o (work i c c' t ne g idle e) =
      set-OthersNumbered first i s.cores c c' o g (Step-Worked n idle e).info

  pub before :
      {n first : ℕ} {s t u : System} → Step n first s t → Steps n first t u → Steps n first s u
  before st stop = later stop st
  before st (later r last) = later (before st r) last

  unfoldable pub count_steps : {n first : ℕ} {s t : System} → Steps n first s t → ℕ
  count_steps stop = 0
  count_steps (later r st) = suc (count_steps r)

  -- What stays true from the beginning on.
  pub record Going (first : ℕ) (s : System) : Type 0 where
    pub inside : first < length s.cores
    pub counted : IsCounted first s
    pub finished_ready : s.boot ≡ finished → AllReady first s

  pub Step-Going : {n first : ℕ} {s t : System} → Going first s → Step n first s t → Going first t
  Step-Going v st = record {
    inside = omega (arith, v.inside, Step-length st);
    counted = Step-IsCounted v.counted st;
    finished_ready = finished_ready v.counted v.inside v.finished_ready st;
  }

  pub Steps-Going : {n first : ℕ} {s t : System} → Going first s → Steps n first s t → Going first t
  Steps-Going v stop = v
  Steps-Going v (later r st) = Step-Going (Steps-Going v r) st

  pub Steps-OthersNumbered :
      {n first : ℕ} {s t : System}
      → OthersNumbered first s.cores
      → Steps n first s t
      → OthersNumbered first t.cores
  Steps-OthersNumbered o stop = o
  Steps-OthersNumbered o (later r st) = Step-OthersNumbered (Steps-OthersNumbered o r) st

  pub begin-Going :
      {first : ℕ} {cores : List Core} {s : Shared} {t : System}
      → IsParked first cores s
      → begin cores s ≡ done t
      → Going first t
  begin-Going {first} {cores} {s} {t} p e = record {
    inside = subst (λ (k : System). first < length k.cores) (sym (begin_eq cores s t e).1) p.inside;
    counted = begin-IsCounted p e;
    finished_ready =
        λ q. absurd (ground (arith, q, ap (λ (k : System). k.boot) (begin_eq cores s t e).1));
  }

  -- From cores that are parked, with only the first one counted: whenever `start_cpus` has returned,
  -- in any order of the cores' steps, every core but the first has come to the end of `ap_start`,
  -- and its local APIC has another number than 0.
  pub begin-AllReady :
      {n first : ℕ} {cores : List Core} {s : Shared} {t u : System}
      → IsParked first cores s
      → begin cores s ≡ done t
      → Steps n first t u
      → u.boot ≡ finished
      → AllReady first u
  begin-AllReady p e r q = (Steps-Going (begin-Going p e) r).finished_ready q
