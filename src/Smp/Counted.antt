-- ===== src/Smp/Counted.antt =====
-- What holds of the cores and of the count at every point of the start.
use mathlib.Core.Option.{some-injective}
use silicium_rs.Base.{
  ℕ, suc, ◌+◌, ◌^◌, ◌%◌, ◌≤◌, ◌<◌, ◌≡◌, ◌≢◌, ◌∙◌, sym, subst, inl, inr, refl, ap, arith, ◌==◌,
  false, Option, some, done, length, get_elem?, set, length-set, set_cases, lt_of_get_elem?,
  ℕ_discrete, if◌then◌else◌, >>=-eq-done, done_injective,
}
use silicium_rs.Crates.Addresses.{Addresses}
use silicium_rs.Crates.BitFlags.{BitFlags}
use silicium_rs.Crates.PageTables.{PageTables}
use silicium_rs.Crates.VirtualRanges.{VirtualRanges}
use silicium_rs.Crates.SegmentTables.{SegmentTables}
use silicium_rs.Smp.Local.{
  max_cpu, gdt_entries, SmpInfo, ThreadLocalInfo, take_area, use_area, install,
}
use silicium_rs.Current.{TableRoot, table_frame, clone_table}
use silicium_rs.Smp.Totals.{total, total-set, total-le_length}
use silicium_rs.Smp.System.{
  Phase, parked, told, reloaded, with_area, with_storage, with_lapic, with_segment, with_frame,
  with_table, ready, Core, Boot, telling, waiting, finished, Shared, ap_step, System, is_idle, Step,
  tell, skip, all_told, all_started, work, Steps, stop, later,
}

abbrev pub started : Core → ℕ
started c = elim c.phase [ ready ↦ 1 | _ ↦ 0 ]

-- The steps that a core has left.
abbrev pub steps_left : Phase → ℕ
steps_left parked = 9
steps_left told = 8
steps_left reloaded = 7
steps_left (with_area area) = 6
steps_left with_storage = 5
steps_left with_lapic = 4
steps_left with_segment = 3
steps_left (with_frame frame) = 2
steps_left with_table = 1
steps_left ready = 0

-- How many entries of the list the first core has been through.
abbrev pub reached : Boot → ℕ → ℕ
reached (telling i) n = i
reached _ n = n

module _ ⦃x : Addresses⦄ ⦃bits : BitFlags⦄ ⦃pt : PageTables⦄ ⦃ranges : VirtualRanges⦄
    ⦃gdt : SegmentTables gdt_entries⦄ where
  -- A step of `ap_start`.
  pub record Worked (c c' : Core) (s t : Shared) : Type 0 where
    pub info : c'.info ≡ c.info
    pub nearer : steps_left c.phase ≡ suc (steps_left c'.phase)
    pub counts : t.count ≡ (if started c' == 1 then (s.count + 1) % 2 ^ 64 else s.count)

  step-Worked :
      (c : Core) (s : Shared) {r r' : Core × Shared}
      → done r ≡ done r'
      → Worked c r.0 s r.1
      → Worked c r'.0 s r'.1
  step-Worked c s e w = subst (λ z. Worked c z.0 s z.1) (done_injective e) w

  ap_step-Worked :
      (per_cpu_size : ℕ) (info : SmpInfo) (p : Phase) (local : Option ThreadLocalInfo)
      (table : Option TableRoot) (s : Shared) (c' : Core) (t : Shared)
      → is_idle p ≡ false
      → let c : Core = record { info = info; phase = p; local = local; table = table } in
        ap_step per_cpu_size c s ≡ done (c', t) → Worked c c' s t
  unfolding ap_step
  ap_step-Worked n info parked local table s c' t h e = cc
  ap_step-Worked n info ready local table s c' t h e = cc
  ap_step-Worked n info told local table s c' t h e =
      step-Worked _ s e (record { info = refl; nearer = refl; counts = refl })
  ap_step-Worked n info reloaded local table s c' t h e =
      let (_, _, f) = >>=-eq-done (take_area n s.vmm) _ e in
      step-Worked _ s f (record { info = refl; nearer = refl; counts = refl })
  ap_step-Worked n info (with_area area) local table s c' t h e =
      let (_, _, f) = >>=-eq-done (use_area n info area s.vmm) _ e in
      step-Worked _ s f (record { info = refl; nearer = refl; counts = refl })
  ap_step-Worked n info with_storage local table s c' t h e =
      step-Worked _ s e (record { info = refl; nearer = refl; counts = refl })
  ap_step-Worked n info with_lapic local table s c' t h e =
      let (_, _, f) = >>=-eq-done (install info.processor_id s.gdt_table) _ e in
      step-Worked _ s f (record { info = refl; nearer = refl; counts = refl })
  ap_step-Worked n info with_segment local table s c' t h e =
      let (_, _, f) = >>=-eq-done (table_frame s.frames) _ e in
      step-Worked _ s f (record { info = refl; nearer = refl; counts = refl })
  ap_step-Worked n info (with_frame frame) local table s c' t h e =
      let (_, _, f) = >>=-eq-done (clone_table s.init frame s.frames) _ e in
      step-Worked _ s f (record { info = refl; nearer = refl; counts = refl })
  ap_step-Worked n info with_table local table s c' t h e =
      step-Worked _ s e (record { info = refl; nearer = refl; counts = refl })

  -- `first` runs `start_cpus` and never starts itself; the first `reached` cores have been told,
  -- unless their local APIC has the number 0; the others are parked; the count is right.
  pub record IsCounted (first : ℕ) (s : System) : Type 0 where
    pub few : length s.cores ≤ max_cpu
    pub counted : s.shared.count ≡ suc (total started s.cores)
    pub own : (c : Core) → get_elem? s.cores first ≡ some c → started c ≡ 0
    pub within : reached s.boot (length s.cores) ≤ length s.cores
    pub untold :
        (j : ℕ) (c : Core)
        → get_elem? s.cores j ≡ some c
        → reached s.boot (length s.cores) ≤ j
        → c.phase ≡ parked
    pub none_left :
        (j : ℕ) (c : Core)
        → get_elem? s.cores j ≡ some c
        → j < reached s.boot (length s.cores)
        → c.info.lapic_id ≢ 0
        → c.phase ≢ parked
    pub skipped :
        (j : ℕ) (c : Core) → get_elem? s.cores j ≡ some c → c.info.lapic_id ≡ 0 → c.phase ≡ parked

  pub started-le : (c : Core) → started c ≤ 1
  started-le c = ground arith

  pub reached_eq :
      (s : System) {b : Boot}
      → s.boot ≡ b
      → reached s.boot (length s.cores) ≡ reached b (length s.cores)
  reached_eq s e = ap (λ b. reached b (length s.cores)) e

  Step-tell :
      {first : ℕ} {s : System} (i : ℕ) (c : Core)
      → IsCounted first s
      → s.boot ≡ telling i
      → get_elem? s.cores i ≡ some c
      → c.info.lapic_id ≢ 0
      → IsCounted first
          (record s { cores = set s.cores i (record c { phase = told }); boot = telling (suc i) })
  Step-tell {first} {s} i c v b g z =
      let c' : Core = record c { phase = told } in
      let lt = lt_of_get_elem? s.cores i c g in
      let r : reached s.boot (length s.cores) ≡ i = reached_eq s b in
      let pk : c.phase ≡ parked = v.untold i c g (omega arith) in
      record {
        few = omega (arith, v.few, length-set s.cores i c');
        counted = ground (arith, v.counted, total-set started s.cores i c c' g, pk);
        own = λ d h. elim (set_cases s.cores i first c' d h) [
          | inl (_, e) ↦ ap started (sym e)
          | inr (_, h') ↦ v.own d h'
        ];
        within = omega (arith, lt, length-set s.cores i c');
        untold = λ j d h le. elim (set_cases s.cores i j c' d h) [
          | inl (e, _) ↦ absurd (omega arith)
          | inr (_, h') ↦ v.untold j d h' (omega (arith, r))
        ];
        none_left = λ j d h l q pk. elim (set_cases s.cores i j c' d h) [
          | inl (_, f) ↦ ground (arith, ap (λ (k : Core). k.phase) f, pk)
          | inr (k, h') ↦ v.none_left j d h' (omega (arith, r, k)) q pk
        ];
        skipped = λ j d h q. elim (set_cases s.cores i j c' d h) [
          | inl (e, f) ↦ absurd (z (ap (λ (k : Core). k.info.lapic_id) f ∙ q))
          | inr (k, h') ↦ v.skipped j d h' q
        ];
      }

  Step-skip :
      {first : ℕ} {s : System} (i : ℕ) (c : Core)
      → IsCounted first s
      → s.boot ≡ telling i
      → get_elem? s.cores i ≡ some c
      → c.info.lapic_id ≡ 0
      → IsCounted first (record s { boot = telling (suc i) })
  Step-skip {first} {s} i c v b g z =
      let r : reached s.boot (length s.cores) ≡ i = reached_eq s b in
      record {
        few = v.few;
        counted = v.counted;
        own = v.own;
        within = lt_of_get_elem? s.cores i c g;
        untold = λ j d h le. v.untold j d h (omega (arith, r));
        none_left = λ j d h l q. elim (ℕ_discrete i j) [
          | yes e ↦
              let same : c ≡ d = some-injective c d (sym g ∙ ap (get_elem? s.cores) e ∙ h) in
              absurd (q (sym (ap (λ (k : Core). k.info.lapic_id) same) ∙ z))
          | no n ↦ v.none_left j d h (omega (arith, r, n)) q
        ];
        skipped = v.skipped;
      }

  -- The first core goes on, with all told.
  Step-boot :
      {first : ℕ} {s : System} (b : Boot)
      → IsCounted first s
      → reached s.boot (length s.cores) ≡ length s.cores
      → reached b (length s.cores) ≡ length s.cores
      → IsCounted first (record s { boot = b })
  Step-boot {first} {s} b v r r' = record {
    few = v.few;
    counted = v.counted;
    own = v.own;
    within = omega (arith, r');
    untold = λ j d h le. v.untold j d h (omega (arith, r, r'));
    none_left = λ j d h l q. v.none_left j d h (omega (arith, r, r')) q;
    skipped = v.skipped;
  }

  unparked : {c c' : Core} {s t : Shared} → Worked c c' s t → c'.phase ≢ parked
  unparked w e = ground (arith, w.nearer)

  Step-work :
      {first : ℕ} {s : System} (i : ℕ) (c c' : Core) (t : Shared)
      → IsCounted first s
      → i ≢ first
      → get_elem? s.cores i ≡ some c
      → is_idle c.phase ≡ false
      → Worked c c' s.shared t
      → IsCounted first (record s { shared = t; cores = set s.cores i c' })
  Step-work {first} {s} i c c' t v ne g idle w =
      let len = length-set s.cores i c' in
      let r : reached s.boot (length (set s.cores i c')) ≡ reached s.boot (length s.cores) =
        ap (reached s.boot) len in
      record {
        few = omega (arith, v.few, len);
        counted = ground (
          arith,
          v.counted,
          v.few,
          w.counts,
          idle,
          total-set started s.cores i c c' g,
          total-le_length started started-le s.cores,
        );
        own = λ d h. elim (set_cases s.cores i first c' d h) [
          | inl (e, _) ↦ absurd (ne e)
          | inr (_, h') ↦ v.own d h'
        ];
        within = omega (arith, v.within, r, len);
        untold = λ j d h le. elim (set_cases s.cores i j c' d h) [
          | inl (e, _) ↦ absurd (ground (arith, idle, v.untold i c g (omega (arith, r))))
          | inr (_, h') ↦ v.untold j d h' (omega (arith, r))
        ];
        none_left = λ j d h l q pk. elim (set_cases s.cores i j c' d h) [
          | inl (_, f) ↦ unparked w (ap (λ (k : Core). k.phase) f ∙ pk)
          | inr (k, h') ↦ v.none_left j d h' (omega (arith, r)) q pk
        ];
        skipped = λ j d h q. elim (set_cases s.cores i j c' d h) [
          | inl (e, f) ↦ absurd (
              ground (
                arith,
                idle,
                v.skipped i c g (
                    sym (ap (λ (k : SmpInfo). k.lapic_id) w.info)
                    ∙ ap (λ (k : Core). k.info.lapic_id) f
                    ∙ q),
              ))
          | inr (k, h') ↦ v.skipped j d h' q
        ];
      }

  pub Step-Worked :
      (n : ℕ) {c c' : Core} {s t : Shared}
      → is_idle c.phase ≡ false
      → ap_step n c s ≡ done (c', t)
      → Worked c c' s t
  Step-Worked n {c} {c'} {s} {t} h e = ap_step-Worked n c.info c.phase c.local c.table s c' t h e

  pub Step-IsCounted :
      {n first : ℕ} {s t : System} → IsCounted first s → Step n first s t → IsCounted first t
  Step-IsCounted v (tell i c b g z) = Step-tell i c v b g z
  Step-IsCounted v (skip i c b g z) = Step-skip i c v b g z
  Step-IsCounted {s} v (all_told b) = Step-boot waiting v (reached_eq s b) refl
  Step-IsCounted {s} v (all_started b e) = Step-boot finished v (reached_eq s b) refl
  Step-IsCounted {n} v (work i c c' t ne g idle e) =
      Step-work i c c' t v ne g idle (Step-Worked n idle e)

  pub Steps-IsCounted :
      {n first : ℕ} {s t : System} → IsCounted first s → Steps n first s t → IsCounted first t
  Steps-IsCounted v stop = v
  Steps-IsCounted v (later r st) = Step-IsCounted (Steps-IsCounted v r) st
