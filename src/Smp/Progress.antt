-- ===== src/Smp/Progress.antt =====
-- Each step of the start brings its end nearer, and one is possible until the end.
use silicium_rs.Base.{
  ℕ, ◌+◌, ◌-◌, ◌<◌, ◌≡◌, ◌≢◌, ◌∙◌, sym, ◌⊎◌, inl, inr, refl, ap, arith, false, some, Outcome, done,
  panicked, Panic, length, get_elem?, get_elem?_of_lt, length-set, lt_of_get_elem?, ℕ_discrete,
  dec_lt,
}
use silicium_rs.Crates.Addresses.{Addresses}
use silicium_rs.Crates.BitFlags.{BitFlags}
use silicium_rs.Crates.PageTables.{PageTables}
use silicium_rs.Crates.VirtualRanges.{VirtualRanges}
use silicium_rs.Crates.SegmentTables.{SegmentTables}
use silicium_rs.Smp.Local.{gdt_entries}
use silicium_rs.Smp.Totals.{total, total-set, total-other, total-lt}
use silicium_rs.Smp.System.{
  parked, told, Core, Boot, telling, waiting, finished, Shared, ap_step, System, is_idle, Step,
  tell, skip, all_told, all_started, work,
}
use silicium_rs.Smp.Counted.{started, started-le, steps_left, reached_eq, Step-Worked, IsCounted}

abbrev pub boot_left : Boot → ℕ → ℕ
boot_left (telling i) n = 2 + (n - i)
boot_left waiting n = 1
boot_left finished n = 0

abbrev pub core_left : Core → ℕ
core_left c = steps_left c.phase

module _ ⦃x : Addresses⦄ ⦃bits : BitFlags⦄ ⦃pt : PageTables⦄ ⦃ranges : VirtualRanges⦄
    ⦃gdt : SegmentTables gdt_entries⦄ where
  -- A bound on the steps that are left.
  abbrev pub all_left : System → ℕ
  all_left s = total core_left s.cores + boot_left s.boot (length s.cores)

  boot_left_eq :
      (s : System) {b : Boot}
      → s.boot ≡ b
      → boot_left s.boot (length s.cores) ≡ boot_left b (length s.cores)
  boot_left_eq s e = ap (λ b. boot_left b (length s.cores)) e

  pub Step-less :
      {n first : ℕ} {s t : System} → IsCounted first s → Step n first s t → all_left t < all_left s
  Step-less {n} {first} {s} v (tell i c b g z) =
      let pk : c.phase ≡ parked = v.untold i c g (omega (arith, reached_eq s b)) in
      let c' : Core = record c { phase = told } in
      omega (
        arith,
        total-set core_left s.cores i c c' g,
        ap steps_left pk,
        boot_left_eq s b,
        lt_of_get_elem? s.cores i c g,
        length-set s.cores i c',
      )
  Step-less {n} {first} {s} v (skip i c b g z) =
      omega (arith, boot_left_eq s b, lt_of_get_elem? s.cores i c g)
  Step-less {n} {first} {s} v (all_told b) = omega (arith, boot_left_eq s b)
  Step-less {n} {first} {s} v (all_started b e) = omega (arith, boot_left_eq s b)
  Step-less {n} {first} {s} v (work i c c' t ne g idle e) =
      let same = ap (λ (m : ℕ). boot_left s.boot m) (length-set s.cores i c') in
      omega (arith, total-set core_left s.cores i c c' g, (Step-Worked n idle e).nearer, same)

  -- A core whose next step is a panic.
  abbrev pub Panics : ℕ → ℕ → System → Type 0
  Panics n first s =
      (i : ℕ) × (c : Core) × (p : Panic) × (i ≢ first)
      × (get_elem? s.cores i ≡ some c)
      × (ap_step n c s.shared ≡ panicked p)

  ap_step_cases :
      (n : ℕ) (c : Core) (s : Shared)
      → ((c' : Core) × (t : Shared) × (ap_step n c s ≡ done (c', t)))
        ⊎ ((p : Panic) × (ap_step n c s ≡ panicked p))
  ap_step_cases n c s = outcome (ap_step n c s) refl
    where
      outcome :
          (o : Outcome (Core × Shared))
          → ap_step n c s ≡ o
          → ((c' : Core) × (t : Shared) × (ap_step n c s ≡ done (c', t)))
            ⊎ ((p : Panic) × (ap_step n c s ≡ panicked p))
      outcome (done (c', t)) e = inl (c', t, e)
      outcome (panicked p) e = inr (p, e)

  busy : (c : Core) → c.phase ≢ parked → started c ≡ 0 → is_idle c.phase ≡ false
  busy c p z = ground arith

  pub progress_of :
      (n first : ℕ) (s : System) (b : Boot)
      → IsCounted first s
      → s.boot ≡ b
      → first < length s.cores
      → ((j : ℕ) (c : Core) → get_elem? s.cores j ≡ some c → j ≢ first → c.info.lapic_id ≢ 0)
      → (s.boot ≡ finished) ⊎ ((t : System) × Step n first s t) ⊎ Panics n first s
  progress_of n first s finished v e f h = inl e
  progress_of n first s (telling i) v e f h = elim (dec_lt i (length s.cores)) [
    | yes lt ↦
        let (c, g) = get_elem?_of_lt s.cores i lt in
        elim (ℕ_discrete c.info.lapic_id 0) [
          | yes z ↦ inr (inl (_, skip i c e g z))
          | no z ↦ inr (inl (_, tell i c e g z))
        ]
    | no ge ↦
        let whole : i ≡ length s.cores = omega (arith, v.within, reached_eq s e) in
        inr (inl (_, all_told (e ∙ ap telling whole)))
  ]
  progress_of n first s waiting v e f h = elim (ℕ_discrete s.shared.count (length s.cores)) [
    | yes c ↦ inr (inl (_, all_started e c))
    | no ne ↦
        let (own, og) = get_elem?_of_lt s.cores first f in
        let few = total-lt started started-le s.cores first own og (v.own own og) in
        let (j, c, g, nj, z) =
          total-other started started-le s.cores first (omega (arith, v.counted, few)) in
        let unparked =
          v.none_left j c g (omega (arith, reached_eq s e, lt_of_get_elem? s.cores j c g))
            (h j c g (λ q. nj (sym q))) in
        elim (ap_step_cases n c s.shared) [
          | inl (c', t, a) ↦ inr (inl (_, work j c c' t (λ q. nj (sym q)) g (busy c unparked z) a))
          | inr (p, a) ↦ inr (inr (j, c, p, (λ q. nj (sym q)), g, a))
        ]
  ]
