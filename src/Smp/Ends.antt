-- ===== src/Smp/Ends.antt =====
-- Every run of the start ends: in the return of `start_cpus`, or in a panic.
use silicium_rs.Base.{
  ℕ, zero, suc, ◌+◌, ◌*◌, ◌≤◌, ◌≡◌, sym, subst, ◌⊎◌, inl, inr, refl, arith, List, done, length,
}
use silicium_rs.Crates.Addresses.{Addresses}
use silicium_rs.Crates.BitFlags.{BitFlags}
use silicium_rs.Crates.PageTables.{PageTables}
use silicium_rs.Crates.VirtualRanges.{VirtualRanges}
use silicium_rs.Crates.SegmentTables.{SegmentTables}
use silicium_rs.Smp.Local.{gdt_entries}
use silicium_rs.Smp.Totals.{total-le_nine}
use silicium_rs.Smp.System.{Core, finished, Shared, System, begin, Steps, stop, later}
use silicium_rs.Smp.Progress.{all_left, Step-less, Panics, progress_of}
use silicium_rs.Smp.Progress.{core_left}
use silicium_rs.Smp.Start.{
  IsParked, OthersNumbered, Step-OthersNumbered, before, count_steps, Going, Step-Going,
  Steps-Going, Steps-OthersNumbered, begin-Going, begin_eq,
}

module _ ⦃x : Addresses⦄ ⦃bits : BitFlags⦄ ⦃pt : PageTables⦄ ⦃ranges : VirtualRanges⦄
    ⦃gdt : SegmentTables gdt_entries⦄ where
  Steps_bounded :
      {n first : ℕ} {s t : System}
      → Going first s
      → (r : Steps n first s t) → count_steps r + all_left t ≤ all_left s
  unfolding count_steps
  Steps_bounded v stop = omega arith
  Steps_bounded v (later r st) =
      omega (arith, Steps_bounded v r, Step-less (Steps-Going v r).counted st)

  ends_within :
      (fuel n first : ℕ) (s : System)
      → all_left s ≤ fuel
      → Going first s
      → OthersNumbered first s.cores
      → (t : System) × Steps n first s t × ((t.boot ≡ finished) ⊎ Panics n first t)
  ends_within zero n first s le v o =
      elim (progress_of n first s s.boot v.counted refl v.inside o) [
        | inl e ↦ (s, stop, inl e)
        | inr (inr p) ↦ (s, stop, inr p)
        | inr (inl (t, st)) ↦ absurd (omega (arith, Step-less v.counted st))
      ]
  ends_within (suc fuel) n first s le v o =
      elim (progress_of n first s s.boot v.counted refl v.inside o) [
        | inl e ↦ (s, stop, inl e)
        | inr (inr p) ↦ (s, stop, inr p)
        | inr (inl (t, st)) ↦
            let (u, r, e) =
              ends_within fuel n first t (omega (arith, Step-less v.counted st)) (Step-Going v st)
                (Step-OthersNumbered o st) in
            (u, before st r, e)
      ]

  core_left-le : (c : Core) → core_left c ≤ 9
  core_left-le c = ground arith

  -- From cores that are parked, with only the first one counted, and where every other core's local
  -- APIC has another number than 0: no run takes more than 10 steps for each core and 2 more,
  -- whatever the order, and every run that has not ended goes on to its end, at which `start_cpus`
  -- returns, or to a core whose next step is a panic.
  pub start_cpus_ends :
      {n first : ℕ} {cores : List Core} {s : Shared} {t u : System}
      → IsParked first cores s
      → begin cores s ≡ done t
      → OthersNumbered first cores
      → (r : Steps n first t u)
      → (count_steps r ≤ 10 * length cores + 2)
        × ((w : System) × Steps n first u w × ((w.boot ≡ finished) ⊎ Panics n first w))
  start_cpus_ends {n} {first} {cores} {s} {t} {u} p e o r =
      let g = begin-Going p e in
      let q = (begin_eq cores s t e).1 in
      let o' = subst (λ (k : System). OthersNumbered first k.cores) (sym q) o in
      let left : all_left t ≤ 10 * length cores + 2 =
        subst (λ k. all_left k ≤ 10 * length cores + 2) (sym q)
          (omega (arith, total-le_nine core_left core_left-le cores)) in
      (
        omega (arith, Steps_bounded g r, left),
        ends_within (all_left u) n first u (omega arith) (Steps-Going g r)
            (Steps-OthersNumbered o' r),
      )
