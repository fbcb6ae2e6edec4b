-- ===== src/Frame/Ranges/Laws.antt =====
-- The iterator of a range against the list of its frames.
use silicium_rs.Base.{
  ℕ, sym, zero, suc, ◌+◌, ◌-◌, ◌*◌, ◌/◌, ◌%◌, ◌≤◌, ◌<◌, ◌≡◌, List, [], ◌∷◌, done, arith, mul64,
  sub64, none, some,
}
use silicium_rs.Crates.Addresses.{Addresses}
use silicium_rs.Frame.{Frame, frame, Range, add_assign}
use silicium_rs.Frame.Ranges.{count, is_empty, next, collect}

-- `n` frames one after another, the first at the address `a`.
pub frames_from : ℕ → ℕ → List Frame
frames_from a zero = []
frames_from a (suc n) = frame a ∷ frames_from (a + 4096) n

pub record IsRange (r : Range) : Type 0 where
  pub start_aligned : r.start.start % 4096 ≡ 0
  pub end_aligned : r.end.start % 4096 ≡ 0
  pub ordered : r.start.start ≤ r.end.start
  pub valid : r.end.start < 0x10000000000000

count-eq : (r : Range) → IsRange r → count r ≡ (r.end.start - r.start.start) / 4096
unfolding count sub64
count-eq r v = omega arith

module _ ⦃x : Addresses⦄ where
  pub next_lem :
      (r : Range)
      → IsRange r
      → r.start.start < r.end.start
      → next r ≡ done (some r.start, record r { start = frame (r.start.start + 4096) })
  unfolding next is_empty add_assign mul64
  next_lem r v h = ground (arith, x.physical_add-valid r.start.start 4096)

  pub next_at_end : (r : Range) → r.end.start ≤ r.start.start → next r ≡ done (none, r)
  unfolding next is_empty
  next_at_end r h = ground arith

  collect_lem :
      (n fuel : ℕ) (r : Range)
      → IsRange r
      → r.end.start ≡ r.start.start + n * 4096
      → n < fuel
      → collect fuel r ≡ done (frames_from r.start.start n)
  unfolding collect frames_from
  collect_lem n zero r v e h = absurd (omega arith)
  collect_lem zero (suc fuel) r v e h = rw (next_at_end r (omega arith))
  collect_lem (suc n) (suc fuel) r v e h =
      let rest : Range = record r { start = frame (r.start.start + 4096) } in
      let ih = collect_lem n fuel rest (omega (arith, v)) (omega arith) (omega arith) in
      rw (next_lem r v (omega arith), ih)

  -- The iterator of a range of aligned frames, its start not after its end and its end below 2^52,
  -- yields as many frames as `count` says, one after another from the start of the range, and then
  -- stops: with more rounds than frames the loop over the range ends with that list.
  pub collect-frames_from :
      (r : Range) (fuel : ℕ)
      → IsRange r
      → count r < fuel
      → (collect fuel r ≡ done (frames_from r.start.start (count r)))
        × (r.start.start + count r * 4096 ≡ r.end.start)
  collect-frames_from r fuel v h =
      let e : r.start.start + count r * 4096 ≡ r.end.start = omega (arith, count-eq r v) in
      (collect_lem (count r) fuel r v (sym e) h, e)
