-- ===== src/Frame/Ranges.antt =====
-- `Range` of src/mm/frame/mod.rs and its iterator.
pub mod Laws
use silicium_rs.Base.{
  ℕ, zero, suc, ◌/◌, Bool, ◌&&◌, Option, none, some, List, [], ◌∷◌, ltb, leb, if◌then◌else◌,
  Outcome, done, panicked, ◌>>=◌, out_of_fuel, sub64,
}
use silicium_rs.Crates.Addresses.{Addresses, Physical}
use silicium_rs.Frame.{Frame, Range, add_assign}

-- `Frame::range` and `Range::new`.
abbrev pub range : Frame → Frame → Range
range start end = record { start = start; end = end }

unfoldable pub contains_address : Range → Physical → Bool
contains_address r address = leb r.start.start address && ltb address r.end.start

unfoldable pub contains : Range → Frame → Bool
contains r f = leb r.start.start f.start && ltb f.start r.end.start

-- `count`, and `len`, which calls it.
unfoldable pub count : Range → ℕ
count r = sub64 r.end.start r.start.start / 4096

unfoldable pub is_empty : Range → Bool
is_empty r = leb r.end.start r.start.start

module _ ⦃x : Addresses⦄ where
  -- The item and the range that is left.
  unfoldable pub next : Range → Outcome (Option Frame × Range)
  next r =
      if is_empty r
      then done (none, r)
      else do after ← add_assign r.start 1; done (some r.start, record r { start = after })

  -- A `for` loop over the range: the items that `next` yields, until it yields none.
  unfoldable pub collect : ℕ → Range → Outcome (List Frame)
  collect zero r = panicked out_of_fuel
  collect (suc fuel) r = do
    (item, rest) ← next r
    elim item [ none ↦ done [] | some f ↦ do fs ← collect fuel rest; done (f ∷ fs) ]
