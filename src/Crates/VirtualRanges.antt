-- ===== src/Crates/VirtualRanges.antt =====
-- The type `VirtualRange` of the x86_64 crate: the addresses from a start up to an end, which is not
-- in the range.
use silicium_rs.Base.{ℕ, zero, suc, ◌+◌, ◌-◌, ◌*◌, ◌≤◌, ◌≡◌, Bool, ◌&&◌, List, [], ◌∷◌, leb, ltb}
use silicium_rs.Crates.Addresses.{Virtual}

pub record VirtualRange : Type 0 where
  pub start : Virtual
  pub end : Virtual

-- `n` pages one after another.
abbrev pub pages_from : Virtual → ℕ → List Virtual
pages_from a zero = []
pages_from a (suc n) = a ∷ pages_from (a + 4096) n

pub record VirtualRanges : Type 0 where
  pub size : VirtualRange → ℕ
  pub contains : VirtualRange → Virtual → Bool
  -- `iter().step_by(PAGE_SIZE)`
  pub pages : VirtualRange → List Virtual
  pub size_lem : (r : VirtualRange) → r.start ≤ r.end → size r ≡ r.end - r.start
  pub contains_lem :
      (r : VirtualRange) (a : Virtual) → contains r a ≡ (leb r.start a && ltb a r.end)
  pub pages_lem :
      (r : VirtualRange) (n : ℕ) → r.end ≡ r.start + n * 4096 → pages r ≡ pages_from r.start n
