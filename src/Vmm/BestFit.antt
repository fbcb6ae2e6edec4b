-- ===== src/Vmm/BestFit.antt =====
-- `first_fit` on a map in the order of its keys: the smallest area that is large enough.
use silicium_rs.Base.{
  ap, subst, ℕ, ◌+◌, ◌<◌, ◌≤◌, ◌≡◌, ◌⊎◌, inl, inr, some, [], ◌∷◌, ltb, leb, ◌==◌, arith,
  Option-cases, Bool-cases,
}
use mathlib.Core.Option.{some-injective}
use silicium_rs.Vmm.{VirtualArea, FreeMap, push_free, first_fit}
use silicium_rs.Vmm.Areas.{IsFreeMap}

abbrev pub AllAbove : ℕ → FreeMap → Type 0
AllAbove k [] = Unit {0}
AllAbove k ((l, vs) ∷ m) = (k < l) × AllAbove k m

-- The keys ascend.
abbrev pub IsSorted : FreeMap → Type 0
IsSorted [] = Unit {0}
IsSorted ((k, vs) ∷ m) = AllAbove k m × IsSorted m

-- Every area under a key is too small, or at least of the length `n`.
abbrev pub Least : ℕ → ℕ → FreeMap → Type 0
Least size n [] = Unit {0}
Least size n ((k, []) ∷ m) = Least size n m
Least size n ((k, v ∷ vs) ∷ m) = ((k < size) ⊎ (n ≤ k)) × Least size n m

Least-AllAbove : (size k n : ℕ) (m : FreeMap) → n ≤ k → AllAbove k m → Least size n m
Least-AllAbove size k n [] h a = tt
Least-AllAbove size k n ((l, []) ∷ m) h a = Least-AllAbove size k n m h a.1
Least-AllAbove size k n ((l, v ∷ vs) ∷ m) h a =
    (inr (omega (arith, a.0)), Least-AllAbove size k n m h a.1)

AllAbove-push_free :
    (k l : ℕ) (v : VirtualArea) (m : FreeMap) → k < l → AllAbove k m → AllAbove k (push_free l v m)
unfolding push_free
AllAbove-push_free k l v [] h a = (h, tt)
AllAbove-push_free k l v ((i, vs) ∷ m) h a = elim (Bool-cases (l == i)) [
  | inl p ↦ rw p (a.0, a.1)
  | inr p ↦ elim (Bool-cases (ltb l i)) [
    | inl q ↦ rw (p, q) (h, (a.0, a.1))
    | inr q ↦ rw (p, q) (a.0, AllAbove-push_free k l v m h a.1)
  ]
]

AllAbove-le : (k l : ℕ) (m : FreeMap) → l < k → AllAbove k m → AllAbove l m
AllAbove-le k l [] h a = tt
AllAbove-le k l ((i, vs) ∷ m) h a = (omega (arith, a.0), AllAbove-le k l m h a.1)

-- The keys still ascend after an insertion.
pub push_free-IsSorted :
    (l : ℕ) (v : VirtualArea) (m : FreeMap) → IsSorted m → IsSorted (push_free l v m)
unfolding push_free
push_free-IsSorted l v [] s = (tt, tt)
push_free-IsSorted l v ((i, vs) ∷ m) s = elim (Bool-cases (l == i)) [
  | inl p ↦ rw p s
  | inr p ↦ elim (Bool-cases (ltb l i)) [
    | inl q ↦ let lt : l < i = ground arith in rw (p, q) ((lt, AllAbove-le i l m lt s.0), s)
    | inr q ↦
        let lt : i < l = ground arith in
        rw (p, q) (AllAbove-push_free i l v m lt s.0, push_free-IsSorted l v m s.1)
  ]
]

-- On a map whose keys ascend and are the sizes of the areas below them, the area that `first_fit`
-- takes is large enough, and every other free area is too small or at least as large.
pub first_fit-Least :
    (size : ℕ) (m m' : FreeMap) (v : VirtualArea)
    → IsFreeMap m
    → IsSorted m
    → first_fit size m ≡ some (v, m')
    → (n : ℕ) × (v.range.end ≡ v.range.start + n) × (size ≤ n) × Least size n m
unfolding first_fit
first_fit-Least size [] m' v w s e = cc
first_fit-Least size ((k, []) ∷ m) m' v w s e = elim (Option-cases (first_fit size m)) [
  | inl q ↦ absurd (ground (arith, e, q))
  | inr (r, q) ↦
      let taken = ap (λ z. z.0) (some-injective _ _ (rw q at e)) in
      let (n, sz, fits, least) = first_fit-Least size m r.1 r.0 w.1 s.1 q in
      (n, subst (λ (u : VirtualArea). u.range.end ≡ u.range.start + n) taken sz, fits, least)
]
first_fit-Least size ((k, u ∷ vs) ∷ m) m' v w s e = elim (Bool-cases (leb size k)) [
  | inl p ↦
      let taken = ap (λ z. z.0) (some-injective _ _ (rw p at e)) in
      (
        k,
        subst (λ (a : VirtualArea). a.range.end ≡ a.range.start + k) taken w.0.0.1,
        ground arith,
        (inr (omega arith), Least-AllAbove size k k m (omega arith) s.0),
      )
  | inr p ↦ elim (Option-cases (first_fit size m)) [
    | inl q ↦ absurd (ground (arith, e, p, q))
    | inr (r, q) ↦
        let taken = ap (λ z. z.0) (some-injective _ _ (rw (p, q) at e)) in
        let (n, sz, fits, least) = first_fit-Least size m r.1 r.0 w.1 s.1 q in
        (
          n,
          subst (λ (a : VirtualArea). a.range.end ≡ a.range.start + n) taken sz,
          fits,
          (inl (ground arith), least),
        )
  ]
]
