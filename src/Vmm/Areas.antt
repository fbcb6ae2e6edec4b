-- ===== src/Vmm/Areas.antt =====
-- The addresses that areas cover, and what the operations on the maps do to them.
use silicium_rs.Base.{
  ◌∙◌, sym, subst, ℕ, ◌+◌, ◌%◌, ◌<◌, ◌≤◌, ◌≡◌, ◌≢◌, refl, ◌⊎◌, inl, inr, none, some, List, [], ◌∷◌,
  ◌==◌, ltb, leb, ◌&&◌, if◌then◌else◌, arith, dec_le, ℕ_discrete, Bool-cases, eq→==, ne→==,
}
use silicium_rs.Crates.Addresses.{Virtual}
use silicium_rs.Vmm.{
  VirtualArea, FreeMap, UsedMap, vmalloc_start, vmalloc_end, push_free, first_fit, insert_used,
  remove_used,
}

-- 1 if the address is in the area, and 0 otherwise.
abbrev pub inside : VirtualArea → Virtual → ℕ
inside v a = if leb v.range.start a && ltb a v.range.end then 1 else 0

-- The number of areas that an address is in.
abbrev pub count_areas : List VirtualArea → Virtual → ℕ
count_areas [] a = 0
count_areas (v ∷ vs) a = inside v a + count_areas vs a

abbrev pub count_free : FreeMap → Virtual → ℕ
count_free [] a = 0
count_free ((k, vs) ∷ m) a = count_areas vs a + count_free m a

abbrev pub count_used : UsedMap → Virtual → ℕ
count_used [] a = 0
count_used ((b, v) ∷ m) a = inside v a + count_used m a

-- Whole pages of the vmalloc space, at least one.
pub record IsArea (v : VirtualArea) : Type 0 where
  pub start_aligned : v.range.start % 4096 ≡ 0
  pub end_aligned : v.range.end % 4096 ≡ 0
  pub nonempty : v.range.start < v.range.end
  pub from : vmalloc_start ≤ v.range.start
  pub up_to : v.range.end ≤ vmalloc_end

-- An area of the given size.
abbrev pub IsSized : ℕ → VirtualArea → Type 0
IsSized k v = IsArea v × (v.range.end ≡ v.range.start + k)

abbrev pub AllSized : ℕ → List VirtualArea → Type 0
AllSized k [] = Unit {0}
AllSized k (v ∷ vs) = IsSized k v × AllSized k vs

-- The free areas stand under their sizes.
abbrev pub IsFreeMap : FreeMap → Type 0
IsFreeMap [] = Unit {0}
IsFreeMap ((k, vs) ∷ m) = AllSized k vs × IsFreeMap m

-- The used areas stand under their starts.
abbrev pub IsUsedMap : UsedMap → Type 0
IsUsedMap [] = Unit {0}
IsUsedMap ((b, v) ∷ m) = (IsArea v × (v.range.start ≡ b)) × IsUsedMap m

pub count-push_free :
    (k : ℕ) (v : VirtualArea) (m : FreeMap) (a : Virtual)
    → count_free (push_free k v m) a ≡ count_free m a + inside v a
unfolding push_free
count-push_free k v [] a = omega arith
count-push_free k v ((l, vs) ∷ m) a = ground (arith, count-push_free k v m a)

pub push_free-IsFreeMap :
    (k : ℕ) (v : VirtualArea) (m : FreeMap)
    → IsSized k v
    → IsFreeMap m
    → IsFreeMap (push_free k v m)
unfolding push_free
push_free-IsFreeMap k v [] h w = ((h, tt), tt)
push_free-IsFreeMap k v ((l, vs) ∷ m) h w = elim (Bool-cases (k == l)) [
  | inl p ↦ rw p ((subst (λ (i : ℕ). IsSized i v) (ground arith) h, w.0), w.1)
  | inr p ↦ elim (Bool-cases (ltb k l)) [
    | inl q ↦ rw (p, q) ((h, tt), (w.0, w.1))
    | inr q ↦ rw (p, q) (w.0, push_free-IsFreeMap k v m h w.1)
  ]
]

-- No free area has the size.
abbrev pub NoFit : ℕ → FreeMap → Type 0
NoFit size [] = Unit {0}
NoFit size ((k, []) ∷ m) = NoFit size m
NoFit size ((k, v ∷ vs) ∷ m) = (k < size) × NoFit size m

-- The area is one of the free ones, and the others are left.
pub record Popped (size : ℕ) (m : FreeMap) (v : VirtualArea) (m' : FreeMap) : Type 0 where
  pub length : ℕ
  pub fits : size ≤ length
  pub sized : IsSized length v
  pub left : IsFreeMap m'
  pub count : (a : Virtual) → count_free m a ≡ count_free m' a + inside v a

pub first_fit_cases :
    (size : ℕ) (m : FreeMap)
    → IsFreeMap m
    → ((first_fit size m ≡ none) × NoFit size m)
      ⊎ ((v : VirtualArea) × (m' : FreeMap) × (first_fit size m ≡ some (v, m'))
          × Popped size m v m')
unfolding first_fit
first_fit_cases size [] w = inl (refl, tt)
first_fit_cases size ((k, []) ∷ m) w = elim (first_fit_cases size m w.1) [
  | inl (e, n) ↦ inl (rw e refl, n)
  | inr (v, m', e, p) ↦ inr (
    v,
    (k, []) ∷ m',
    rw e refl,
    record {
      length = p.length;
      fits = p.fits;
      sized = p.sized;
      left = (tt, p.left);
      count = λ a. omega (arith, p.count a);
    },
  )
]
first_fit_cases size ((k, v ∷ vs) ∷ m) w = elim (dec_le size k) [
  | yes h ↦ inr (
    v,
    (k, vs) ∷ m,
    ground arith,
    record { length = k; fits = h; sized = w.0.0; left = (w.0.1, w.1); count = λ a. omega arith },
  )
  | no h ↦ elim (first_fit_cases size m w.1) [
    | inl (e, n) ↦ inl (ground (arith, e), (omega arith, n))
    | inr (u, m', e, p) ↦ inr (
      u,
      (k, v ∷ vs) ∷ m',
      ground (arith, e),
      record {
        length = p.length;
        fits = p.fits;
        sized = p.sized;
        left = (w.0, p.left);
        count = λ a. omega (arith, p.count a);
      },
    )
  ]
]

-- The key is not in use.
abbrev pub Absent : Virtual → UsedMap → Type 0
Absent a [] = Unit {0}
Absent a ((b, v) ∷ m) = (a ≢ b) × Absent a m

-- An area that starts at a key covers it.
pub count_used-Absent : (a : Virtual) (m : UsedMap) → IsUsedMap m → count_used m a ≡ 0 → Absent a m
count_used-Absent a [] w h = tt
count_used-Absent a ((b, v) ∷ m) w h =
    let i = w.0.0 in
    (λ e. ground (arith, i.nonempty, w.0.1), count_used-Absent a m w.1 (ground arith))

pub count-insert_used :
    (b : Virtual) (v : VirtualArea) (m : UsedMap) (a : Virtual)
    → Absent b m
    → count_used (insert_used b v m) a ≡ count_used m a + inside v a
unfolding insert_used
count-insert_used b v [] a h = omega arith
count-insert_used b v ((c, w) ∷ m) a h =
    ground (arith, count-insert_used b v m a h.1, ne→== b c h.0)

pub insert_used-IsUsedMap :
    (v : VirtualArea) (m : UsedMap)
    → IsArea v
    → IsUsedMap m
    → IsUsedMap (insert_used v.range.start v m)
unfolding insert_used
insert_used-IsUsedMap v [] h w = ((h, refl), tt)
insert_used-IsUsedMap v ((c, u) ∷ m) h w = elim (Bool-cases (v.range.start == c)) [
  | inl p ↦ rw p ((h, refl), w.1)
  | inr p ↦ elim (Bool-cases (ltb v.range.start c)) [
    | inl q ↦ rw (p, q) ((h, refl), w)
    | inr q ↦ rw (p, q) (w.0, insert_used-IsUsedMap v m h w.1)
  ]
]

-- The area with the key, and the others.
pub record Removed (b : Virtual) (m : UsedMap) (v : VirtualArea) (m' : UsedMap) : Type 0 where
  pub area : IsArea v
  pub start : v.range.start ≡ b
  pub left : IsUsedMap m'
  pub count : (a : Virtual) → count_used m a ≡ count_used m' a + inside v a

pub remove_used_cases :
    (b : Virtual) (m : UsedMap)
    → IsUsedMap m
    → ((remove_used b m ≡ none) × Absent b m)
      ⊎ ((v : VirtualArea) × (m' : UsedMap) × (remove_used b m ≡ some (v, m')) × Removed b m v m')
unfolding remove_used
remove_used_cases b [] w = inl (refl, tt)
remove_used_cases b ((c, u) ∷ m) w = elim (ℕ_discrete b c) [
  | yes e ↦ inr (
    u,
    m,
    rw (eq→== b c e) refl,
    record { area = w.0.0; start = w.0.1 ∙ sym e; left = w.1; count = λ a. omega arith },
  )
  | no n ↦ elim (remove_used_cases b m w.1) [
    | inl (e, h) ↦ inl (rw (ne→== b c n, e) refl, (n, h))
    | inr (v, m', e, r) ↦ inr (
      v,
      (c, u) ∷ m',
      rw (ne→== b c n, e) refl,
      record {
        area = r.area;
        start = r.start;
        left = (w.0, r.left);
        count = λ a. omega (arith, r.count a);
      },
    )
  ]
]

-- A removal takes an insertion back.
pub remove_used-insert_used :
    (b : Virtual) (v : VirtualArea) (m : UsedMap)
    → Absent b m
    → remove_used b (insert_used b v m) ≡ some (v, m)
unfolding remove_used insert_used
remove_used-insert_used b v [] h = rw (eq→== b b refl) refl
remove_used-insert_used b v ((c, u) ∷ m) h = elim (Bool-cases (ltb b c)) [
  | inl q ↦ rw (ne→== b c h.0, q, eq→== b b refl) refl
  | inr q ↦ rw (ne→== b c h.0, q, ne→== b c h.0, remove_used-insert_used b v m h.1) refl
]
