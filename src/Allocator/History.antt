-- ===== src/Allocator/History.antt =====
-- Sequences of calls, seen as the number of users of each frame.
use mathlib.Core.Option.{some-injective}
use mathlib.Core.Path.{fun_ext}
use silicium_rs.Base.{
  subst, ap, ℕ, ◌+◌, ◌-◌, ◌*◌, ◌/◌, ◌<◌, ◌≡◌, ◌∙◌, refl, ◌≢◌, Option, none, some, List, [], ◌∷◌,
  arith, get_elem?, set, ◌==◌, if◌then◌else◌, done, ◌>>=◌, Outcome, inl, inr, lt_of_get_elem?,
  get_elem?-set_self, get_elem?-set_ne, done_unique, >>=-eq-done,
}
use silicium_rs.Crates.Addresses.{Addresses}
use silicium_rs.Crates.BitFlags.{BitFlags}
use silicium_rs.Frame.{Frame, frame}
use silicium_rs.FrameState.{FrameInfo}
use silicium_rs.Allocator.{Frames, allocate, reference, deallocate}
use silicium_rs.Allocator.Invariant.{IsWf}
use silicium_rs.Allocator.Allocate.{allocate_cases, allocate-IsWf}
use silicium_rs.Allocator.Release.{
  reference_cases, reference-IsWf, deallocate_cases, deallocate-IsWf,
}

-- The specification's state: how many users each frame has.
abbrev pub Users : Type 0
Users = ℕ → ℕ

abbrev users_in : List FrameInfo → Users
users_in xs i = elim (get_elem? xs i) [ none ↦ 0 | some info ↦ info.count ]

abbrev pub users : Frames → Users
users s = users_in s.array

abbrev pub update : Users → ℕ → ℕ → Users
update u i n j = if i == j then n else u j

pub data Call : Type 0 where
  allocates : ℕ → Call
  references deallocates : Frame → Call

-- What a call may do to the users, and what it returns.
pub data Step (u : Users) : Call → Option Frame → Users → Type 0 where
  refused : (flags : ℕ) → Step u (allocates flags) none u
  granted :
      (flags i : ℕ) {v : Users}
      → u i ≡ 0
      → v ≡ update u i 1
      → Step u (allocates flags) (some (frame (i * 4096))) v
  shared :
      (f : Frame) {v : Users}
      → 0 < u (f.start / 4096)
      → v ≡ update u (f.start / 4096) (u (f.start / 4096) + 1)
      → Step u (references f) none v
  dropped :
      (f : Frame) {v : Users}
      → 0 < u (f.start / 4096)
      → v ≡ update u (f.start / 4096) (u (f.start / 4096) - 1)
      → Step u (deallocates f) none v

users-get :
    (s : Frames) (i : ℕ) (info : FrameInfo)
    → get_elem? s.array i ≡ some info
    → users s i ≡ info.count
users-get s i info h = ground arith

users_in-set :
    (xs : List FrameInfo) (i : ℕ) (before after : FrameInfo)
    → get_elem? xs i ≡ some before
    → (j : ℕ) → users_in (set xs i after) j ≡ update (users_in xs) i after.count j
users_in-set xs i before after found j = ground (
  arith,
  get_elem?-set_self xs i after (lt_of_get_elem? xs i before found),
  get_elem?-set_ne xs i j after,
)

users-set :
    (s s' : Frames) (i n : ℕ) (before after : FrameInfo)
    → get_elem? s.array i ≡ some before
    → s'.array ≡ set s.array i after
    → after.count ≡ n
    → users s' ≡ update (users s) i n
users-set s s' i n before after found array count =
    ap users_in array
    ∙ fun_ext (users_in-set s.array i before after found)
    ∙ ap (update (users s) i) count

module _ ⦃x : Addresses⦄ ⦃bits : BitFlags⦄ where
  unfoldable pub step : Call → Frames → Outcome (Option Frame × Frames)
  step (allocates flags) s = allocate flags s
  step (references f) s = do s' ← reference f s; done (none, s')
  step (deallocates f) s = do s' ← deallocate f s; done (none, s')

  unfoldable pub run : List Call → Frames → Outcome (List (Option Frame) × Frames)
  run [] s = done ([], s)
  run (c ∷ cs) s = do (r, s') ← step c s; (rs, t) ← run cs s'; done (r ∷ rs, t)

  reference-Step :
      (f : Frame) (s s' : Frames)
      → reference f s ≡ done s'
      → Step (users s) (references f) none (users s')
  reference-Step f s s' e = elim (reference_cases f s) [
    | inl (q, _) ↦ cc
    | inr (info, g, inl (q, _)) ↦ cc
    | inr (info, g, inr (inl (q, _))) ↦ cc
    | inr (info, g, inr (inr (p, o, q))) ↦
        let i = f.start / 4096 in
        let t : Frames = record s {
          array = set s.array i (record info { count = info.count + 1 });
        } in
        subst (λ t. Step (users s) (references f) none (users t)) (done_unique q e)
          (shared f (omega (arith, users-get s i info g))
            (users-set s t i (users s i + 1) info _ g refl (omega (arith, users-get s i info g))))
  ]

  deallocate-Step :
      (f : Frame) (s s' : Frames)
      → deallocate f s ≡ done s'
      → Step (users s) (deallocates f) none (users s')
  deallocate-Step f s s' e = elim (deallocate_cases f s) [
    | inl (q, _) ↦ cc
    | inr (info, g, inl (q, _)) ↦ cc
    | inr (info, g, inr (inl (p, q))) ↦
        let i = f.start / 4096 in
        let t : Frames = record s {
          array = set s.array i (record info { count = info.count - 1 });
        } in
        subst (λ t. Step (users s) (deallocates f) none (users t)) (done_unique q e)
          (dropped f (omega (arith, users-get s i info g))
            (users-set s t i (users s i - 1) info _ g refl (omega (arith, users-get s i info g))))
    | inr (info, g, inr (inr (p, (t, q, b)))) ↦
        let i = f.start / 4096 in
        subst (λ t. Step (users s) (deallocates f) none (users t)) (done_unique q e)
          (dropped f (omega (arith, users-get s i info g)) (
            users-set s t i (users s i - 1) info b.after g b.array
              (omega (arith, b.count, users-get s i info g))))
  ]

  allocate-Step :
      (pinned flags : ℕ) (s s' : Frames) (r : Option Frame)
      → IsWf pinned s
      → allocate flags s ≡ done (r, s')
      → Step (users s) (allocates flags) r (users s')
  allocate-Step pinned flags s s' r w e = elim (allocate_cases pinned flags s w) [
    | inl (_, q) ↦
        subst (λ p. Step (users s) (allocates flags) p.0 (users p.1)) (done_unique q e)
          (refused flags)
    | inr (i, t, q, a) ↦
        subst (λ p. Step (users s) (allocates flags) p.0 (users p.1)) (done_unique q e)
          (granted flags i (omega (arith, a.unused, users-get s i a.before a.found)) (
            users-set s t i 1 a.before a.after a.found a.array
              (omega (arith, a.claimed.count, a.unused))))
  ]

  -- Every call on a well-formed state that returns is a step of the specification on the numbers
  -- of users, and keeps the state well-formed: an allocation takes a frame with no user and gives
  -- it one, or returns nothing and changes nothing; `reference` and `deallocate` add and take away
  -- one user of a frame that has some.
  pub step-Step :
      (pinned : ℕ) (c : Call) (s s' : Frames) (r : Option Frame)
      → IsWf pinned s
      → step c s ≡ done (r, s')
      → Step (users s) c r (users s') × IsWf pinned s'
  unfolding step
  step-Step pinned (allocates flags) s s' r w e =
      (allocate-Step pinned flags s s' r w e, allocate-IsWf pinned flags s s' r w e)
  step-Step pinned (references f) s s' r w e =
      let (t, p, q) = >>=-eq-done (reference f s) _ e in
      subst (λ z. Step (users s) (references f) z.0 (users z.1) × IsWf pinned z.1)
        (done_unique refl q) (reference-Step f s t p, reference-IsWf pinned f s t w p)
  step-Step pinned (deallocates f) s s' r w e =
      let (t, p, q) = >>=-eq-done (deallocate f s) _ e in
      subst (λ z. Step (users s) (deallocates f) z.0 (users z.1) × IsWf pinned z.1)
        (done_unique refl q) (deallocate-Step f s t p, deallocate-IsWf pinned f s t w p)

  abbrev Spares : ℕ → Call → Type 0
  Spares i (allocates flags) = Unit {0}
  Spares i (references f) = Unit {0}
  Spares i (deallocates f) = f.start / 4096 ≢ i

  abbrev pub SparedBy : ℕ → List Call → Type 0
  SparedBy i [] = Unit {0}
  SparedBy i (c ∷ cs) = Spares i c × SparedBy i cs

  abbrev pub NotAmong : ℕ → List (Option Frame) → Type 0
  NotAmong i [] = Unit {0}
  NotAmong i (r ∷ rs) = (r ≢ some (frame (i * 4096))) × NotAmong i rs

  Step-keeps :
      (i : ℕ) {u v : Users} {c : Call} {r : Option Frame}
      → Step u c r v
      → Spares i c
      → 0 < u i
      → (0 < v i) × (r ≢ some (frame (i * 4096)))
  Step-keeps i (refused flags) k p = (p, λ e. cc)
  Step-keeps i {u} (granted flags j z e) k p = (
    rw e (ground arith),
    λ h.
        let q = ap (λ (f : Frame). f.start) (some-injective _ _ h) in
        let n : j ≡ i = omega (arith, q) in omega (arith, ap u n, z, p),
  )
  Step-keeps i (shared f z e) k p = (rw e (ground arith), λ h. cc)
  Step-keeps i (dropped f z e) k p = (rw e (ground (arith, k)), λ h. cc)

  -- From a well-formed state, for a frame that has a user: no sequence of calls of `allocate`,
  -- `reference` and `deallocate` that does not deallocate the frame hands it out again, and the
  -- frame keeps a user. The calls on ranges of frames are not among these.
  pub run-NotAmong :
      (pinned i : ℕ) (cs : List Call) (s t : Frames) (rs : List (Option Frame))
      → IsWf pinned s
      → 0 < users s i
      → SparedBy i cs
      → run cs s ≡ done (rs, t)
      → NotAmong i rs × (0 < users t i)
  unfolding run
  run-NotAmong pinned i [] s t rs w p k e = ground arith
  run-NotAmong pinned i (c ∷ cs) s t rs w p k e =
      let ((r, s'), p', q) = >>=-eq-done (step c s) _ e in
      let ((rs', t'), p'', q') = >>=-eq-done (run cs s') _ q in
      let (st, w') = step-Step pinned c s s' r w p' in
      let (more, ne) = Step-keeps i st k.0 p in
      let (none_of, kept) = run-NotAmong pinned i cs s' t' rs' w' more k.1 p'' in
      subst (λ z. NotAmong i z.0 × (0 < users z.1 i)) (done_unique refl q') ((ne, none_of), kept)
