-- ===== src/Interrupts/ErrorCodes.antt =====
-- Error codes: what the processor pushes at a vector, and what the function there expects.
use silicium_rs.Base.{
  ℕ, ◌<◌, ◌≤◌, ◌≡◌, ◌≢◌, refl, arith, Bool, true, not, ◌||◌, ◌==◌, if◌then◌else◌, all_below,
  all_below-holds, dec_lt, get_elem?_of_ge,
}
use silicium_rs.Interrupts.Handlers.{pushes_code}
use silicium_rs.Interrupts.Stubs.{
  stub_number, stub_dummy_code, exception_macro, irq_macro, idt_macro,
}
use silicium_rs.Interrupts.Vectors.{vector_stub, exceptions, device_stub}

-- The stub at a vector pushes a 0 exactly if the processor pushes no error code.
unfoldable fits : ℕ → Bool
fits v = v == 29 || (if stub_dummy_code (vector_stub v) then not (pushes_code v) else pushes_code v)

unfoldable numbered : ℕ → Bool
numbered v = v == 29 || stub_number (vector_stub v) == v

fits_lem : (v : ℕ) → v ≢ 29 → fits v ≡ true → stub_dummy_code (vector_stub v) ≡ not (pushes_code v)
unfolding fits
fits_lem v q h = ground arith

numbered_lem : (v : ℕ) → v ≢ 29 → numbered v ≡ true → stub_number (vector_stub v) ≡ v
unfolding numbered
numbered_lem v q h = ground arith

fits-true : all_below 32 fits ≡ true
unfolding fits vector_stub stub_dummy_code exception_macro irq_macro idt_macro
fits-true = refl

numbered-true : all_below 32 numbered ≡ true
unfolding numbered vector_stub stub_number exception_macro
numbered-true = refl

device_dummy : (v : ℕ) → stub_dummy_code (device_stub v) ≡ true
unfolding stub_dummy_code irq_macro idt_macro
device_dummy v = ground arith

device_fits : (v : ℕ) → 32 ≤ v → stub_dummy_code (vector_stub v) ≡ not (pushes_code v)
unfolding vector_stub
device_fits v p = rw (get_elem?_of_ge exceptions v p, device_dummy v) (ground arith)

fitting : (v : ℕ) → v ≢ 29 → stub_dummy_code (vector_stub v) ≡ not (pushes_code v)
fitting v q = elim (dec_lt v 32) [
  | yes p ↦ ground (arith, all_below-holds 32 fits fits-true v p, fits_lem v)
  | no p ↦ device_fits v (omega arith)
]

-- At each vector but 29 the function pushes a 0 as the error code exactly if the processor pushes
-- none, so that the handler finds the state where it expects it; below 32 the number that it pushes
-- is the vector, again with the exception of 29. At 29 it pushes a 0 although the processor has
-- pushed an error code, and the number is 20.
pub vector_stub-dummy_code :
    (v : ℕ)
    → (v ≢ 29 → stub_dummy_code (vector_stub v) ≡ not (pushes_code v))
      × (v < 32 → v ≢ 29 → stub_number (vector_stub v) ≡ v)
      × (v ≡ 29
          → (stub_dummy_code (vector_stub v) ≡ true)
            × (pushes_code v ≡ true)
            × (stub_number (vector_stub v) ≡ 20))
unfolding vector_stub stub_number stub_dummy_code exception_macro
vector_stub-dummy_code v = (
  fitting v,
  λ p q. ground (arith, all_below-holds 32 numbered numbered-true v p, numbered_lem v),
  λ p. rw p (refl, refl, refl),
)
