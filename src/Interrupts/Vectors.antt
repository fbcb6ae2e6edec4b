-- ===== src/Interrupts/Vectors.antt =====
-- The handler of each vector once the interrupt table is set up.
use silicium_rs.Base.{
  ℕ, zero, suc, ◌+◌, ◌-◌, ◌≤◌, ◌<◌, ◌≡◌, ◌∙◌, refl, ap, arith, ◌&&◌, none, some, List, [], ◌∷◌, map,
  ltb, leb, ◌==◌, if◌then◌else◌, Outcome, done, ◌>>=◌, length, get_elem?, ℕ_discrete, dec_lt, inl,
  inr, ◌⊎◌, lt→ltb, get_elem?_of_ge, get_elem?_of_lt,
}
use silicium_rs.Crates.InterruptTables.{InterruptTables}
use silicium_rs.Interrupts.Stubs.{
  Stub, exception, irq, idt, unknown_interrupt, tlb_shootdown, clock_tick, pit_tick, ignore_irq,
  divide_by_zero, debug, non_maskable_interrupt, breakpoint, overflow, bound_range_exceeded,
  invalid_opcode, device_not_available, double_fault, coprocessor_segment_overrun, invalid_tss,
  segment_not_present, stack_segment_fault, general_protection_fault, page_fault, reserved_1,
  x87_floating_point, alignment_check, machine_check, simd, virtualization, control_protection,
  reserved_2, reserved_3, reserved_4, reserved_5, reserved_6, reserved_7, hypervisor_injection,
  security_exception, reserved_8,
}
use silicium_rs.Interrupts.Setup.{
  install_default, idt_setup, install_irqs, irq_setup, register_exception_handler, exception_setup,
  install,
}

-- The exceptions in the order of their vectors. Vector 29 has the handler of vector 20.
abbrev pub exceptions : List Stub
exceptions = map exception (
    divide_by_zero ∷ debug ∷ non_maskable_interrupt ∷ breakpoint ∷ overflow ∷ bound_range_exceeded
    ∷ invalid_opcode ∷ device_not_available ∷ double_fault ∷ coprocessor_segment_overrun
    ∷ invalid_tss ∷ segment_not_present ∷ stack_segment_fault ∷ general_protection_fault
    ∷ page_fault ∷ reserved_1 ∷ x87_floating_point ∷ alignment_check ∷ machine_check ∷ simd
    ∷ virtualization ∷ control_protection ∷ reserved_2 ∷ reserved_3 ∷ reserved_4 ∷ reserved_5
    ∷ reserved_6 ∷ reserved_7 ∷ hypervisor_injection ∷ virtualization ∷ security_exception
    ∷ reserved_8 ∷ [])

-- The vectors that are no exceptions.
abbrev pub device_stub : ℕ → Stub
device_stub v =
    if v == 32
    then irq pit_tick
    else if ltb v 48
    then irq ignore_irq
    else if v == 0xF0
    then idt tlb_shootdown
    else if v == 0xF1
    then idt clock_tick
    else idt unknown_interrupt

unfoldable pub vector_stub : ℕ → Stub
vector_stub v = elim (get_elem? exceptions v) [ none ↦ device_stub v | some h ↦ h ]

abbrev repeat : ℕ → Stub → List Stub
repeat zero h = []
repeat (suc n) h = h ∷ repeat n h

length-repeat : (n : ℕ) (h : Stub) → length (repeat n h) ≡ n
length-repeat zero h = refl
length-repeat (suc n) h = ap suc (length-repeat n h)

get_elem?-repeat : (n k : ℕ) (h : Stub) → k < n → get_elem? (repeat n h) k ≡ some h
get_elem?-repeat zero k h p = absurd (omega arith)
get_elem?-repeat (suc n) zero h p = refl
get_elem?-repeat (suc n) (suc k) h p = get_elem?-repeat n k h (omega arith)

module _ ⦃tables : InterruptTables Stub⦄ where
  -- Handlers at vectors one after another.
  abbrev install_all : ℕ → List Stub → tables.Table → tables.Table
  install_all n [] t = t
  install_all n (h ∷ hs) t = install_all (suc n) hs (install n h t)

  handler-install_all_ne :
      (v n : ℕ) (hs : List Stub) (t : tables.Table)
      → (v < n) ⊎ (n + length hs ≤ v)
      → tables.handler v (install_all n hs t) ≡ tables.handler v t
  handler-install_all_ne v n [] t p = refl
  handler-install_all_ne v n (h ∷ hs) t p =
      handler-install_all_ne v (suc n) hs (install n h t) (ground arith)
      ∙ tables.handler-set_ne n v (tables.descriptor h tables.kernel_present) t (ground arith)

  handler-install_all :
      (v k n : ℕ) (hs : List Stub) (h : Stub) (t : tables.Table)
      → v ≡ n + k
      → v < 256
      → get_elem? hs k ≡ some h
      → tables.handler v (install_all n hs t) ≡ some h
  handler-install_all v k n [] h t q p e = cc
  handler-install_all v zero n (g ∷ hs) h t q p e =
      handler-install_all_ne v (suc n) hs (install n g t) (inl (omega arith))
      ∙ grind (arith, tables.handler-set_self n g t)
  handler-install_all v (suc k) n (g ∷ hs) h t q p e =
      handler-install_all v k (suc n) hs h (install n g t) (omega arith) p e

  install_default_lem :
      (n i : ℕ) (t : tables.Table)
      → n + i ≤ 256
      → install_default n i t ≡ done (install_all i (repeat n (idt unknown_interrupt)) t)
  unfolding install_default
  install_default_lem zero i t p = refl
  install_default_lem (suc n) i t p =
      rw (lt→ltb i 256 (omega arith))
        (install_default_lem n (suc i) (install i (idt unknown_interrupt) t) (omega arith))

  install_irqs_lem :
      (n i j : ℕ) (t : tables.Table)
      → 32 + i ≡ j
      → install_irqs n i t ≡ install_all j (repeat n (irq ignore_irq)) t
  unfolding install_irqs
  install_irqs_lem zero i j t p = refl
  install_irqs_lem (suc n) i j t p =
      rw p (install_irqs_lem n (suc i) (suc j) (install j (irq ignore_irq) t) (omega arith))

  exception_setup_lem : (t : tables.Table) → exception_setup t ≡ install_all 0 exceptions t
  unfolding exception_setup register_exception_handler
  exception_setup_lem t = refl

  handler-install :
      (v w : ℕ) (h : Stub) (t : tables.Table)
      → v < 256
      → tables.handler v (install w h t) ≡ (if v == w then some h else tables.handler v t)
  handler-install v w h t p = elim (ℕ_discrete v w) [
    | yes e ↦ ground (arith, tables.handler-set_self w h t)
    | no e ↦ ground (arith, tables.handler-set_ne w v (tables.descriptor h tables.kernel_present) t)
  ]

  idt_setup_handler :
      (t : tables.Table)
      → (t' : tables.Table) × (idt_setup t ≡ done t')
        × ((v : ℕ)
            → v < 256
            → tables.handler v t' ≡ (
                if v == 0xF1
                then some (idt clock_tick)
                else if v == 0xF0
                then some (idt tlb_shootdown)
                else some (idt unknown_interrupt)))
  unfolding idt_setup
  idt_setup_handler t = (
    install 0xF1 (idt clock_tick)
        (install 0xF0 (idt tlb_shootdown) (install_all 0 (repeat 256 (idt unknown_interrupt)) t)),
    rw (tables.capacity_lem, install_default_lem 256 0 t (omega arith)) refl,
    λ v p.
        rw
          (
            handler-install v 0xF1 (idt clock_tick) _ p,
            handler-install v 0xF0 (idt tlb_shootdown)
                (install_all 0 (repeat 256 (idt unknown_interrupt)) t) p,
            handler-install_all v v 0 (repeat 256 (idt unknown_interrupt)) (idt unknown_interrupt) t
                (omega arith) p (get_elem?-repeat 256 v (idt unknown_interrupt) p),
          )
          refl,
  )

  irq_setup_handler :
      (v : ℕ) (t : tables.Table)
      → v < 256
      → tables.handler v (irq_setup t) ≡ (
          if v == 32
          then some (irq pit_tick)
          else if leb 32 v && ltb v 48
          then some (irq ignore_irq)
          else tables.handler v t)
  unfolding irq_setup
  irq_setup_handler v t p =
      rw
        (
          install_irqs_lem 16 0 32 t refl,
          handler-install v 32 (irq pit_tick) (install_all 32 (repeat 16 (irq ignore_irq)) t) p,
        )
        elim (dec_lt v 32) [
          | yes lt ↦
              ground (arith, handler-install_all_ne v 32 (repeat 16 (irq ignore_irq)) t (inl lt))
          | no ge ↦ elim (dec_lt v 48) [
            | yes lt ↦ ground (
              arith,
              handler-install_all v (v - 32) 32 (repeat 16 (irq ignore_irq)) (irq ignore_irq) t
                  (omega arith) p (get_elem?-repeat 16 (v - 32) (irq ignore_irq) (omega arith)),
            )
            | no gt ↦ ground (
              arith,
              handler-install_all_ne v 32 (repeat 16 (irq ignore_irq)) t (inr (omega arith)),
            )
          ]
        ]

  -- What `start` makes of the table, by `idt::setup`, `irq::setup` and `exception::setup`.
  unfoldable pub setup_table : tables.Table → Outcome tables.Table
  setup_table t = do t ← idt_setup t; done (exception_setup (irq_setup t))

  -- The table that `setup_table` leaves.
  abbrev pub IsSetUp : tables.Table → Type 0
  IsSetUp t = (v : ℕ) → v < 256 → tables.handler v t ≡ some (vector_stub v)

  device_stub_lem :
      (v : ℕ) (t : tables.Table)
      → 32 ≤ v
      → tables.handler v t ≡ (
          if v == 0xF1
          then some (idt clock_tick)
          else if v == 0xF0
          then some (idt tlb_shootdown)
          else some (idt unknown_interrupt))
      → (if v == 32
          then some (irq pit_tick)
          else if leb 32 v && ltb v 48
          then some (irq ignore_irq)
          else tables.handler v t)
        ≡ some (device_stub v)
  device_stub_lem v t p h = ground arith

  -- From any table `idt::setup`, `irq::setup` and `exception::setup` end without a panic, and then
  -- the processor enters at each of the 256 vectors the function that `vector_stub` gives: below
  -- 32, but at 29, that of the exception with the vector's number, and at 29 that of the
  -- virtualization exception, which is also at 20; at 32 the clock's, up to 47 the one that ignores
  -- the interrupt, at 0xF0 and 0xF1 those of the two interrupts between cores, and the default one
  -- at all others.
  pub setup_table-vector_stub :
      (t : tables.Table)
      → (t' : tables.Table) × (setup_table t ≡ done t')
        × ((v : ℕ) → v < 256 → tables.handler v t' ≡ some (vector_stub v))
  unfolding setup_table vector_stub
  setup_table-vector_stub t =
      let (u, e, h) = idt_setup_handler t in
      (
        exception_setup (irq_setup u),
        rw e refl,
        λ v p. rw (exception_setup_lem (irq_setup u)) elim (dec_lt v 32) [
          | yes lt ↦
              let (s, f) = get_elem?_of_lt exceptions v lt in
              rw f (handler-install_all v v 0 exceptions s (irq_setup u) (omega arith) p f)
          | no ge ↦ rw (get_elem?_of_ge exceptions v (omega arith)) (
              handler-install_all_ne v 0 exceptions (irq_setup u) (inr (omega arith))
              ∙ irq_setup_handler v u p
              ∙ device_stub_lem v u (omega arith) (h v p))
        ],
      )
