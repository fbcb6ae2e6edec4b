-- ===== src/Interrupts/Faults.antt =====
-- Exceptions once the interrupt table is set up: panics, the interrupt that stops a core, and page
-- faults.
use silicium_rs.Base.{
  ℕ, ◌<◌, ◌≡◌, ◌≢◌, ◌∙◌, refl, sym, arith, Bool, true, false, ◌||◌, some, ◌==◌, Outcome, done,
  panicked, Panic, unrecoverable_page_fault, all_below, all_below-holds, subst, ◌⊎◌, inl, inr,
}
use silicium_rs.Crates.Addresses.{Addresses}
use silicium_rs.Crates.BitFlags.{BitFlags}
use silicium_rs.Crates.PageTables.{PageTables}
use silicium_rs.Crates.VirtualRanges.{VirtualRanges}
use silicium_rs.Crates.InterruptTables.{InterruptTables}
use silicium_rs.Interrupts.Stubs.{
  Stub, exception, non_maskable_interrupt, page_fault, exception_macro, stub_dummy_code,
  stub_number,
}
use silicium_rs.Interrupts.Handlers.{
  State, Core, Ending, returned, frozen, exception_handler, call_handler, passed_state, Interrupt,
}
use silicium_rs.Interrupts.Vectors.{vector_stub, IsSetUp}
use silicium_rs.Paging.{Machine}
use silicium_rs.Paging.Space.{Typing, IsPaged}
use silicium_rs.Paging.Map.{Mapping}
use silicium_rs.Paging.Served.{Served}
use silicium_rs.PageFault.{PageFaultType, PageFaultResult, resolved, unresolved, Kernel}
use silicium_rs.PageFault
use silicium_rs.PageFault.Resolved.{is_violation, Verdict, root_of, page_fault-Verdict}
use silicium_rs.Interrupts.Delivery.{Interrupt-call}

abbrev is_fatal : Stub → Bool
is_fatal (exception non_maskable_interrupt) = false
is_fatal (exception page_fault) = false
is_fatal (exception e) = true
is_fatal h = false

unfoldable fatal_vector : ℕ → Bool
fatal_vector v = v == 2 || v == 14 || is_fatal (vector_stub v)

fatal_vector-true : all_below 32 fatal_vector ≡ true
unfolding fatal_vector vector_stub
fatal_vector-true = refl

fatal : (v : ℕ) → v < 32 → v ≢ 2 → v ≢ 14 → is_fatal (vector_stub v) ≡ true
unfolding fatal_vector
fatal v p q r = ground (arith, all_below-holds 32 fatal_vector fatal_vector-true v p)

module _ ⦃x : Addresses⦄ ⦃bits : BitFlags⦄ ⦃pt : PageTables⦄ ⦃ranges : VirtualRanges⦄
    ⦃tables : InterruptTables Stub⦄ where
  fatal_panics :
      (h : Stub) (s : State) (c : Core)
      → is_fatal h ≡ true
      → (p : Panic) × (call_handler h s c ≡ panicked p)
  unfolding call_handler exception_handler exception_macro
  fatal_panics (exception non_maskable_interrupt) s c q = cc
  fatal_panics (exception page_fault) s c q = cc
  fatal_panics (exception e) s c q = (_, refl)
  fatal_panics h s c q = cc

  nmi_call : (s : State) (c : Core) → call_handler (vector_stub 2) s c ≡ done (frozen c)
  unfolding call_handler exception_handler exception_macro vector_stub
  nmi_call s c = refl

  -- On a table that is set up, the exceptions end as follows, page faults (14) left out: the
  -- interrupt 2, by which a panic stops the other cores, freezes the core and changes nothing; every
  -- other exception is a panic.
  pub Interrupt-frozen :
      (t : tables.Table) (v code : ℕ) (c : Core) (r : Outcome Ending)
      → IsSetUp t
      → v < 32
      → v ≢ 14
      → Interrupt t v code c r
      → (v ≡ 2 → r ≡ done (frozen c)) × (v ≢ 2 → (p : Panic) × (r ≡ panicked p))
  Interrupt-frozen t v code c r b p q i =
      let (other, f) = Interrupt-call t v code c r b (omega arith) i in
      (
        λ two. sym (rw two at f) ∙ nmi_call (passed_state (vector_stub 2) 2 code other) c,
        λ n.
            let (why, g) =
              fatal_panics (vector_stub v) (passed_state (vector_stub v) v code other) c
                (fatal v p n q) in
            (why, sym f ∙ g),
      )

  -- What a page fault comes to: it returns after it has been resolved, or it is a panic.
  pub data FaultEnd (pinned : ℕ) (ty : Typing) (code : ℕ) (c : Core) : Outcome Ending → Type 0 where
    resumed :
        (how : PageFaultType) (s : Machine) (after : Typing)
        → Served pinned ty after c.kernel.machine.frames s.frames
        → Verdict (root_of c.kernel) code c.cr2 c.kernel.machine (resolved how) s
        → FaultEnd pinned ty code c
            (done (returned (record c { kernel = record c.kernel { machine = s } })))
    fatal_fault :
        ((is_violation code ≡ true)
          ⊎ (¬ Mapping (root_of c.kernel) c.cr2 c.kernel.machine.frames.memory))
        → FaultEnd pinned ty code c (panicked unrecoverable_page_fault)

  page_fault_end :
      (pinned : ℕ) (ty after : Typing) (code : ℕ) (c : Core) (r : PageFaultResult) (s : Machine)
      → Served pinned ty after c.kernel.machine.frames s.frames
      → Verdict (root_of c.kernel) (tables.fault_code code) c.cr2 c.kernel.machine r s
      → PageFault.page_fault (tables.fault_code code) c.cr2 c.kernel
        ≡ done (r, record c.kernel { machine = s })
      → x.virtual_new c.cr2 ≡ done c.cr2
      → (other : State)
      → FaultEnd pinned ty
          (tables.fault_code code)
          c
          (call_handler (vector_stub 14) (passed_state (vector_stub 14) 14 code other) c)
  unfolding call_handler exception_handler exception_macro vector_stub passed_state stub_dummy_code
      stub_number
  page_fault_end pinned ty after code c (resolved how) s sv w e a other =
      rw (a, e) (resumed how s after sv w)
  page_fault_end pinned ty after code c (unresolved why) s sv w e a other =
      rw (a, e) (fatal_fault (elim w [ inl (u, _) ↦ inl u | inr (_, u) ↦ inr u ]))

  -- On a table that is set up, with well-formed page tables, a root table in use (the one in CR3,
  -- below 2^47, early in the start) and a valid address in CR2, an interrupt at 14 returns or
  -- panics. If it returns, every translation below every root table is kept, the page tables are
  -- still well-formed, and either the address was mapped and the TLBs were flushed, or it was not
  -- mapped and now translates. It panics only at a protection violation or for an address that was
  -- not mapped.
  pub Interrupt-FaultEnd :
      (pinned : ℕ) (ty : Typing) (t : tables.Table) (code : ℕ) (c : Core) (r : Outcome Ending)
      → IsSetUp t
      → IsPaged pinned ty c.kernel.machine.frames
      → ty (root_of c.kernel) ≡ some pt.page_map_level4
      → c.kernel.cr3 < 0x8000_0000_0000
      → x.virtual_new c.cr2 ≡ done c.cr2
      → Interrupt t 14 code c r
      → FaultEnd pinned ty (tables.fault_code code) c r
  Interrupt-FaultEnd pinned ty t code c r b v q h a i =
      let (other, f) = Interrupt-call t 14 code c r b (omega arith) i in
      let (res, s, after, e, sv, w) =
        page_fault-Verdict pinned ty (tables.fault_code code) c.cr2 c.kernel v q h in
      subst (FaultEnd pinned ty (tables.fault_code code) c) f
        (page_fault_end pinned ty after code c res s sv w e a other)
