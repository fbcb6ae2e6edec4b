-- ===== src/Interrupts/Delivery.antt =====
-- What an interrupt at each vector does once the interrupt table is set up.
use silicium_rs.Base.{
  ℕ, ◌+◌, ◌^◌, ◌%◌, ◌<◌, ◌≤◌, ◌≡◌, ◌∙◌, refl, sym, ap, arith, Bool, true, some, List, [], ◌∷◌, ◌++◌,
  ltb, leb, ◌==◌, if◌then◌else◌, Outcome, done, get_elem?_of_ge, subst,
}
use silicium_rs.Crates.Addresses.{Addresses}
use silicium_rs.Crates.BitFlags.{BitFlags}
use silicium_rs.Crates.PageTables.{PageTables}
use silicium_rs.Crates.VirtualRanges.{VirtualRanges}
use silicium_rs.Crates.InterruptTables.{InterruptTables}
use silicium_rs.Paging.{Event, flush_all, reload_cr3, send_ipi, send_eoi, pic_eoi}
use silicium_rs.Interrupts.Stubs.{Stub, irq_macro, idt_macro, stub_number, stub_dummy_code}
use silicium_rs.Interrupts.Handlers.{
  State, Core, Ending, returned, irq_handler, idt_handler, call_handler, passed_state, Interrupt,
  enter,
}
use silicium_rs.Interrupts.Vectors.{exceptions, device_stub, vector_stub, IsSetUp}

-- What a device's interrupt tells the core and the controllers, the latest first.
abbrev pub device_events : ℕ → List Event
device_events v =
    if v == 32
    then pic_eoi 32 ∷ send_ipi 0xF1 ∷ []
    else if v == 0xF0
    then send_eoi ∷ reload_cr3 ∷ []
    else if v == 0xF1
    then send_eoi ∷ []
    else []

-- The vectors from 32 on that have a handler of their own.
abbrev pub is_device : ℕ → Bool
is_device v = if ltb v 48 then leb 32 v else if v == 0xF0 then true else v == 0xF1

abbrev pub after_device : ℕ → Core → Core
after_device v c = record {
  kernel = record c.kernel {
    machine = record c.kernel.machine {
      cpu = record c.kernel.machine.cpu { events = device_events v ++ c.kernel.machine.cpu.events };
    };
  };
  cr2 = c.cr2;
  ticks = if v == 32 then (c.ticks + 1) % 2 ^ 64 else c.ticks;
}

module _ ⦃x : Addresses⦄ ⦃bits : BitFlags⦄ ⦃pt : PageTables⦄ ⦃ranges : VirtualRanges⦄
    ⦃tables : InterruptTables Stub⦄ where
  device_call :
      (v code : ℕ) (other : State) (c : Core)
      → 32 ≤ v
      → is_device v ≡ true
      → call_handler (device_stub v) (passed_state (device_stub v) v code other) c
        ≡ done (returned (after_device v c))
  unfolding call_handler irq_macro idt_macro irq_handler idt_handler passed_state stub_number
      stub_dummy_code flush_all
  device_call v code other c p d = ground arith

  -- An interrupt enters the function that the table has.
  pub Interrupt-call :
      (t : tables.Table) (v code : ℕ) (c : Core) (r : Outcome Ending)
      → IsSetUp t
      → v < 256
      → Interrupt t v code c r
      → (other : State) × (call_handler
            (vector_stub v)
            (passed_state (vector_stub v) v code other)
            c
          ≡ r)
  Interrupt-call t v code c r b p (enter h other e f) =
      (other, subst (λ g. call_handler g (passed_state g v code other) c ≡ r) h-eq f)
    where
      h-eq : h ≡ vector_stub v
      h-eq = cc (b v p)

  device_vector :
      (v : ℕ) → is_device v ≡ true → (32 ≤ v) × (v < 256) × (vector_stub v ≡ device_stub v)
  unfolding vector_stub
  device_vector v d =
      (ground arith, ground arith, rw (get_elem?_of_ge exceptions v (ground arith)) refl)

  -- On a table that is set up, every interrupt of a device, at the vectors from 32 to 47, 0xF0 and
  -- 0xF1, returns. At 32 it counts a tick modulo 2^64, sends the clock interrupt to the other cores
  -- and acknowledges the interrupt 32 to the PIC; at 0xF0 it flushes the TLB, and at 0xF0 and 0xF1
  -- it acknowledges to the local APIC; from 33 to 47 nothing is acknowledged. Nothing else changes.
  pub Interrupt-after_device :
      (t : tables.Table) (v code : ℕ) (c : Core)
      → IsSetUp t
      → is_device v ≡ true
      → Interrupt t v code c (done (returned (after_device v c)))
        × ((r : Outcome Ending) → Interrupt t v code c r → r ≡ done (returned (after_device v c)))
  Interrupt-after_device t v code c b d =
      let (p, q, e) = device_vector v d in
      (
        enter (device_stub v) (record { number = 0; code = 0 }) (b v q ∙ ap some e)
            (device_call v code (record { number = 0; code = 0 }) c p d),
        λ r i.
            let (other, f) = Interrupt-call t v code c r b q i in
            sym (rw e at f) ∙ device_call v code other c p d,
      )
