-- ===== src/Interrupt/Ticks.antt =====
-- Sequences of interrupts: each is acknowledged once, and the timer's make the uptime.
use charcoalos.Machine.Ends.{Leaves}
use charcoalos.Machine.{
  barriers, store32, Effect, msr, hypervisor_reset, Machine, store8, returned, cntp_tval_el0, Stop,
}
use charcoalos.Interrupt.{
  handle_interrupt_exception, Platform, read_timer_frequency_in_hz, timer_tick, gicc_eoir, gicc_iar,
  timer_interrupt_id, load, virt, rpi,
}
use charcoalos.Uptime.{increment_uptime_by_one_tick, uptime}
use charcoalos.Prelude.{
  ℕ, suc, ◌+◌, ◌*◌, ◌^◌, ◌<◌, bit_and, ◌≡◌, refl, sym, ap, ◌∙◌, inl, inr, List, [], ◌∷◌, ◌++◌,
  append-nil, append_assoc, arith, ◌==◌, if◌then◌else◌, Bool-cases, u64,
}

-- The controller's acknowledge register has this value.
abbrev pub raise : Platform → ℕ → Machine → Machine
raise p iar m = record m { mmio = λ address. if address == gicc_iar p then iar else m.mmio address }

-- The handler on each interrupt in turn.
pub service : Platform → List ℕ → Machine → Machine
service p [] m = m
service p (iar ∷ iars) m = service p iars (handle_interrupt_exception p (raise p iar m)).1

-- How many of the interrupts are the timer's.
abbrev pub timer_interrupts : List ℕ → ℕ
timer_interrupts [] = 0
timer_interrupts (iar ∷ iars) =
    if bit_and iar 0x3ff == timer_interrupt_id
    then suc (timer_interrupts iars)
    else timer_interrupts iars

-- The values written to the end-of-interrupt register, in order.
pub acknowledged : Platform → List Effect → List ℕ
acknowledged p [] = []
acknowledged p (store32 address v ∷ effects) =
    let later = acknowledged p effects in if address == gicc_eoir p then v ∷ later else later
acknowledged p (store8 address v ∷ effects) = acknowledged p effects
acknowledged p (msr r v ∷ effects) = acknowledged p effects
acknowledged p (barriers ∷ effects) = acknowledged p effects
acknowledged p (hypervisor_reset ∷ effects) = acknowledged p effects

raised : (p : Platform) (iar : ℕ) (m : Machine) → (raise p iar m).mmio (gicc_iar p) ≡ iar
raised rpi iar m = refl
raised virt iar m = refl

handle-ticks :
    (p : Platform) (m : Machine) (iar : ℕ)
    → m.mmio (gicc_iar p) ≡ iar
    → (handle_interrupt_exception p m).1.ticks_since_boot ≡ (
        if bit_and iar 0x3ff == timer_interrupt_id
        then u64 (m.ticks_since_boot + 1)
        else m.ticks_since_boot)
unfolding handle_interrupt_exception timer_tick load increment_uptime_by_one_tick
    read_timer_frequency_in_hz
handle-ticks p m iar e = ground arith

service-ticks :
    (p : Platform) (iars : List ℕ) (m : Machine)
    → m.ticks_since_boot + timer_interrupts iars < 2 ^ 64
    → (service p iars m).ticks_since_boot ≡ m.ticks_since_boot + timer_interrupts iars
unfolding service
service-ticks p [] m h = omega arith
service-ticks p (iar ∷ iars) m h =
    let first = handle-ticks p (raise p iar m) iar (raised p iar m) in
    let after = service-ticks p iars (handle_interrupt_exception p (raise p iar m)).1 in
    elim (Bool-cases (bit_and iar 0x3ff == timer_interrupt_id)) [
      | inl timer ↦
          let count : timer_interrupts (iar ∷ iars) ≡ suc (timer_interrupts iars) = rw timer refl in
          let now : (handle_interrupt_exception p (raise p iar m)).1.ticks_since_boot
              ≡ m.ticks_since_boot + 1 =
            first ∙ rw timer (ground arith) in
          ground (arith, after (ground arith))
      | inr other ↦
          let count : timer_interrupts (iar ∷ iars) ≡ timer_interrupts iars = rw other refl in
          let now : (handle_interrupt_exception p (raise p iar m)).1.ticks_since_boot
              ≡ m.ticks_since_boot =
            first ∙ rw other refl in
          ground (arith, after (ground arith))
    ]

-- From boot, whatever other interrupts come between them, `uptime` is ten milliseconds for each
-- interrupt of the timer, as long as the milliseconds times 100 fit in 64 bits.
pub service-uptime :
    (p : Platform) (iars : List ℕ) (m : Machine)
    → m.ticks_since_boot ≡ 0
    → 1000 * timer_interrupts iars < 2 ^ 64
    → (uptime (service p iars m)).0 ≡ returned (10 * timer_interrupts iars)
unfolding uptime
service-uptime p iars m boot h =
    let ticks : (service p iars m).ticks_since_boot ≡ timer_interrupts iars =
      ground (arith, service-ticks p iars m (ground arith)) in
    rw ticks (ap returned (ground arith))

acknowledged-append :
    (p : Platform) (a b : List Effect)
    → acknowledged p (a ++ b) ≡ acknowledged p a ++ acknowledged p b
unfolding acknowledged
acknowledged-append p [] b = refl
acknowledged-append p (store32 address v ∷ a) b =
    rw (acknowledged-append p a b) (elim (Bool-cases (address == gicc_eoir p)) [
      | inl there ↦ rw there refl
      | inr elsewhere ↦ rw elsewhere refl
    ])
acknowledged-append p (store8 address v ∷ a) b = acknowledged-append p a b
acknowledged-append p (msr r v ∷ a) b = acknowledged-append p a b
acknowledged-append p (barriers ∷ a) b = acknowledged-append p a b
acknowledged-append p (hypervisor_reset ∷ a) b = acknowledged-append p a b

end_of_interrupt :
    (p : Platform) (iar : ℕ) → acknowledged p (store32 (gicc_eoir p) iar ∷ []) ≡ iar ∷ []
unfolding acknowledged
end_of_interrupt rpi iar = refl
end_of_interrupt virt iar = refl

handle-acknowledged :
    (p : Platform) (m : Machine) (iar : ℕ)
    → m.mmio (gicc_iar p) ≡ iar
    → acknowledged p (handle_interrupt_exception p m).1.effects
      ≡ acknowledged p m.effects ++ iar ∷ []
unfolding handle_interrupt_exception timer_tick load increment_uptime_by_one_tick
    read_timer_frequency_in_hz acknowledged
handle-acknowledged p m iar e = elim (Bool-cases (bit_and iar 0x3ff == timer_interrupt_id)) [
  | inl timer ↦ rw e (
      rw timer (
        rw
          (
            acknowledged-append p (m.effects ++ _ ∷ []) (store32 (gicc_eoir p) iar ∷ []),
            acknowledged-append p m.effects (msr cntp_tval_el0 _ ∷ []),
            end_of_interrupt p iar,
            append-nil,
          )
          refl))
  | inr other ↦ rw e (
      rw other (
        rw
          (acknowledged-append p m.effects (store32 (gicc_eoir p) iar ∷ []), end_of_interrupt p iar)
          refl))
]

-- Every interrupt is acknowledged exactly once, with the value that was read, in the order in which
-- they came, whether the kernel knows it or not.
pub service-acknowledged :
    (p : Platform) (iars : List ℕ) (m : Machine)
    → acknowledged p (service p iars m).effects ≡ acknowledged p m.effects ++ iars
unfolding service
service-acknowledged p [] m = sym (append-nil (acknowledged p m.effects))
service-acknowledged p (iar ∷ iars) m =
    service-acknowledged p iars (handle_interrupt_exception p (raise p iar m)).1
    ∙ ap (λ seen. seen ++ iars) (handle-acknowledged p (raise p iar m) iar (raised p iar m))
    ∙ append_assoc (acknowledged p m.effects) (iar ∷ []) iars

-- The handler returns, prints nothing, and leaves the flag of the exception handler alone.
pub handle_interrupt_exception-Leaves :
    (S : Stop → Machine → Type 0) (p : Platform) (m : Machine)
    → Leaves S
        (λ _ n. (n.exception_in_progress ≡ m.exception_in_progress) × (n.output ≡ m.output))
        (handle_interrupt_exception p m)
unfolding handle_interrupt_exception timer_tick load read_timer_frequency_in_hz
    increment_uptime_by_one_tick
handle_interrupt_exception-Leaves S p m =
    elim (Bool-cases (bit_and (m.mmio (gicc_iar p)) 0x3ff == timer_interrupt_id)) [
      | inl timer ↦ rw timer (refl, refl)
      | inr other ↦ rw other (refl, refl)
    ]
