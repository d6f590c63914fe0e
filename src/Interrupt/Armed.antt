-- ===== src/Interrupt/Armed.antt =====
-- arch/arm64/Interrupt.c, `initialize_timer`: what it writes, and that the timer then runs.
use charcoalos.Machine.{
  Effect, msr, Machine, cntfrq_el0, store8, cntp_tval_el0, daifclr, cntp_ctl_el0, store32, barriers,
  returned,
}
use charcoalos.Interrupt.{
  gicd_isenabler0, gicc_pmr, rpi, virt, gicc_ctlr, Platform, gicd_ctlr, gicd_ipriorityr,
  gicd_igroupr0, initialize_timer, enable_group, read_timer_frequency_in_hz, set_bits,
}
use charcoalos.Prelude.{
  bit_and_high, bit_and_low, ℕ, ◌+◌, ◌-◌, ◌*◌, ◌/◌, ◌%◌, ◌^◌, bit_and, bit_or, ◌≡◌, ap, ◌∙◌, List,
  [], ◌∷◌, ◌++◌, append_assoc, arith, bit_or_disjoint,
}

-- `|=` on the register at an address.
abbrev with_bits : (ℕ → ℕ) → ℕ → ℕ → Effect
with_bits mmio address bits = store32 address (bit_or (mmio address) bits)

-- The group of the timer's interrupt: the second on the Raspberry Pi, the first on `virt`.
abbrev group_effects : Platform → (ℕ → ℕ) → List Effect
group_effects rpi mmio =
    with_bits mmio (gicd_igroupr0 rpi) 0x40000000
    ∷ with_bits mmio (gicd_ctlr rpi) 2
    ∷ with_bits mmio (gicc_ctlr rpi) 2
    ∷ []
group_effects virt mmio = with_bits mmio (gicd_ctlr virt) 1 ∷ with_bits mmio (gicc_ctlr virt) 1 ∷ []

-- `CNTP_CTL_EL0` with its lowest two bits as 01, and its others as they were.
abbrev pub timer_control : ℕ → ℕ
timer_control control = control / 4 % 2 ^ 62 * 4 + 1

-- The writes of `initialize_timer`, in their order.
abbrev pub timer_effects : Platform → Machine → List Effect
timer_effects p m =
    msr cntp_tval_el0 (m.sysreg cntfrq_el0 / 100)
    ∷ msr cntp_ctl_el0 (timer_control (m.sysreg cntp_ctl_el0))
    ∷ with_bits m.mmio (gicd_isenabler0 p) 0x40000000
    ∷ store8 (gicd_ipriorityr p + 30) 0x80
    ∷ store32 (gicc_pmr p) 0xff
    ∷ (group_effects p m.mmio ++ (barriers ∷ msr daifclr 2 ∷ []))

low_62 : (c : ℕ) → bit_and c (2 ^ 62 - 1) ≡ c % 2 ^ 62
low_62 c =
    let split : c ≡ c / 2 ^ 62 * 2 ^ 62 + c % 2 ^ 62 = omega arith in
    ap (λ (x : ℕ). bit_and x (2 ^ 62 - 1)) split
    ∙ bit_and_low 62 (c / 2 ^ 62) (c % 2 ^ 62) (omega arith)

control_lem : (c : ℕ) → bit_or (bit_and c (2 ^ 64 - 1 - 0x3)) 0x1 ≡ timer_control c
control_lem c =
    let split : c ≡ c / 4 * 2 ^ 2 + c % 4 = omega arith in
    let masked : bit_and c (2 ^ 64 - 1 - 0x3) ≡ c / 4 % 2 ^ 62 * 2 ^ 2 =
      ap (λ (x : ℕ). bit_and x (2 ^ 64 - 1 - 0x3)) split
      ∙ bit_and_high 2 (c / 4) (c % 4) (2 ^ 62 - 1) (omega arith)
      ∙ ap (λ (x : ℕ). x * 2 ^ 2) (low_62 (c / 4)) in
    ap (λ (x : ℕ). bit_or x 0x1) masked ∙ bit_or_disjoint 2 (c / 4 % 2 ^ 62) 1 (omega arith)

-- The start of the timer writes each register once and changes
-- nothing else: the count to the next tick, a hundredth of the timer's frequency; the control register
-- with the timer enabled and its interrupt not masked, and its other bits as they were; then the
-- interrupt's line, priority and group in the interrupt controller of the platform, and only after
-- these the barriers and the processor's own mask.
pub initialize_timer-timer_effects :
    (p : Platform) (m : Machine)
    → initialize_timer p m ≡ (returned tt, record m { effects = m.effects ++ timer_effects p m })
unfolding initialize_timer enable_group set_bits read_timer_frequency_in_hz
initialize_timer-timer_effects rpi m = rw (control_lem (m.sysreg cntp_ctl_el0)) (simp append_assoc)
initialize_timer-timer_effects virt m = rw (control_lem (m.sysreg cntp_ctl_el0)) (simp append_assoc)
