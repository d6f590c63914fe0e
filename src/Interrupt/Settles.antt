-- ===== src/Interrupt/Settles.antt =====
-- The handling of interrupts leaves the console's input alone.
use charcoalos.Console.Settles.{printing}
use charcoalos.Machine.Settles.{SettlesOn, Settles}
use charcoalos.Interrupt.{
  load, handle_interrupt_exception, timer_tick, read_timer_frequency_in_hz, Platform,
}
use charcoalos.Uptime.{increment_uptime_by_one_tick}
use charcoalos.Prelude.{refl}

pub Settles-read_timer_frequency : Settles read_timer_frequency_in_hz
unfolding read_timer_frequency_in_hz
Settles-read_timer_frequency = search printing

Settles-increment_uptime : Settles increment_uptime_by_one_tick
unfolding SettlesOn increment_uptime_by_one_tick
Settles-increment_uptime m = (tt, refl)

Settles-timer_tick : Settles timer_tick
unfolding timer_tick
Settles-timer_tick = search (printing, Settles-increment_uptime) depth 8

pub Settles-handle_interrupt : (p : Platform) → Settles (handle_interrupt_exception p)
unfolding handle_interrupt_exception load
Settles-handle_interrupt p = search (printing, Settles-timer_tick) depth 8
