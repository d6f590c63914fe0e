-- ===== src/Uptime.antt =====
-- kernel/Time/Uptime.c.
use charcoalos.Machine.{Kernel, returned, gets}
use charcoalos.Prelude.{ℕ, ◌+◌, ◌*◌, ◌/◌, u64}

-- arch/Interrupt.h, arch/arm64/Interrupt.c.
abbrev pub interrupt_frequency_in_hz : ℕ
interrupt_frequency_in_hz = 100

-- Milliseconds since boot.
unfoldable pub uptime : Kernel ℕ
uptime = gets λ m. u64 (1000 * m.ticks_since_boot) / interrupt_frequency_in_hz

unfoldable pub increment_uptime_by_one_tick : Kernel (Unit {0})
increment_uptime_by_one_tick m =
    (returned tt, record m { ticks_since_boot = u64 (m.ticks_since_boot + 1) })
