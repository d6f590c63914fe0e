-- ===== src/Examples/Uart.antt =====
-- A UART with its FIFOs off, and the theorems about the code that waits for it.
use charcoalos.Console.Print.{with_returns}
use charcoalos.Minimal.Rpi.{uart_print-with_returns}
use charcoalos.Strings.Compare.{terminated}
use charcoalos.Uart.Flush.{platform_console_tx_flush-transmitted}
use charcoalos.Uart.Console.{uart_calls, Simulates, get, put, kernel_calls, uart_calls-Simulates}
use charcoalos.Uart.{platform_console_tx_flush}
use charcoalos.Examples.{machine_with}
use charcoalos.Interrupt.{virt}
use charcoalos.Uart.Device.{Line, Uart, Transmits, Receives, flag}
use charcoalos.Minimal.Rpi
use charcoalos.Prelude.{
  ℕ, ◌+◌, ◌≤◌, ◌<◌, ◌≡◌, refl, sym, ◌∙◌, ◌≢◌, ◌⊎◌, inl, inr, Bool, true, false, not, Option, none,
  some, [], ◌∷◌, ◌++◌, map, append-nil, arith, if◌then◌else◌, set, u8, Bytes, codes,
}

-- A byte that is about to leave, those that have left, those that are to come, and whether the next
-- one of these is not there yet.
record Registers : Type 0 where
  holding : Option ℕ
  on_line : Bytes
  to_come : Bytes
  late : Bool

abbrev rxfe_of : Bytes → Bool → ℕ
rxfe_of [] late = 16
rxfe_of (c ∷ rest) late = if late then 16 else 0

abbrev tx_of : Option ℕ → ℕ
tx_of none = 128
tx_of (some c) = 32 + 8

abbrev held : Option ℕ → Bytes
held none = []
held (some c) = c ∷ []

abbrev take_byte : Bytes → Registers → ℕ × Registers
take_byte [] r = (0, r)
take_byte (c ∷ rest) r = (c, record r { to_come = rest; late = true })

abbrev small_uart : Uart
small_uart = record {
  State = Registers;
  read_flags = λ r. (
    tx_of r.holding + rxfe_of r.to_come r.late,
    record r { holding = none; on_line = r.on_line ++ held r.holding; late = false },
  );
  read_data = λ r. take_byte r.to_come r;
  write_data = λ c r. record r { holding = some (u8 c) };
}

abbrev waiting_bytes : Option ℕ → ℕ
waiting_bytes none = 0
waiting_bytes (some c) = 1

abbrev small_line : Line small_uart
small_line = record {
  sent = λ r. r.on_line ++ held r.holding;
  transmitted = λ r. r.on_line;
  incoming = λ r. map u8 r.to_come;
  backlog = λ r. waiting_bytes r.holding;
  pause = λ r. if r.late then 1 else 0;
  patience = 1;
}

bounded : (h : Option ℕ) → waiting_bytes h ≤ 1
bounded none = omega arith
bounded (some c) = omega arith

not-fixed : (b : Bool) → b ≢ not b
not-fixed true h = cc
not-fixed false h = cc

rxfe-cases : (c : Bytes) (late : Bool) → (rxfe_of c late ≡ 16) ⊎ (rxfe_of c late ≡ 0)
rxfe-cases [] late = inl refl
rxfe-cases (c ∷ rest) true = inl refl
rxfe-cases (c ∷ rest) false = inr refl

-- The flags without those of the receiver.
flag-tx :
    (mask : ℕ) (h : Option ℕ) (c : Bytes) (late b : Bool)
    → flag mask (tx_of h + 16) ≡ b
    → flag mask (tx_of h + 0) ≡ b
    → flag mask (tx_of h + rxfe_of c late) ≡ b
flag-tx mask h c late b with_empty with_byte = elim (rxfe-cases c late) [
  | inl e ↦ rw e with_empty
  | inr e ↦ rw e with_byte
]

held-drains :
    (mask : ℕ) (h : Option ℕ) (c : Bytes) (late b : Bool)
    → flag mask (128 + 16) ≡ not b
    → flag mask (128 + 0) ≡ not b
    → flag mask (tx_of h + rxfe_of c late) ≡ b
    → 0 < waiting_bytes h
held-drains mask none c late b e e' h =
    absurd (not-fixed b (sym h ∙ flag-tx mask none c late (not b) e e'))
held-drains mask (some x) c late b e e' h = omega arith

free-none :
    (h : Option ℕ) (c : Bytes) (late : Bool)
    → flag 32 (tx_of h + rxfe_of c late) ≡ false
    → held h ≡ []
free-none none c late h = refl
free-none (some x) c late h =
    absurd (not-fixed false (sym h ∙ flag-tx 32 (some x) c late true refl refl))

small_line-Transmits : Transmits small_uart small_line
small_line-Transmits = record {
  backlog-le-patience = λ r. bounded r.holding;
  read_keeps = λ r. append-nil _;
  full_drains = λ r h. held-drains 32 r.holding r.to_come r.late true refl refl h;
  nonempty_drains = λ r h. held-drains 128 r.holding r.to_come r.late false refl refl h;
  busy_drains = λ r h. held-drains 8 r.holding r.to_come r.late true refl refl h;
  write_sends = λ r c h. rw (free-none r.holding r.to_come r.late h) refl;
  idle_transmitted = λ r h. sym (append-nil _);
}

empty-set : (h : Option ℕ) → flag 16 (tx_of h + 16) ≡ true
empty-set none = refl
empty-set (some x) = refl

take_byte-sent :
    (c : Bytes) (r : Registers)
    → (take_byte c r).1.on_line ++ held (take_byte c r).1.holding ≡ r.on_line ++ held r.holding
take_byte-sent [] r = refl
take_byte-sent (c ∷ rest) r = refl

byte_there :
    (h : Option ℕ) (c : Bytes) (late : Bool) (r : Registers)
    → flag 16 (tx_of h + rxfe_of c late) ≡ false
    → map u8 c ≡ u8 (take_byte c r).0 ∷ map u8 (take_byte c r).1.to_come
byte_there h [] late r clear = absurd (not-fixed true (sym (empty-set h) ∙ clear))
byte_there h (c ∷ rest) true r clear = absurd (not-fixed true (sym (empty-set h) ∙ clear))
byte_there h (c ∷ rest) false r clear = refl

late_byte :
    (h : Option ℕ) (c rest : Bytes) (late : Bool) (x : ℕ)
    → map u8 c ≡ x ∷ rest
    → flag 16 (tx_of h + rxfe_of c late) ≡ true
    → 0 < (if late then 1 else 0)
late_byte h c rest true x e set = omega arith
late_byte h [] rest false x e set = absurd (cc)
late_byte none (c ∷ c') rest false x e set = absurd (not-fixed false (set))
late_byte (some y) (c ∷ c') rest false x e set = absurd (not-fixed false (set))

small_line-Receives : Receives small_uart small_line
small_line-Receives = record {
  flags_keep = λ r. refl;
  write_keeps = λ r c. refl;
  data_keeps = λ r. take_byte-sent r.to_come r;
  ready_receives = λ r h. byte_there r.holding r.to_come r.late _ h;
  byte_comes = λ r c rest e h. late_byte r.holding r.to_come rest r.late c e h;
}

pause_small : (late : Bool) → (if late then 1 else 0) < 2
pause_small true = omega arith
pause_small false = omega arith

abbrev idle_registers : Registers
idle_registers = record { holding = none; on_line = []; to_come = codes "ok"; late = true }

uart_calls-Simulates_example :
    Simulates small_uart small_line
      (kernel_calls (put 65 ∷ get ∷ put 66 ∷ get ∷ get ∷ []) (machine_with (codes "ok")))
      (uart_calls small_uart 2 (put 65 ∷ get ∷ put 66 ∷ get ∷ get ∷ []) idle_registers)
uart_calls-Simulates_example =
    uart_calls-Simulates small_uart small_line small_line-Transmits small_line-Receives 2
      (put 65 ∷ get ∷ put 66 ∷ get ∷ get ∷ []) (machine_with (codes "ok")) idle_registers
      (omega arith) (λ s. pause_small s.late) (ground arith)
      (record { same_output = refl; same_input = refl })

platform_console_tx_flush-transmitted_example :
    (s' : Registers) × (platform_console_tx_flush small_uart virt 2
        (record idle_registers { holding = some 65 })
      ≡ some s')
    × (s'.on_line ≡ 65 ∷ [])
    × (s'.on_line ++ held s'.holding ≡ 65 ∷ [])
platform_console_tx_flush-transmitted_example =
    platform_console_tx_flush-transmitted small_uart small_line small_line-Transmits virt 2
      (record idle_registers { holding = some 65 }) (omega arith)

uart_print-with_returns_example :
    (s' : Registers) × (Rpi.uart_print small_uart 2
        (terminated (codes "Hello, world!\n") [])
        idle_registers
      ≡ some s')
    × (s'.on_line ++ held s'.holding ≡ with_returns (codes "Hello, world!\n"))
uart_print-with_returns_example =
    uart_print-with_returns small_uart small_line small_line-Transmits 2 (codes "Hello, world!\n")
      [] idle_registers (omega arith) (ground arith) (ground arith)
