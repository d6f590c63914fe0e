-- ===== src/Uart/Console.antt =====
-- platform/*/IO.c, `platform_console_putc` and `platform_console_getc`: the waiting UART does what the
-- console of the machine does at once.
use charcoalos.Uart.Waits.{wait_while-Left, wait_while-waits}
use charcoalos.Uart.Device.{Uart, flag, Line, Receives, Transmits}
use charcoalos.Uart.{uart_fr_txff, uart_putc, uart_getc, uart_fr_rxfe}
use charcoalos.Console.{platform_console_putc, platform_console_getc}
use charcoalos.Machine.{
  ◌>>=◌, ◌>>◌, pure, stopped, Machine, waiting, Kernel, returned, Outcome, continue,
}
use charcoalos.Prelude.{
  ℕ, ◌<◌, ◌≡◌, refl, sym, ap, ap₂, ◌∙◌, inl, inr, true, Option, none, some, List, [], ◌∷◌, ◌++◌,
  arith, Bool-cases, All, u8, Bytes, IsByte,
}

-- A call of one of the two functions.
pub data Call : Type 0 where
  put : ℕ → Call
  get : Call

abbrev pub IsCall : Call → Type 0
IsCall (put c) = IsByte c
IsCall get = Unit {0}

-- The calls in their order, on the machine's console, and what the calls of `get` returned.
pub kernel_calls : List Call → Kernel Bytes
kernel_calls [] = pure []
kernel_calls (put c ∷ calls) = do platform_console_putc c; kernel_calls calls
kernel_calls (get ∷ calls) = do c ← platform_console_getc; got ← kernel_calls calls; pure (c ∷ got)

-- The byte in front of those that the later calls returned.
abbrev received : {S : Type 0} → ℕ → Option (Bytes × S) → Option (Bytes × S)
received c none = none
received c (some (got, s)) = some (c ∷ got, s)

-- The same calls on the UART, each one with so many reads of the flags at most.
pub uart_calls : (d : Uart) → ℕ → List Call → d.State → Option (Bytes × d.State)
uart_calls d fuel [] s = some ([], s)
uart_calls d fuel (put c ∷ calls) s = elim (uart_putc d fuel c s) [
  | none ↦ none
  | some s' ↦ uart_calls d fuel calls s'
]
uart_calls d fuel (get ∷ calls) s = elim (uart_getc d fuel s) [
  | none ↦ none
  | some (c, s') ↦ received c (uart_calls d fuel calls s')
]

module _ (d : Uart) (l : Line d) where
  open d use {State, read_flags, read_data, write_data}
  open l use {sent, transmitted, incoming, backlog, pause, patience}

  -- The console of the machine is what the line of the UART shows.
  pub record Agrees (m : Machine) (s : State) : Type 0 where
    pub same_output : sent s ≡ m.output
    pub same_input : incoming s ≡ m.input

  -- Both return the same bytes and agree behind the calls, or both wait.
  abbrev pub Simulates : Outcome Bytes × Machine → Option (Bytes × State) → Type 0
  Simulates (returned got, n) r = (s : State) × (r ≡ some (got, s)) × Agrees n s
  Simulates (stopped reason, n) r = (reason ≡ waiting) × (r ≡ none)

  received-Simulates :
      (c : ℕ) (k : Outcome Bytes × Machine) (r : Option (Bytes × State))
      → Simulates k r
      → Simulates (continue k.0 (λ got. pure (c ∷ got)) k.1) (received c r)
  received-Simulates c (returned got, n) r (s, e, agree) = (s, rw (e, received) refl, agree)
  received-Simulates c (stopped reason, n) r (why, e) = (why, rw (e, received) refl)

  -- The flags may be read in between.
  abbrev Keep : State → State → Type 0
  Keep s t = (sent t ≡ sent s) × (incoming t ≡ incoming s)

  module _ (tx : Transmits d l) (rx : Receives d l) where
    Keep-next : (s t : State) → Keep (read_flags s).1 t → Keep s t
    Keep-next s t (a, b) = (a ∙ tx.read_keeps s, b ∙ rx.flags_keep s)

    uart_putc-Agrees :
        (fuel c : ℕ) (m : Machine) (s : State)
        → patience < fuel
        → IsByte c
        → Agrees m s
        → (s' : State) × (uart_putc d fuel c s ≡ some s')
          × Agrees (record m { output = m.output ++ (c ∷ []) }) s'
    unfolding uart_putc
    uart_putc-Agrees fuel c m s enough byte agree =
        let (t, e, free, kept) =
          wait_while-Left d (flag uart_fr_txff) Keep (λ s. (refl, refl)) Keep-next (λ s. Unit {0})
            backlog (λ s _ full. (tt, tx.full_drains s full)) fuel s tt
            (omega (arith, tx.backlog-le-patience s)) in
        let small : u8 c ≡ c = omega arith in
        (
          write_data c (read_flags t).1,
          rw (e, uart_putc) refl,
          record {
            same_output =
                tx.write_sends t c free
                ∙ ap₂ (λ (x : Bytes) (b : ℕ). x ++ (b ∷ [])) (kept.0 ∙ agree.same_output) small;
            same_input = rx.write_keeps _ c ∙ rx.flags_keep t ∙ kept.1 ∙ agree.same_input;
          },
        )

    uart_getc-Agrees :
        (fuel c : ℕ) (rest : Bytes) (m : Machine) (s : State)
        → ((s : State) → pause s < fuel)
        → m.input ≡ c ∷ rest
        → Agrees m s
        → (s' : State) × (uart_getc d fuel s ≡ some (c, s')) × Agrees (record m { input = rest }) s'
    unfolding uart_getc
    uart_getc-Agrees fuel c rest m s enough next agree =
        let (t, e, ready, kept) =
          wait_while-Left d (flag uart_fr_rxfe) Keep (λ s. (refl, refl)) Keep-next
            (λ s. incoming s ≡ c ∷ rest) pause
            (λ s comes empty. (rx.flags_keep s ∙ comes, rx.byte_comes s c rest comes empty)) fuel s
            (agree.same_input ∙ next) (enough s) in
        let s' = (read_data (read_flags t).1).1 in
        let taken : u8 (read_data (read_flags t).1).0 ∷ incoming s' ≡ c ∷ rest =
          sym (rx.ready_receives t ready) ∙ kept.1 ∙ agree.same_input ∙ next in
        let same : u8 (read_data (read_flags t).1).0 ≡ c = cc in
        let after : incoming s' ≡ rest = cc in
        (
          s',
          rw (e, uart_getc) (ap (λ (x : ℕ). some (x, s')) same),
          record {
            same_output =
                rx.data_keeps (read_flags t).1 ∙ tx.read_keeps t ∙ kept.0 ∙ agree.same_output;
            same_input = after;
          },
        )

    no_byte_waits : (s : State) → incoming s ≡ [] → flag uart_fr_rxfe (read_flags s).0 ≡ true
    no_byte_waits s none_comes = elim (Bool-cases (flag uart_fr_rxfe (read_flags s).0)) [
      | inl empty ↦ empty
      | inr ready ↦ let there = rx.ready_receives s ready in cc
    ]

    uart_getc_waits : (fuel : ℕ) (s : State) → incoming s ≡ [] → uart_getc d fuel s ≡ none
    unfolding uart_getc
    uart_getc_waits fuel s nothing =
        let waits =
          wait_while-waits d (flag uart_fr_rxfe) (λ s. incoming s ≡ [])
            (λ s none_comes. (no_byte_waits s none_comes, rx.flags_keep s ∙ none_comes)) fuel s
            nothing in
        rw (waits, uart_getc) refl

    get-Simulates :
        (fuel : ℕ) (calls : List Call) (input : Bytes) (m : Machine) (s : State)
        → patience < fuel
        → ((s : State) → pause s < fuel)
        → ((m : Machine) (s : State)
            → Agrees m s
            → Simulates (kernel_calls calls m) (uart_calls d fuel calls s))
        → m.input ≡ input
        → Agrees m s
        → Simulates (kernel_calls (get ∷ calls) m) (uart_calls d fuel (get ∷ calls) s)
    unfolding kernel_calls uart_calls platform_console_getc
    get-Simulates fuel calls [] m s enough soon later e agree =
        let waits = uart_getc_waits fuel s (agree.same_input ∙ e) in
        rw (e, platform_console_getc) (rw (waits, uart_calls) (refl, refl))
    get-Simulates fuel calls (c ∷ rest) m s enough soon later e agree =
        let (s', taken, agree') = uart_getc-Agrees fuel c rest m s soon e agree in
        rw (e, platform_console_getc)
          (rw (taken, uart_calls)
            (received-Simulates c (kernel_calls calls (record m { input = rest }))
              (uart_calls d fuel calls s') (later (record m { input = rest }) s' agree')))

    -- Behind calls of `platform_console_putc` with bytes and of `platform_console_getc`, in any order, a
    -- PL011 UART and the machine's console agree again, with the same bytes received, or the next call
    -- waits for a byte on both; each loop ends within the reads that the UART needs at most.
    pub uart_calls-Simulates :
        (fuel : ℕ) (calls : List Call) (m : Machine) (s : State)
        → patience < fuel
        → ((s : State) → pause s < fuel)
        → All IsCall calls
        → Agrees m s
        → Simulates (kernel_calls calls m) (uart_calls d fuel calls s)
    unfolding kernel_calls uart_calls platform_console_putc
    uart_calls-Simulates fuel [] m s enough soon bytes agree = (s, refl, agree)
    uart_calls-Simulates fuel (put c ∷ calls) m s enough soon bytes agree =
        let (s', e, agree') = uart_putc-Agrees fuel c m s enough bytes.0 agree in
        rw (e, uart_calls)
          (uart_calls-Simulates fuel calls (record m { output = m.output ++ (c ∷ []) }) s' enough
            soon bytes.1 agree')
    uart_calls-Simulates fuel (get ∷ calls) m s enough soon bytes agree =
        get-Simulates fuel calls m.input m s enough soon
          (λ n t. uart_calls-Simulates fuel calls n t enough soon bytes.1) refl agree
