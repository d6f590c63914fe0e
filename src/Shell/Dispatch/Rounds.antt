-- ===== src/Shell/Dispatch/Rounds.antt =====
-- kernel/Console/Shell.c, `run_shell_loop`.
use charcoalos.Shell.Handlers.Settles.{KeepsInput}
use charcoalos.Shell.Handlers.{Build, Processor}
use charcoalos.Interrupt.{Platform}
use charcoalos.Console.Settles.{Settles-console_print}
use charcoalos.Shell.Dispatch.Settles.{OfSize, dispatch_command-OfSize, commands-Handles, Handles}
use charcoalos.Shell.Dispatch.{
  print_prompt, ShellCommand, shell_rounds, commands, run_shell_loop, dispatch_command,
}
use charcoalos.Console.Line.{console_read_line-Matches}
use charcoalos.Machine.Ends.{Leaves, Leaves-bind, Anything}
use charcoalos.Machine.Settles.{Clean, settles, Settles}
use charcoalos.Console.{console_read_line}
use charcoalos.Console.Line.Editor.{edit, show_first, Edited, Matches, is_end, erasing, is_erase}
use charcoalos.Machine.{◌>>=◌, ◌>>◌, Machine, Outcome, Stop}
use mathlib.Core.Path.{subst}
use charcoalos.Prelude.{
  ℕ, zero, suc, ◌+◌, ◌≤◌, ◌<◌, ◌≡◌, refl, sym, ◌∙◌, inl, inr, true, Option, none, some, List, [],
  ◌∷◌, arith, ltb, Bool-cases, length, Bytes,
}

-- The editor leaves at most so many bytes.
abbrev AtMost : ℕ → Option Edited → Type 0
AtMost n none = Unit {0}
AtMost n (some e) = length e.unread ≤ n

show_first-AtMost :
    (n : ℕ) (first : Bytes) (o : Option Edited) → AtMost n o → AtMost n (show_first first o)
show_first-AtMost n first none h = tt
show_first-AtMost n first (some e) h = h

edit-erase :
    (size : ℕ) (stack keys : Bytes)
    → ((stack' : Bytes) → AtMost (length keys) (edit size stack' keys))
    → AtMost (length keys) (elim stack [
      | [] ↦ edit size [] keys
      | x ∷ stack' ↦ show_first erasing (edit size stack' keys)
    ])
edit-erase size [] keys later = later []
edit-erase size (x ∷ stack) keys later =
    show_first-AtMost _ erasing (edit size stack keys) (later stack)

edit-room :
    (size : ℕ) (stack : Bytes) (c : ℕ) (keys : Bytes)
    → ltb (length stack + 1) size ≡ true
    → ((stack' : Bytes) → AtMost (length keys) (edit size stack' keys))
    → AtMost (length keys) (edit size stack (c ∷ keys))
unfolding edit
edit-room size stack c keys room later = rw room (elim (Bool-cases (is_end c)) [
  | inl ends ↦ rw ends (omega arith)
  | inr more ↦ elim (Bool-cases (is_erase c)) [
    | inl erase ↦ rw (more, erase) (edit-erase size stack keys later)
    | inr keep ↦
        rw (more, keep)
          (show_first-AtMost _ (c ∷ []) (edit size (c ∷ stack) keys) (later (c ∷ stack)))
  ]
])

AtMost-suc : (n : ℕ) (o : Option Edited) → AtMost n o → AtMost (suc n) o
AtMost-suc n none h = tt
AtMost-suc n (some e) h = omega (arith, h)

edit-AtMost : (size : ℕ) (stack keys : Bytes) → AtMost (length keys) (edit size stack keys)
edit-AtMost size stack [] =
    unfold edit in
    elim (Bool-cases (ltb (length stack + 1) size)) [
      | inl room ↦ rw room tt
      | inr full ↦ rw full (omega arith)
    ]
edit-AtMost size stack (c ∷ keys) = elim (Bool-cases (ltb (length stack + 1) size)) [
  | inl room ↦
      AtMost-suc (length keys) (edit size stack (c ∷ keys))
        (edit-room size stack c keys room (λ stack'. edit-AtMost size stack' keys))
  | inr full ↦ unfold edit in (rw full (omega arith))
]

-- What a round of the shell's loop gets: a buffer as long as before, and fewer bytes to come.
abbrev Shrinks : ℕ → Machine → Bytes → Machine → Type 0
Shrinks size m line n = (length line ≡ size) × (length n.input < length m.input)

Matches-Shrinks :
    (size total : ℕ) (m : Machine) (o : Option Edited) (r : Outcome Bytes × Machine)
    → Matches true size total m o r
    → ((e : Edited) → o ≡ some e → length e.unread < length m.input)
    → Leaves (λ s n. Clean s n) (Shrinks total m) r
Matches-Shrinks size total m none (o, n) h later =
    subst (λ (x : Outcome Bytes). Leaves (λ s n. Clean s n) (Shrinks total m) (x, n)) (sym h) tt
Matches-Shrinks size total m (some e) r (after, same, fits, whole) later =
    rw same (whole, later e refl)

edit-Fewer : (keys : Bytes) (e : Edited) → edit 255 [] keys ≡ some e → length e.unread < length keys
edit-Fewer [] e h = unfold edit in (ground (arith, h))
edit-Fewer (c ∷ keys) e h =
    let bound = edit-room 255 [] c keys refl (λ stack'. edit-AtMost 255 stack' keys) in
    let fewer : length e.unread ≤ length keys = subst (AtMost (length keys)) h bound in omega arith

read_line-Shrinks :
    (text : Bytes) (m : Machine)
    → 255 ≤ length text
    → Leaves (λ s n. Clean s n) (Shrinks (length text) m) (console_read_line text 255 true m)
read_line-Shrinks text m h =
    Matches-Shrinks 255 (length text) m (edit 255 [] m.input) _
      (console_read_line-Matches text 255 true m (omega arith) h) (edit-Fewer m.input)

abbrev pub Stops : Stop → Machine → Type 0
Stops s n = Clean s n

abbrev pub Never : Unit {0} → Machine → Type 0
Never _ n = ⊥

-- The code does not return, and stops properly.
abbrev pub NeverReturns : Outcome (Unit {0}) × Machine → Type 0
NeverReturns = Leaves Stops Never

Settles-print_prompt : Settles print_prompt
unfolding print_prompt
Settles-print_prompt = Settles-console_print _

fewer :
    (fuel total : ℕ) (a b c : Bytes)
    → total < suc fuel
    → length a < total
    → b ≡ a
    → c ≡ b
    → length c < fuel
fewer fuel total a b c enough read e e' =
    subst (λ (x : Bytes). length x < fuel) (sym (e' ∙ e)) (omega arith)

module _ (known : List ShellCommand) (h : Handles known) where
  shell_rounds-Proper :
      (fuel : ℕ) (command : Bytes) (m : Machine)
      → length m.input < fuel
      → 255 ≤ length command
      → NeverReturns (shell_rounds fuel known command m)
  unfolding shell_rounds
  shell_rounds-Proper zero command m enough long = absurd (omega arith)
  shell_rounds-Proper (suc fuel) command m enough long =
      let again = λ (command' : Bytes). print_prompt >> shell_rounds fuel known command' in
      let round = λ (line : Bytes). dispatch_command known line >>= again in
      Leaves-bind Stops (Shrinks (length command) m) Never (console_read_line command 255 true)
        round m (read_line-Shrinks command m long)
        λ line n read.
          Leaves-bind Stops (λ command' n'. (length command' ≡ length line) × (n'.input ≡ n.input))
            Never (dispatch_command known line) again n
            (settles (OfSize (length line)) (dispatch_command known line)
              (dispatch_command-OfSize known line h) n)
            λ command' n' dispatched.
              Leaves-bind Stops (λ _ n''. Unit {0} × (n''.input ≡ n'.input)) Never print_prompt
                (λ _. shell_rounds fuel known command') n'
                (settles Anything print_prompt Settles-print_prompt n')
                λ _ n'' printed.
                  shell_rounds-Proper fuel command' n''
                    (fewer fuel (length m.input) n.input n'.input n''.input enough read.1
                      dispatched.1 printed.1)
                    (omega (arith, long, read.0, dispatched.0))

-- Whatever bytes come, on either platform, with a buffer of at least 255 bytes and where an `svc`
-- takes no console input: the shell's loop does not return, each round of it ends, and no write falls
-- outside of the line's buffer or of the array of tokens. It stops only where it waits for more
-- input, where the system halts or restarts, or where a read falls outside of an object;
-- where it halts, all that was printed has left the UART.
pub run_shell_loop-NeverReturns :
    (p : Platform) (cpu : Processor) (build : Build) (command : Bytes) (m : Machine)
    → KeepsInput cpu
    → 255 ≤ length command
    → NeverReturns (run_shell_loop (commands p cpu build) command m)
unfolding run_shell_loop
run_shell_loop-NeverReturns p cpu build command m keeps long =
    let known = commands p cpu build in
    Leaves-bind Stops (λ _ n. Unit {0} × (n.input ≡ m.input)) Never print_prompt
      (λ _. shell_rounds (suc (length m.input)) known command) m
      (settles Anything print_prompt Settles-print_prompt m)
      λ _ n kept.
        shell_rounds-Proper known (commands-Handles p cpu build keeps) (suc (length m.input))
          command n
          (subst (λ (x : Bytes). length x < suc (length m.input)) (sym kept.1) (omega arith)) long
