-- ===== src/Console/Settles.antt =====
-- kernel/Console/IO.c: printing leaves the input alone.
use charcoalos.Console.Print.{console_putc_lem}
use charcoalos.Console.Hex.{print_value_lem}
use charcoalos.Machine.Settles.{
  SettlesOn, Settles-or_fault, Settles, Settles-bind, Settles-if, Settles-record_effect,
  Settles-pure, Settles-gets, Settles-stop,
}
use charcoalos.Strings.{string_length}
use charcoalos.Console.{print_value, console_print, console_write}
use charcoalos.Prelude.{ℕ, zero, suc, refl, inl, inr, [], ◌∷◌, ◌==◌, Bool-cases, Bytes}

pub Settles-print_value : (size v : ℕ) → Settles (print_value size v)
unfolding SettlesOn
Settles-print_value size v m = rw (print_value_lem size v m) (tt, refl)

Settles-console_write : (text : Bytes) (size : ℕ) → Settles (console_write text size)
unfolding SettlesOn console_write
Settles-console_write text zero m = (tt, refl)
Settles-console_write [] (suc left) m = tt
Settles-console_write (c ∷ text) (suc left) m = elim (Bool-cases (c == b'\n')) [
  | inl newline ↦ rw newline (simp console_putc_lem (Settles-console_write text left _))
  | inr other ↦ rw other (simp console_putc_lem (Settles-console_write text left _))
]

pub Settles-console_print : (text : Bytes) → Settles (console_print text)
unfolding console_print
Settles-console_print text =
    Settles-bind _ _ (Settles-or_fault (string_length text)) λ size. Settles-console_write text size

pub ruleset printing = (
  Settles-if, Settles-bind, Settles-print_value, Settles-console_print, Settles-pure, Settles-gets,
  Settles-or_fault, Settles-record_effect, Settles-stop,
)
