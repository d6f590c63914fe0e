-- ===== src/Shell/Handlers/Add.antt =====
-- kernel/Console/Shell.c, `add_handler`.
use charcoalos.Console.Print.{print_literal, shown}
use charcoalos.Console.Hex.{print_value_lem, hex_digits}
use charcoalos.Console.Parse.{
  hex_prefix, skip_0x, console_uint64_from_hex-hex_digits, console_uint64_from_hex_lem, hex_number,
}
use charcoalos.Shell.Handlers.{add_handler, hex_argument}
use charcoalos.Strings.Compare.{terminated, IsText}
use charcoalos.Machine.{emit, Machine, emit-emit, returned}
use charcoalos.Prelude.{ℕ, ◌+◌, ◌%◌, ◌^◌, ◌<◌, ◌≡◌, refl, [], ◌∷◌, ◌++◌, arith, Bytes}

-- The number that a text in hexadecimal stands for.
abbrev pub hex_value : Bytes → ℕ
hex_value text = hex_number 0 (hex_prefix 16 (skip_0x text))

-- With two arguments, `add` prints the sum of the numbers that they stand for, as 64 bits have it, in
-- sixteen hexadecimal digits and a new line, and succeeds; any texts will do.
pub add_handler_lem :
    (name a b after_a after_b : Bytes) (m : Machine)
    → IsText a
    → IsText b
    → add_handler 3 (name ∷ terminated a after_a ∷ terminated b after_b ∷ []) m
      ≡ (returned 0, emit m (hex_digits 8 ((hex_value a + hex_value b) % 2 ^ 64) ++ shown "\n"))
unfolding add_handler hex_argument
add_handler_lem name a b after_a after_b m ha hb =
    rw ((console_uint64_from_hex_lem a after_a ha).0, (console_uint64_from_hex_lem b after_b hb).0)
      (simp (print_literal, print_value_lem, emit-emit) refl)

-- The sum of two numbers that are printed by the console is printed for their digits.
pub add_handler-hex_digits :
    (name after_a after_b : Bytes) (a b : ℕ) (m : Machine)
    → a < 2 ^ 64
    → b < 2 ^ 64
    → add_handler 3
        (name ∷ terminated (hex_digits 8 a) after_a ∷ terminated (hex_digits 8 b) after_b ∷ [])
        m
      ≡ (returned 0, emit m (hex_digits 8 ((a + b) % 2 ^ 64) ++ shown "\n"))
unfolding add_handler hex_argument
add_handler-hex_digits name after_a after_b a b m ha hb =
    rw
      (
        (console_uint64_from_hex-hex_digits 8 a after_a (omega arith) (omega arith) ha).0,
        (console_uint64_from_hex-hex_digits 8 b after_b (omega arith) (omega arith) hb).0,
      )
      (simp (print_literal, print_value_lem, emit-emit) refl)
