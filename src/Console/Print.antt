-- ===== src/Console/Print.antt =====
-- kernel/Console/IO.c, output: a print appends to the console's bytes and does nothing else.
use charcoalos.Prelude.{
  ℕ, ◌≡◌, refl, sym, ap, inl, inr, [], ◌∷◌, ◌++◌, append-nil, arith, ◌==◌, if◌then◌else◌, ==_iff,
  Bool-cases, length, Bytes, codes, String,
}
use charcoalos.Machine.{Machine, returned, emit, emit-emit}
use charcoalos.Strings.Compare.{IsText, terminated, string_length-terminated}
use charcoalos.Console.{console_putc, console_write, console_print, literal}

-- Each newline has a carriage return in front.
abbrev pub with_returns : Bytes → Bytes
with_returns [] = []
with_returns (c ∷ text) =
    if c == b'\n' then b'\r' ∷ c ∷ with_returns text else c ∷ with_returns text

-- The text that a string holds, up to its terminator.
abbrev pub until_nul : Bytes → Bytes
until_nul [] = []
until_nul (c ∷ text) = if c == 0 then [] else c ∷ until_nul text

unfoldable pub shown : String → Bytes
shown s = with_returns (until_nul (codes s))

pub console_putc_lem : (c : ℕ) (m : Machine) → console_putc c m ≡ (returned tt, emit m (c ∷ []))
unfolding console_putc
console_putc_lem c m = refl

pub emit-nil : (m : Machine) → emit m [] ≡ m
emit-nil m = λ i. record m { output = append-nil m.output i }

-- A write of the first `length text` bytes of an object.
pub console_write_lem :
    (text rest : Bytes) (m : Machine)
    → console_write (text ++ rest) (length text) m ≡ (returned tt, emit m (with_returns text))
unfolding console_write
console_write_lem [] rest m = ap (λ (x : Machine). (returned tt, x)) (sym (emit-nil m))
console_write_lem (c ∷ text) rest m = elim (Bool-cases (c == b'\n')) [
  | inl newline ↦ rw newline (simp (console_putc_lem, console_write_lem text, emit-emit))
  | inr other ↦ rw other (simp (console_putc_lem, console_write_lem text, emit-emit))
]

until_nul-IsText : (text : Bytes) → IsText (until_nul text)
until_nul-IsText [] = tt
until_nul-IsText (c ∷ text) = ground (arith, until_nul-IsText text)

until_nul_split :
    (text rest : Bytes) → (after : Bytes) × (text ++ (0 ∷ rest) ≡ terminated (until_nul text) after)
until_nul_split [] rest = (rest, refl)
until_nul_split (c ∷ text) rest = elim (Bool-cases (c == 0)) [
  | inl ends ↦
      (text ++ (0 ∷ rest), rw ends (ap (λ (x : ℕ). x ∷ (text ++ (0 ∷ rest))) ((==_iff c 0).0 ends)))
  | inr other ↦ let (after, e) = until_nul_split text rest in (after, rw other (ap (◌∷◌ c) e))
]

pub print_terminated :
    (text rest : Bytes) (m : Machine)
    → IsText text
    → console_print (terminated text rest) m ≡ (returned tt, emit m (with_returns text))
unfolding console_print
print_terminated text rest m h =
    rw (string_length-terminated text rest h) (console_write_lem text (0 ∷ rest) m)

-- Printing a null-terminated object sends its text up to the first terminator, each newline behind
-- a carriage return, and changes nothing else of the machine.
pub console_print_lem :
    (text rest : Bytes) (m : Machine)
    → console_print (text ++ (0 ∷ rest)) m ≡ (returned tt, emit m (with_returns (until_nul text)))
console_print_lem text rest m =
    let (after, e) = until_nul_split text rest in
    rw e (print_terminated (until_nul text) after m (until_nul-IsText text))

pub print_literal :
    (s : String) (m : Machine) → console_print (literal s) m ≡ (returned tt, emit m (shown s))
unfolding literal shown
print_literal s m = console_print_lem (codes s) [] m
