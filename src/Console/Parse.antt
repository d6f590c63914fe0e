-- ===== src/Console/Parse.antt =====
-- kernel/Console/IO.c, `console_uint64_from_hex`: what it reads, and that it reads back what is
-- printed.
use charcoalos.Console.Hex.{hex_pair, hex_digits, hex_char}
use charcoalos.Strings.Compare.{IsText, terminated}
use charcoalos.Console.{digit_value, shift_in, hex_from, console_uint64_from_hex, byte_at}
use native.Mathlib.Nat.{
  div-div-eq-div-mul, mod-add-div, mod-eq_of_lt, pow-suc, one-le-pow, mul-le-mul_left,
  mul-le-mul_right,
}
use charcoalos.Prelude.{
  ℕ, zero, suc, ◌+◌, ◌-◌, ◌*◌, ◌/◌, ◌%◌, ◌^◌, ◌≤◌, ◌<◌, ◌≡◌, refl, ap, ◌∙◌, inl, inr, ◌&&◌, ◌||◌,
  none, some, List, [], ◌∷◌, ◌++◌, append-nil, arith, ◌==◌, if◌then◌else◌, Option-cases,
  bit_or_disjoint, Bytes,
}

-- The values of the hexadecimal digits that a text begins with, `n` at most.
abbrev pub hex_prefix : ℕ → Bytes → List ℕ
hex_prefix zero text = []
hex_prefix (suc n) [] = []
hex_prefix (suc n) (c ∷ text) = elim (digit_value c) [ none ↦ [] | some d ↦ d ∷ hex_prefix n text ]

-- Digits in base 16, behind those that make `acc`.
abbrev pub hex_number : ℕ → List ℕ → ℕ
hex_number acc [] = acc
hex_number acc (d ∷ digits) = hex_number (acc * 16 + d) digits

-- A text without the `0x` or `0X` that may stand in front.
abbrev pub skip_0x : Bytes → Bytes
skip_0x (z ∷ x ∷ text) = if z == b'0' && (x == b'x' || x == b'X') then text else z ∷ x ∷ text
skip_0x text = text

digit_value-lt : (c d : ℕ) → digit_value c ≡ some d → d < 16
unfolding digit_value
digit_value-lt c d h = ground arith

shift_in_lem : (result d : ℕ) → result < 2 ^ 60 → d < 16 → shift_in result d ≡ result * 16 + d
unfolding shift_in
shift_in_lem result d h k = ground (arith, bit_or_disjoint 4 result d)

-- The digits still to come fit: `(acc + 1) * 16 ^ left ≤ 2 ^ 64`.
room_now : (left acc : ℕ) → (acc + 1) * 16 ^ suc left ≤ 2 ^ 64 → acc < 2 ^ 60
room_now left acc h = omega (
  arith,
  pow-suc 16 left,
  ap (λ (t : ℕ). (acc + 1) * t) (pow-suc 16 left),
  mul-le-mul_left ((acc + 1) * 16) (one-le-pow left 16 (omega arith)),
)

room_next :
    (left acc d : ℕ)
    → d < 16
    → (acc + 1) * 16 ^ suc left ≤ 2 ^ 64
    → (acc * 16 + d + 1) * 16 ^ left ≤ 2 ^ 64
room_next left acc d k h = omega (
  arith,
  ap (λ (t : ℕ). (acc + 1) * t) (pow-suc 16 left),
  mul-le-mul_right {m = acc * 16 + d + 1} {n = (acc + 1) * 16} (16 ^ left) (omega arith),
)

hex_from_lem :
    (left acc : ℕ) (text rest : Bytes)
    → IsText text
    → (acc + 1) * 16 ^ left ≤ 2 ^ 64
    → hex_from left acc (terminated text rest) ≡ some (hex_number acc (hex_prefix left text))
unfolding hex_from
hex_from_lem zero acc [] rest h k = refl
hex_from_lem zero acc (c ∷ text) rest h k = refl
hex_from_lem (suc left) acc [] rest h k = refl
hex_from_lem (suc left) acc (c ∷ text) rest h k = elim (Option-cases (digit_value c)) [
  | inl stops ↦ ground (arith, h.0)
  | inr (d, at) ↦ ground (
    arith,
    h.0,
    shift_in_lem acc d (room_now left acc k) (digit_value-lt c d at),
    hex_from_lem left (acc * 16 + d) text rest h.1 (room_next left acc d (digit_value-lt c d at) k),
  )
]

skip_0x-IsText : (text : Bytes) → IsText text → IsText (skip_0x text)
skip_0x-IsText [] h = tt
skip_0x-IsText (z ∷ []) h = h
skip_0x-IsText (z ∷ x ∷ text) h = ground arith

hex_number-lt :
    (left acc : ℕ) (text : Bytes)
    → (acc + 1) * 16 ^ left ≤ 2 ^ 64
    → hex_number acc (hex_prefix left text) < 2 ^ 64
hex_number-lt zero acc text k = omega arith
hex_number-lt (suc left) acc [] k = omega (arith, room_now left acc k)
hex_number-lt (suc left) acc (c ∷ text) k = elim (Option-cases (digit_value c)) [
  | inl stops ↦ rw (stops, hex_prefix) (omega (arith, room_now left acc k))
  | inr (d, at) ↦
      rw (at, hex_prefix)
        (hex_number-lt left (acc * 16 + d) text (room_next left acc d (digit_value-lt c d at) k))
]

hex_value_lem :
    (text rest : Bytes)
    → IsText text
    → console_uint64_from_hex (terminated text rest)
      ≡ some (hex_number 0 (hex_prefix 16 (skip_0x text)))
unfolding console_uint64_from_hex
hex_value_lem [] [] h = hex_from_lem 16 0 [] [] tt (omega arith)
hex_value_lem [] (r ∷ rest) h = hex_from_lem 16 0 [] (r ∷ rest) tt (omega arith)
hex_value_lem (z ∷ []) rest h = ground (arith, hex_from_lem 16 0 (z ∷ []) rest h (omega arith))
hex_value_lem (z ∷ x ∷ text) rest h = ground (
  arith,
  hex_from_lem 16 0 text rest h.1.1 (omega arith),
  hex_from_lem 16 0 (z ∷ x ∷ text) rest h (omega arith),
)

-- On a null-terminated text `console_uint64_from_hex` reads within the object and gives the number
-- that the first hexadecimal digits make, sixteen at most, after a `0x` or `0X` if there is one; it
-- never wraps.
pub console_uint64_from_hex_lem :
    (text rest : Bytes)
    → IsText text
    → (console_uint64_from_hex (terminated text rest)
        ≡ some (hex_number 0 (hex_prefix 16 (skip_0x text))))
      × (hex_number 0 (hex_prefix 16 (skip_0x text)) < 2 ^ 64)
console_uint64_from_hex_lem text rest h =
    (hex_value_lem text rest h, hex_number-lt 16 0 (skip_0x text) (omega arith))

digit_value-hex_char : (d : ℕ) → d < 16 → digit_value (hex_char d) ≡ some d
unfolding digit_value
digit_value-hex_char d h = ground arith

hex_prefix-hex_pair :
    (n b : ℕ) (text : Bytes)
    → b < 256
    → hex_prefix (suc (suc n)) (hex_pair b ++ text) ≡ b / 16 ∷ b % 16 ∷ hex_prefix n text
hex_prefix-hex_pair n b text h =
    rw (digit_value-hex_char (b / 16) (omega arith), hex_prefix)
      (rw (digit_value-hex_char (b % 16) (omega arith), hex_prefix))

-- The low `i + 1` bytes of a number: byte `i`, then the low `i` bytes.
mod_split : (v p : ℕ) → 0 < p → v % (p * 256) ≡ v / p % 256 * p + v % p
mod_split v p h = omega (
  arith,
  ap (λ (t : ℕ). p * 256 * t) (div-div-eq-div-mul v p 256),
  mod-add-div v p,
  mod-add-div v (p * 256),
  ap (λ (t : ℕ). p * t) (mod-add-div (v / p) 256),
)

hex_number-hex_digits :
    (i n acc v : ℕ) (text : Bytes)
    → hex_number acc (hex_prefix (i + i + n) (hex_digits i v ++ text))
      ≡ hex_number (acc * 256 ^ i + v % 256 ^ i) (hex_prefix n text)
hex_number-hex_digits zero n acc v text =
    let e : 0 + 0 + n ≡ n = omega arith in
    let f : acc * 256 ^ 0 + v % 256 ^ 0 ≡ acc = omega arith in rw (e, f)
hex_number-hex_digits (suc i) n acc v text =
    let e : suc i + suc i + n ≡ suc (suc (i + i + n)) = omega arith in
    let f : (acc * 16 + byte_at v i / 16) * 16 + byte_at v i % 16 ≡ acc * 256 + byte_at v i =
      omega arith in
    rw (e, hex_prefix-hex_pair (i + i + n) (byte_at v i) (hex_digits i v ++ text) (omega arith))
      (ap (λ (x : ℕ). hex_number x (hex_prefix (i + i + n) (hex_digits i v ++ text))) f
        ∙ hex_number-hex_digits i n (acc * 256 + byte_at v i) v text
        ∙ ap (λ (x : ℕ). hex_number x (hex_prefix n text))
            (omega (
              arith,
              pow-suc 256 i,
              ap (λ (t : ℕ). acc * t) (pow-suc 256 i),
              mod_split v (256 ^ i) (one-le-pow i 256 (omega arith)),
              ap (λ (t : ℕ). v % t) (pow-suc 256 i),
            )))

hex_digits-IsText : (i v : ℕ) → IsText (hex_digits i v)
hex_digits-IsText zero v = tt
hex_digits-IsText (suc i) v = (ground arith, (ground arith, hex_digits-IsText i v))

hex_prefix-nil : (n : ℕ) → hex_prefix n [] ≡ []
hex_prefix-nil zero = refl
hex_prefix-nil (suc n) = refl

skip_0x-hex_digits : (i v : ℕ) → skip_0x (hex_digits (suc i) v) ≡ hex_digits (suc i) v
skip_0x-hex_digits i v = ground arith

hex_number_whole :
    (size v : ℕ) → size ≤ 8 → v < 256 ^ size → hex_number 0 (hex_prefix 16 (hex_digits size v)) ≡ v
hex_number_whole size v k l =
    let e : 16 ≡ size + size + (16 - (size + size)) = omega arith in
    rw (e, ← append-nil (hex_digits size v))
      (hex_number-hex_digits size (16 - (size + size)) 0 v []
        ∙ rw hex_prefix-nil (omega (arith, mod-eq_of_lt l)))

-- Printing a number of `size` bytes (1 to 8) and parsing the digits back gives the number, with
-- and without a `0x` in front, whatever follows the terminator.
pub console_uint64_from_hex-hex_digits :
    (size v : ℕ) (rest : Bytes)
    → 0 < size
    → size ≤ 8
    → v < 256 ^ size
    → (console_uint64_from_hex (terminated (hex_digits size v) rest) ≡ some v)
      × (console_uint64_from_hex (b'0' ∷ b'x' ∷ terminated (hex_digits size v) rest) ≡ some v)
console_uint64_from_hex-hex_digits zero v rest h k l = absurd (omega arith)
console_uint64_from_hex-hex_digits (suc i) v rest h k l = (
  hex_value_lem (hex_digits (suc i) v) rest (hex_digits-IsText (suc i) v)
      ∙ ap some (
          ap (λ (t : Bytes). hex_number 0 (hex_prefix 16 t)) (skip_0x-hex_digits i v)
          ∙ hex_number_whole (suc i) v k l),
  hex_value_lem (b'0' ∷ b'x' ∷ hex_digits (suc i) v) rest
        (omega arith, (omega arith, hex_digits-IsText (suc i) v))
      ∙ ap some (hex_number_whole (suc i) v k l),
)
