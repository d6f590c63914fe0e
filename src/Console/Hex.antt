-- ===== src/Console/Hex.antt =====
-- kernel/Console/IO.c, hexadecimal numbers: what is printed, and that parsing reads it back.
use charcoalos.Prelude.{
  ℕ, zero, suc, ◌+◌, ◌-◌, ◌/◌, ◌%◌, ◌≤◌, ◌<◌, ◌≡◌, sym, ap, ◌∙◌, Bool, true, false, some, [], ◌∷◌,
  ◌++◌, append_assoc, arith, ltb, if◌then◌else◌, length, get_elem?, low_nibble, Bytes,
  get_elem?-append, length-snoc,
}
use charcoalos.Machine.{Machine, returned, emit, emit-emit, Outcome, pure}
use charcoalos.Console.Print.{console_putc_lem, emit-nil}
use charcoalos.Console.{
  nibble_char, print_byte, print_up, print_down, console_print_hex_value, print_value, byte_at,
  big_bytes, value_bytes, little_from,
}

-- The digit of a number below 16, as the program writes it.
abbrev pub hex_char : ℕ → ℕ
hex_char d = if ltb d 10 then b'0' + d else b'A' + (d - 10)

abbrev pub hex_pair : ℕ → Bytes
hex_pair b = hex_char (b / 16) ∷ hex_char (b % 16) ∷ []

-- The `2 * size` digits of a number, the most significant first.
abbrev pub hex_digits : ℕ → ℕ → Bytes
hex_digits zero v = []
hex_digits (suc i) v = hex_pair (byte_at v i) ++ hex_digits i v

nibble_char-hex_char : (d : ℕ) → d < 16 → nibble_char d ≡ hex_char d
unfolding nibble_char
nibble_char-hex_char d h = ground arith

print_byte_lem :
    (b : ℕ) (m : Machine) → b < 256 → print_byte b m ≡ (returned tt, emit m (hex_pair b))
unfolding print_byte
print_byte_lem b m h =
    rw (low_nibble (b / 16) (omega arith), low_nibble b h)
      (rw
        (
          nibble_char-hex_char (b / 16 % 16) (omega arith),
          nibble_char-hex_char (b % 16) (omega arith),
        )
        (let e : b / 16 % 16 ≡ b / 16 = omega arith in rw e (simp (console_putc_lem, emit-emit))))

get_elem?-little_from :
    (left i v k : ℕ) → k < left → get_elem? (little_from left i v) k ≡ some (byte_at v (i + k))
get_elem?-little_from zero i v k h = absurd (omega arith)
get_elem?-little_from (suc left) i v zero h = let e : i + 0 ≡ i = omega arith in rw e
get_elem?-little_from (suc left) i v (suc k) h =
    let e : i + suc k ≡ i + 1 + k = omega arith in
    rw e (get_elem?-little_from left (i + 1) v k (omega arith))

-- A print of `a`, then one of `b`.
then_emit :
    (m : Machine) (a b : Bytes) {r : Outcome (Unit {0}) × Machine}
    → r ≡ (returned tt, emit (emit m a) b)
    → r ≡ (returned tt, emit m (a ++ b))
then_emit m a b e = e ∙ ap (λ (x : Machine). (returned tt, x)) (emit-emit m a b)

no_emit : (m : Machine) → pure tt m ≡ (returned tt, emit m [])
no_emit m = ap (λ (x : Machine). (returned tt, x)) (sym (emit-nil m))

print_down_lem :
    (i size v : ℕ) (m : Machine)
    → i ≤ size
    → print_down i (little_from size 0 v) m ≡ (returned tt, emit m (hex_digits i v))
unfolding print_down
print_down_lem zero size v m h = no_emit m
print_down_lem (suc i) size v m h = rw (get_elem?-little_from size 0 v i h) (
    let e : 0 + i ≡ i = omega arith in
    rw e (
      rw (print_byte_lem (byte_at v i) m (omega arith)) (
        then_emit m (hex_pair (byte_at v i)) (hex_digits i v)
          (print_down_lem i size v (emit m (hex_pair (byte_at v i))) (omega arith)))))

print_up_lem :
    (left : ℕ) (done : Bytes) (v : ℕ) (m : Machine)
    → print_up left (length done) (done ++ big_bytes left v) m
      ≡ (returned tt, emit m (hex_digits left v))
unfolding print_up
print_up_lem zero done v m = no_emit m
print_up_lem (suc left) done v m =
    rw (get_elem?-append {0} done (big_bytes left v) (byte_at v left)) (
      rw (print_byte_lem (byte_at v left) m (omega arith)) (
        then_emit m (hex_pair (byte_at v left)) (hex_digits left v) (
          rw
            (
              length-snoc done (byte_at v left),
              ← append_assoc done (byte_at v left ∷ []) (big_bytes left v),
            )
            (print_up_lem left (done ++ (byte_at v left ∷ [])) v
              (emit m (hex_pair (byte_at v left)))))))

in_order :
    (big : Bool) (size v : ℕ) (m : Machine)
    → (if big
        then print_up size 0 (value_bytes big size v) m
        else print_down size (value_bytes big size v) m)
      ≡ (returned tt, emit m (hex_digits size v))
in_order true size v m = print_up_lem size [] v m
in_order false size v m = print_down_lem size size v m (omega arith)

-- A number that lies in memory in the byte order of the host is printed as its hexadecimal digits,
-- two for each byte, the most significant first, on either kind of host.
pub console_print_hex_value_lem :
    (size v : ℕ) (m : Machine)
    → console_print_hex_value (value_bytes m.big_endian size v) size m
      ≡ (returned tt, emit m (hex_digits size v))
unfolding console_print_hex_value
console_print_hex_value_lem size v m = in_order m.big_endian size v m

pub print_value_lem :
    (size v : ℕ) (m : Machine) → print_value size v m ≡ (returned tt, emit m (hex_digits size v))
unfolding print_value
print_value_lem size v m = console_print_hex_value_lem size v m
