-- ===== src/Console.antt =====
-- kernel/Console/IO.c. A text is the list of bytes from a pointer to the end of its object.
pub mod Print
pub mod Hex
pub mod Parse
pub mod Line
pub mod Settles
pub mod Prints
use charcoalos.Endian.Decode.{big_endian}
use charcoalos.Prelude.{
  ℕ, zero, suc, ◌+◌, ◌-◌, ◌*◌, ◌/◌, ◌%◌, ◌^◌, bit_and, bit_or, Bool, ◌&&◌, ◌||◌, Option, none, some,
  [], ◌∷◌, ◌++◌, ltb, leb, ◌==◌, if◌then◌else◌, length, get_elem?, set, u8, u64, Bytes, codes,
  String,
}
use charcoalos.Machine.{
  Machine, Kernel, Outcome, returned, stopped, Stop, waiting, fault, overrun, unfinished, pure,
  stop, continue, ◌>>=◌, ◌>>◌, or_fault, emit,
}
use charcoalos.Strings.{string_length}

-- platform/*/IO.c with the waiting for the UART left out: the byte goes out.
unfoldable pub platform_console_putc : ℕ → Kernel (Unit {0})
platform_console_putc c m = (returned tt, emit m (c ∷ []))

-- The flush comes back when every byte that went out before has left the UART.
unfoldable pub platform_console_tx_flush : Kernel (Unit {0})
platform_console_tx_flush m = (returned tt, record m { transmitted = m.output })

next_byte : Bytes → Kernel ℕ
next_byte [] m = (stopped waiting, m)
next_byte (c ∷ rest) m = (returned c, record m { input = rest })

-- The next byte that the UART has received; with none, the code waits.
unfoldable pub platform_console_getc : Kernel ℕ
unfolding next_byte
platform_console_getc m = next_byte m.input m

unfoldable pub console_putc : ℕ → Kernel (Unit {0})
unfolding platform_console_putc
console_putc c = platform_console_putc c

unfoldable pub console_getc : Kernel ℕ
unfolding platform_console_getc
console_getc = platform_console_getc

-- `while (i < size)`, with `left` rounds to go.
pub console_write : Bytes → ℕ → Kernel (Unit {0})
console_write text zero = pure tt
console_write [] (suc left) = stop fault
console_write (character ∷ text) (suc left) = do
  if character == b'\n' then console_putc b'\r' else pure tt
  console_putc character
  console_write text left

pub console_print : Bytes → Kernel (Unit {0})
console_print text = do size ← or_fault (string_length text); console_write text size

-- A string constant of the source, with its terminator.
unfoldable pub literal : String → Bytes
literal s = codes s ++ (0 ∷ [])

-- `text[i] = c`, which stays within the object or is an overrun.
unfoldable pub store : Bytes → ℕ → ℕ → Kernel Bytes
store text i c = if ltb i (length text) then pure (set text i c) else stop overrun

-- `while (i < size)`: the buffer comes back.
read_from : ℕ → ℕ → Bytes → Kernel Bytes
read_from zero i text = pure text
read_from (suc left) i text = do
  c ← console_getc
  text' ← store text i c
  read_from left (i + 1) text'

pub console_read : Bytes → ℕ → Kernel Bytes
unfolding read_from
console_read text size = if size == 0 then pure text else read_from size 0 text

-- A line ends: terminate it, and echo the end of line.
end_line : ℕ → Bytes → Bool → Kernel Bytes
end_line i text echo = do
  text' ← store text i 0
  if echo then (do console_putc b'\r'; console_putc b'\n') else pure tt
  pure text'

-- One round of the loop reads one byte, so the fuel is one more than the bytes that will come.
pub read_line_loop : ℕ → ℕ → Bytes → ℕ → Bool → Kernel Bytes
unfolding end_line
read_line_loop zero i text size echo = stop unfinished
read_line_loop (suc fuel) i text size echo =
    if ltb (i + 1) size
    then (do
      c ← console_getc
      if c == b'\n' || c == b'\r'
          then end_line i text echo
          else if c == 0x08 || c == 0x7f
          then (if i == 0 then read_line_loop fuel i text size echo else (do
            if echo then console_print (0x08 ∷ b' ' ∷ 0x08 ∷ 0 ∷ []) else pure tt
            read_line_loop fuel (i - 1) text size echo))
          else (do
            text' ← store text i c
            if echo then console_putc c else pure tt
            read_line_loop fuel (i + 1) text' size echo))
    else store text i 0

-- The buffer comes back, with the line in it.
pub console_read_line : Bytes → ℕ → Bool → Kernel Bytes
console_read_line text size echo m =
    if size == 0
    then (returned text, m)
    else read_line_loop (suc (length m.input)) 0 text size echo m

-- A nibble as a character: `lo > 9 ? lo + 'A' - 10 : lo + '0'` in a `uint8_t`.
nibble_char : ℕ → ℕ
nibble_char d = if ltb 9 d then u8 (d + (b'A' - 10)) else u8 (d + b'0')

print_byte : ℕ → Kernel (Unit {0})
print_byte byte = do
  console_putc (nibble_char (bit_and (byte / 2 ^ 4) 15))
  console_putc (nibble_char (bit_and byte 15))

-- `for (size_t i = 0; i < size; ++i)`, with `left` rounds to go.
print_up : ℕ → ℕ → Bytes → Kernel (Unit {0})
print_up zero i bytes = pure tt
print_up (suc left) i bytes = do
  byte ← or_fault (get_elem? bytes i)
  print_byte byte
  print_up left (i + 1) bytes

-- `for (size_t i = size; i > 0; --i)`.
print_down : ℕ → Bytes → Kernel (Unit {0})
print_down zero bytes = pure tt
print_down (suc i) bytes = do
  byte ← or_fault (get_elem? bytes i)
  print_byte byte
  print_down i bytes

pub console_print_hex_bytes : Bytes → ℕ → Kernel (Unit {0})
unfolding print_up
console_print_hex_bytes bytes size = print_up size 0 bytes

pub console_print_hex_value : Bytes → ℕ → Kernel (Unit {0})
unfolding print_down console_print_hex_bytes
console_print_hex_value bytes size m =
    if m.big_endian then console_print_hex_bytes bytes size m else print_down size bytes m

-- How a number lies in memory: from byte `i` on, `left` bytes, on either kind of host.
abbrev pub byte_at : ℕ → ℕ → ℕ
byte_at v i = v / 256 ^ i % 256

abbrev pub little_from : ℕ → ℕ → ℕ → Bytes
little_from zero i v = []
little_from (suc left) i v = byte_at v i ∷ little_from left (i + 1) v

abbrev pub big_bytes : ℕ → ℕ → Bytes
big_bytes zero v = []
big_bytes (suc i) v = byte_at v i ∷ big_bytes i v

abbrev pub value_bytes : Bool → ℕ → ℕ → Bytes
value_bytes big size v = if big then big_bytes size v else little_from size 0 v

-- `console_print_hex_value((void *)&v, size)` of a variable of `size` bytes.
unfoldable pub print_value : ℕ → ℕ → Kernel (Unit {0})
print_value size v m = console_print_hex_value (value_bytes m.big_endian size v) size m

unfoldable pub digit_value : ℕ → Option ℕ
digit_value c =
    if leb b'0' c && leb c b'9'
    then some (c - b'0')
    else if leb b'A' c && leb c b'F'
    then some (c - b'A' + 10)
    else if leb b'a' c && leb c b'f'
    then some (c - b'a' + 10)
    else none

-- `result = (result << 4) | digit`.
shift_in : ℕ → ℕ → ℕ
shift_in result digit = bit_or (u64 (result * 2 ^ 4)) digit

-- `while (digits[i] != '\0' && i < max_chars)`, with `left` = max_chars - i.
hex_from : ℕ → ℕ → Bytes → Option ℕ
hex_from left result [] = none
hex_from zero result (c ∷ digits) = some result
hex_from (suc left) result (c ∷ digits) = if c == 0 then some result else elim (digit_value c) [
  | none ↦ some result
  | some d ↦ hex_from left (shift_in result d) digits
]

-- The `0x` that may stand in front.
pub console_uint64_from_hex : Bytes → Option ℕ
console_uint64_from_hex [] = none
console_uint64_from_hex (c ∷ []) = if c == b'0' then none else hex_from 16 0 (c ∷ [])
console_uint64_from_hex (c ∷ x ∷ digits) =
    if c == b'0' && (x == b'x' || x == b'X')
    then hex_from 16 0 digits
    else hex_from 16 0 (c ∷ x ∷ digits)
