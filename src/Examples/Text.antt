-- ===== src/Examples/Text.antt =====
-- Strings, the console, the byte order and the tokens of a command.
use charcoalos.Console.Print.{until_nul, console_print_lem, with_returns}
use charcoalos.Console.Hex.{console_print_hex_value_lem, hex_digits}
use charcoalos.Console.Parse.{
  skip_0x, hex_prefix, console_uint64_from_hex_lem, hex_number, console_uint64_from_hex-hex_digits,
}
use charcoalos.Console.Line.{console_read_line-Matches}
use charcoalos.Console.Line.Editor.{Matches, edit}
use charcoalos.Endian.Decode.{
  be32_bytes, be32toh-read_be32, read_be32_lem, be64_bytes, read_be-encode, big_endian, host_load32,
}
use charcoalos.Shell.Tokens.Words.{tokenize_command-words, IsTokenized}
use charcoalos.Shell.Tokens.{Tokenized, tokenize_command}
use charcoalos.Strings.Compare.{
  terminated, string_compare_with_length_lem, holds, string_compare_lem,
}
use charcoalos.Strings.{string_compare_with_length, string_compare}
use charcoalos.Machine.{emit, returned}
use charcoalos.Endian.{read_be64_from_address, be32toh_u32, read_be32_from_address}
use charcoalos.Examples.{machine_with, quiet_machine}
use charcoalos.Console.{
  console_print_hex_value, value_bytes, console_uint64_from_hex, console_print, console_read_line,
}
use charcoalos.Prelude.{
  ◌^◌, ◌<◌, ◌≡◌, ◌↔◌, Bool, true, none, some, [], ◌∷◌, ◌++◌, arith, ltb, if◌then◌else◌, Bytes,
  codes,
}

tokenize_command-words_example :
    (found : Tokenized) × (tokenize_command
        (terminated (codes "add 0x1 0x2") [])
        (0 ∷ 0 ∷ [])
        2
        quiet_machine
      ≡ (returned found, quiet_machine))
    × IsTokenized (codes "add 0x1 0x2") 2 2 found
tokenize_command-words_example =
    tokenize_command-words (codes "add 0x1 0x2") [] (0 ∷ 0 ∷ []) 2 quiet_machine (ground arith)
      (omega arith) (omega arith) (omega arith)

-- A typing error, corrected.
abbrev typed : Bytes
typed = b'a' ∷ b'x' ∷ 0x7f ∷ b'd' ∷ b'd' ∷ b'\r' ∷ []

abbrev buffer : Bytes
buffer = 0 ∷ 0 ∷ 0 ∷ 0 ∷ 0 ∷ []

console_read_line-Matches_example :
    Matches true 5 5
      (machine_with typed)
      (edit 5 [] typed)
      (console_read_line buffer 5 true (machine_with typed))
console_read_line-Matches_example =
    console_read_line-Matches buffer 5 true (machine_with typed) (omega arith) (omega arith)

console_uint64_from_hex_lem_example :
    (console_uint64_from_hex (terminated (codes "0x1fg") [])
      ≡ some (hex_number 0 (hex_prefix 16 (skip_0x (codes "0x1fg")))))
    × (hex_number 0 (hex_prefix 16 (skip_0x (codes "0x1fg"))) < 2 ^ 64)
console_uint64_from_hex_lem_example = console_uint64_from_hex_lem (codes "0x1fg") [] (ground arith)

console_uint64_from_hex-hex_digits_example :
    (console_uint64_from_hex (terminated (hex_digits 2 0xbeef) []) ≡ some 0xbeef)
    × (console_uint64_from_hex (b'0' ∷ b'x' ∷ terminated (hex_digits 2 0xbeef) []) ≡ some 0xbeef)
console_uint64_from_hex-hex_digits_example =
    console_uint64_from_hex-hex_digits 2 0xbeef [] (omega arith) (omega arith) (omega arith)

string_compare_lem_example :
    (answer : Bool) × (string_compare (terminated (codes "help") []) (terminated (codes "info") [])
      ≡ some answer)
    × ((answer ≡ true) ↔ (codes "help" ≡ codes "info"))
string_compare_lem_example =
    string_compare_lem (codes "help") (codes "info") [] [] (ground arith) (ground arith)

string_compare_with_length_lem_example :
    string_compare_with_length (codes "regs") (terminated (codes "reg") []) 3 true
    ≡ (if ltb 3 4 then some (holds (codes "reg") (codes "regs")) else none)
string_compare_with_length_lem_example =
    string_compare_with_length_lem (codes "regs") (codes "reg") []

console_print_hex_value_lem_example :
    console_print_hex_value (value_bytes quiet_machine.big_endian 2 0xbeef) 2 quiet_machine
    ≡ (returned tt, emit quiet_machine (hex_digits 2 0xbeef))
console_print_hex_value_lem_example = console_print_hex_value_lem 2 0xbeef quiet_machine

console_print_lem_example :
    console_print (codes "one\n" ++ (0 ∷ [])) quiet_machine
    ≡ (returned tt, emit quiet_machine (with_returns (until_nul (codes "one\n"))))
console_print_lem_example = console_print_lem (codes "one\n") [] quiet_machine

read_be-encode_example :
    (read_be32_from_address (be32_bytes 0xd00dfeed ++ []) ≡ some 0xd00dfeed)
    × (read_be64_from_address (be64_bytes 0x40000000 ++ []) ≡ some 0x40000000)
read_be-encode_example = read_be-encode 0xd00dfeed 0x40000000 [] (omega arith) (omega arith)

read_be32_lem_example :
    read_be32_from_address (0xd0 ∷ 0x0d ∷ 0xfe ∷ 0xed ∷ [])
    ≡ (if ltb 4 4 then none else some (big_endian 0 (0xd0 ∷ 0x0d ∷ 0xfe ∷ 0xed ∷ [])))
read_be32_lem_example =
    read_be32_lem (0xd0 ∷ 0x0d ∷ 0xfe ∷ 0xed ∷ [])
      (omega arith, (omega arith, (omega arith, (omega arith, tt))))

be32toh-read_be32_example :
    some (be32toh_u32 true (host_load32 true 0xd0 0x0d 0xfe 0xed))
    ≡ read_be32_from_address (0xd0 ∷ 0x0d ∷ 0xfe ∷ 0xed ∷ [])
be32toh-read_be32_example =
    be32toh-read_be32 true 0xd0 0x0d 0xfe 0xed []
      (omega arith, (omega arith, (omega arith, (omega arith, tt))))
