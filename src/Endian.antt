-- ===== src/Endian.antt =====
-- kernel/Hardware/Endian.h. `little_endian` is CHARCOALOS_LITTLE_ENDIAN, the byte order of the host.
-- A pointer is the list of bytes from it to the end of its object; `none` is a read past that end.
pub mod Decode
use charcoalos.Prelude.{
  ℕ, ◌+◌, ◌*◌, ◌/◌, ◌%◌, ◌^◌, Bool, Option, none, some, Bytes, get_elem?, bit_or, u32, u64,
  if◌then◌else◌,
}

infixl 5 ◌>>=◌
abbrev ◌>>=◌ {ℓ κ} : {A : Type ℓ} {B : Type κ} → Option A → (A → Option B) → Option B
none >>= f = none
some a >>= f = f a

-- The compiler's __builtin_bswap16, __builtin_bswap32 and __builtin_bswap64.
abbrev bswap16 : ℕ → ℕ
bswap16 v = v % 2 ^ 8 * 2 ^ 8 + v / 2 ^ 8

abbrev pub bswap32 : ℕ → ℕ
bswap32 v = bswap16 (v % 2 ^ 16) * 2 ^ 16 + bswap16 (v / 2 ^ 16)

abbrev bswap64 : ℕ → ℕ
bswap64 v = bswap32 (v % 2 ^ 32) * 2 ^ 32 + bswap32 (v / 2 ^ 32)

pub be16toh_u16 : Bool → ℕ → ℕ
be16toh_u16 little_endian big_endian_value =
    if little_endian then bswap16 big_endian_value else big_endian_value

pub be32toh_u32 : Bool → ℕ → ℕ
be32toh_u32 little_endian big_endian_value =
    if little_endian then bswap32 big_endian_value else big_endian_value

pub be64toh_u64 : Bool → ℕ → ℕ
be64toh_u64 little_endian big_endian_value =
    if little_endian then bswap64 big_endian_value else big_endian_value

unfoldable pub read_be32_from_address : Bytes → Option ℕ
read_be32_from_address byte_ptr = do
  b0 ← get_elem? byte_ptr 0
  b1 ← get_elem? byte_ptr 1
  b2 ← get_elem? byte_ptr 2
  b3 ← get_elem? byte_ptr 3
  some (bit_or (bit_or (bit_or (u32 (b0 * 2 ^ 24)) (u32 (b1 * 2 ^ 16))) (u32 (b2 * 2 ^ 8))) b3)

-- The four high bytes, then `| byte << k` for each of the four low ones.
unfoldable pub read_be64_from_address : Bytes → Option ℕ
read_be64_from_address byte_ptr = do
  b0 ← get_elem? byte_ptr 0
  b1 ← get_elem? byte_ptr 1
  b2 ← get_elem? byte_ptr 2
  b3 ← get_elem? byte_ptr 3
  b4 ← get_elem? byte_ptr 4
  b5 ← get_elem? byte_ptr 5
  b6 ← get_elem? byte_ptr 6
  b7 ← get_elem? byte_ptr 7
  let high =
      bit_or (bit_or (bit_or (u64 (b0 * 2 ^ 56)) (u64 (b1 * 2 ^ 48))) (u64 (b2 * 2 ^ 40)))
        (u64 (b3 * 2 ^ 32))
  let middle = bit_or (bit_or high (u64 (b4 * 2 ^ 24))) (u64 (b5 * 2 ^ 16))
  some (bit_or (bit_or middle (u64 (b6 * 2 ^ 8))) b7)
