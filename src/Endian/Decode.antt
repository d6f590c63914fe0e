-- ===== src/Endian/Decode.antt =====
-- kernel/Hardware/Endian.h: the shifts and ors are positional notation in base 256.
use charcoalos.Prelude.{
  ℕ, ◌+◌, ◌*◌, ◌/◌, ◌%◌, ◌^◌, ◌<◌, ◌≡◌, refl, sym, ap, ◌∙◌, Bool, true, false, none, some, [], ◌∷◌,
  ◌++◌, arith, ltb, if◌then◌else◌, length, take, All, bit_or_disjoint, Bytes, IsByte,
}
use charcoalos.Endian.{read_be32_from_address, read_be64_from_address, be32toh_u32}

-- The number that big-endian bytes stand for, from the most significant on.
abbrev pub big_endian : ℕ → Bytes → ℕ
big_endian acc [] = acc
big_endian acc (b ∷ bytes) = big_endian (acc * 256 + b) bytes

pub read_be32-value :
    (b0 b1 b2 b3 : ℕ) (rest : Bytes)
    → All IsByte (b0 ∷ b1 ∷ b2 ∷ b3 ∷ [])
    → read_be32_from_address (b0 ∷ b1 ∷ b2 ∷ b3 ∷ rest)
      ≡ some (big_endian 0 (b0 ∷ b1 ∷ b2 ∷ b3 ∷ []))
unfolding read_be32_from_address
read_be32-value b0 b1 b2 b3 rest (h0, (h1, (h2, (h3, _)))) = ground (
  arith,
  bit_or_disjoint 24 b0 (b1 * 2 ^ 16),
  bit_or_disjoint 16 (b0 * 256 + b1) (b2 * 2 ^ 8),
  bit_or_disjoint 8 (b0 * 65536 + b1 * 256 + b2) b3,
)

pub read_be64-value :
    (b0 b1 b2 b3 b4 b5 b6 b7 : ℕ) (rest : Bytes)
    → All IsByte (b0 ∷ b1 ∷ b2 ∷ b3 ∷ b4 ∷ b5 ∷ b6 ∷ b7 ∷ [])
    → read_be64_from_address (b0 ∷ b1 ∷ b2 ∷ b3 ∷ b4 ∷ b5 ∷ b6 ∷ b7 ∷ rest)
      ≡ some (big_endian 0 (b0 ∷ b1 ∷ b2 ∷ b3 ∷ b4 ∷ b5 ∷ b6 ∷ b7 ∷ []))
unfolding read_be64_from_address
read_be64-value b0 b1 b2 b3 b4 b5 b6 b7 rest (h0, (h1, (h2, (h3, (h4, (h5, (h6, (h7, _)))))))) =
    ground (
      arith,
      bit_or_disjoint 56 b0 (b1 * 2 ^ 48),
      bit_or_disjoint 48 (big_endian b0 (b1 ∷ [])) (b2 * 2 ^ 40),
      bit_or_disjoint 40 (big_endian b0 (b1 ∷ b2 ∷ [])) (b3 * 2 ^ 32),
      bit_or_disjoint 32 (big_endian b0 (b1 ∷ b2 ∷ b3 ∷ [])) (b4 * 2 ^ 24),
      bit_or_disjoint 24 (big_endian b0 (b1 ∷ b2 ∷ b3 ∷ b4 ∷ [])) (b5 * 2 ^ 16),
      bit_or_disjoint 16 (big_endian b0 (b1 ∷ b2 ∷ b3 ∷ b4 ∷ b5 ∷ [])) (b6 * 2 ^ 8),
      bit_or_disjoint 8 (big_endian b0 (b1 ∷ b2 ∷ b3 ∷ b4 ∷ b5 ∷ b6 ∷ [])) b7,
    )

-- A big-endian 32-bit read takes the first four bytes of the object, most significant first, and
-- faults exactly on an object of fewer than four bytes.
pub read_be32_lem :
    (text : Bytes)
    → All IsByte text
    → read_be32_from_address text
      ≡ (if ltb (length text) 4 then none else some (big_endian 0 (take 4 text)))
read_be32_lem [] h = unfold read_be32_from_address in refl
read_be32_lem (_ ∷ []) h = unfold read_be32_from_address in refl
read_be32_lem (_ ∷ _ ∷ []) h = unfold read_be32_from_address in refl
read_be32_lem (_ ∷ _ ∷ _ ∷ []) h = unfold read_be32_from_address in refl
read_be32_lem (b0 ∷ b1 ∷ b2 ∷ b3 ∷ rest) (h0, (h1, (h2, (h3, _)))) =
    ground (arith, read_be32-value b0 b1 b2 b3 rest (h0, (h1, (h2, (h3, tt)))))

-- What a load of four bytes in the byte order of the host gives.
abbrev pub host_load32 : Bool → ℕ → ℕ → ℕ → ℕ → ℕ
host_load32 little_endian b0 b1 b2 b3 =
    if little_endian
    then big_endian 0 (b3 ∷ b2 ∷ b1 ∷ b0 ∷ [])
    else big_endian 0 (b0 ∷ b1 ∷ b2 ∷ b3 ∷ [])

-- `be32toh_u32` after a host-order load, and the byte-wise `read_be32_from_address`, agree on both
-- kinds of host.
pub be32toh-read_be32 :
    (little_endian : Bool) (b0 b1 b2 b3 : ℕ) (rest : Bytes)
    → All IsByte (b0 ∷ b1 ∷ b2 ∷ b3 ∷ [])
    → some (be32toh_u32 little_endian (host_load32 little_endian b0 b1 b2 b3))
      ≡ read_be32_from_address (b0 ∷ b1 ∷ b2 ∷ b3 ∷ rest)
unfolding be32toh_u32
be32toh-read_be32 true b0 b1 b2 b3 rest (h0, (h1, (h2, (h3, u)))) =
    ap some (omega arith) ∙ sym (read_be32-value b0 b1 b2 b3 rest (h0, (h1, (h2, (h3, u)))))
be32toh-read_be32 false b0 b1 b2 b3 rest h = sym (read_be32-value b0 b1 b2 b3 rest h)

-- The bytes of a 64-bit number, most significant first.
abbrev pub be64_bytes : ℕ → Bytes
be64_bytes v =
    v / 2 ^ 56 % 256
    ∷ v / 2 ^ 48 % 256
    ∷ v / 2 ^ 40 % 256
    ∷ v / 2 ^ 32 % 256
    ∷ v / 2 ^ 24 % 256
    ∷ v / 2 ^ 16 % 256
    ∷ v / 2 ^ 8 % 256
    ∷ v % 256
    ∷ []

abbrev pub be32_bytes : ℕ → Bytes
be32_bytes v = v / 2 ^ 24 % 256 ∷ v / 2 ^ 16 % 256 ∷ v / 2 ^ 8 % 256 ∷ v % 256 ∷ []

-- Reading back the big-endian encoding of a 32-bit or of a 64-bit number, whatever follows it,
-- gives the number.
pub read_be-encode :
    (v w : ℕ) (rest : Bytes)
    → v < 2 ^ 32
    → w < 2 ^ 64
    → (read_be32_from_address (be32_bytes v ++ rest) ≡ some v)
      × (read_be64_from_address (be64_bytes w ++ rest) ≡ some w)
read_be-encode v w rest hv hw = (
  read_be32-value _ _ _ _ rest (omega arith) ∙ ap some (omega arith),
  read_be64-value _ _ _ _ _ _ _ _ rest (omega arith) ∙ ap some (omega arith),
)
