-- ===== src/DeviceTree/Header/Bounds.antt =====
-- The header that passes the checks is well-formed.
use charcoalos.Console.Print.{print_literal}
use charcoalos.Console.Hex.{print_value_lem}
use charcoalos.DeviceTree.Header.{read_sized, print_header, check_header, read_fields, read_header}
use charcoalos.Panic.{panic_lem, panic}
use charcoalos.Endian.Decode.{big_endian, read_be32_lem, read_be32-value}
use charcoalos.DeviceTree.Types.{read32, Blob, pointed, DtbHeader, plus}
use charcoalos.DeviceTree.Sound.{Refused, IsHeader}
use charcoalos.Machine.Ends.{Ends, Anything, Ends-bind, Ends-if}
use charcoalos.Machine.{or_fault, Machine}
use charcoalos.Endian.{read_be32_from_address}
use charcoalos.Prelude.{
  ℕ, zero, suc, ◌+◌, ◌-◌, ◌^◌, ◌≤◌, ◌<◌, ◌≡◌, refl, inl, inr, not, [], ◌∷◌, arith, ltb, leb, ◌==◌,
  Bool-cases, drop, All, Bytes, IsByte, String,
}

All-drop : (n : ℕ) (text : Bytes) → All IsByte text → All IsByte (drop n text)
All-drop zero text h = h
All-drop (suc n) [] h = h
All-drop (suc n) (c ∷ text) h = All-drop n text h.1

pointed-bytes : (b : Blob) (address : ℕ) → All IsByte b.contents → All IsByte (pointed b address)
pointed-bytes b address h = elim (Bool-cases (ltb address b.dtb)) [
  | inl before ↦ rw (before, pointed) tt
  | inr inside ↦ rw (inside, pointed) (All-drop (address - b.dtb) b.contents h)
]

big_endian-lt :
    (b0 b1 b2 b3 : ℕ)
    → All IsByte (b0 ∷ b1 ∷ b2 ∷ b3 ∷ [])
    → big_endian 0 (b0 ∷ b1 ∷ b2 ∷ b3 ∷ []) < 2 ^ 32
big_endian-lt b0 b1 b2 b3 (h0, (h1, (h2, (h3, _)))) = omega arith

read_be32-Ends :
    (text : Bytes) (m : Machine)
    → All IsByte text
    → Ends Refused (λ v. v < 2 ^ 32) (or_fault (read_be32_from_address text) m).0
read_be32-Ends [] m h = rw (read_be32_lem [] h) (inr refl)
read_be32-Ends (a ∷ []) m h = rw (read_be32_lem (a ∷ []) h) (inr refl)
read_be32-Ends (a ∷ b ∷ []) m h = rw (read_be32_lem (a ∷ b ∷ []) h) (inr refl)
read_be32-Ends (a ∷ b ∷ c ∷ []) m h = rw (read_be32_lem (a ∷ b ∷ c ∷ []) h) (inr refl)
read_be32-Ends (a ∷ b ∷ c ∷ d ∷ text) m (ha, (hb, (hc, (hd, _)))) =
    let four : All IsByte (a ∷ b ∷ c ∷ d ∷ []) = (ha, (hb, (hc, (hd, tt)))) in
    rw (read_be32-value a b c d text four) (big_endian-lt a b c d four)

pub read32-Ends :
    (b : Blob) (address : ℕ) (m : Machine)
    → All IsByte b.contents
    → Ends Refused (λ v. v < 2 ^ 32) (read32 b address m).0
unfolding read32
read32-Ends b address m h = read_be32-Ends (pointed b address) m (pointed-bytes b address h)

pub panic-Refused :
    {A : Type 0} (P : A → Type 0) (s : String) (m : Machine) → Ends Refused P (panic s m).0
panic-Refused P s m = rw panic_lem (inl refl)

-- What is read of a header, before the checks of the offsets.
pub record IsRead (h : DtbHeader) : Type 0 where
  pub magic_is : h.magic ≡ 0xd00dfeed
  pub total_size_is : 40 ≤ h.total_size
  pub total_size_lt : h.total_size < 2 ^ 32

read_fields-Ends :
    (b : Blob) (magic total_size : ℕ) (m : Machine)
    → All IsByte b.contents
    → magic ≡ 0xd00dfeed
    → 40 ≤ total_size
    → total_size < 2 ^ 32
    → Ends Refused IsRead (read_fields b magic total_size m).0
unfolding read_fields
read_fields-Ends b magic total_size m h p q r =
    Ends-bind _ _ _ (read32 b (plus b.dtb 8)) _ m (read32-Ends b _ m h) λ _ m1 _.
      Ends-bind _ _ _ (read32 b (plus b.dtb 12)) _ m1 (read32-Ends b _ m1 h) λ _ m2 _.
        Ends-bind _ _ _ (read32 b (plus b.dtb 16)) _ m2 (read32-Ends b _ m2 h) λ _ m3 _.
          Ends-bind _ _ _ (read32 b (plus b.dtb 20)) _ m3 (read32-Ends b _ m3 h) λ _ m4 _.
            Ends-bind _ _ _ (read32 b (plus b.dtb 24)) _ m4 (read32-Ends b _ m4 h) λ _ m5 _.
              Ends-bind _ _ _ (read32 b (plus b.dtb 28)) _ m5 (read32-Ends b _ m5 h) λ _ m6 _.
                Ends-bind _ _ _ (read32 b (plus b.dtb 32)) _ m6 (read32-Ends b _ m6 h) λ _ m7 _.
                  Ends-bind _ _ _ (read32 b (plus b.dtb 36)) _ m7 (read32-Ends b _ m7 h)
                    λ _ m8 _. record { magic_is = p; total_size_is = q; total_size_lt = r }

pub read_header-Ends :
    (b : Blob) (m : Machine) → All IsByte b.contents → Ends Refused IsRead (read_header b m).0
unfolding read_header read_sized
read_header-Ends b m h = Ends-bind _ _ _ (read32 b b.dtb) _ m (read32-Ends b _ m h) λ magic n _.
    Ends-if _ _ (not (magic == 0xd00dfeed)) _ _ n (λ _. panic-Refused _ _ n)
      λ known. Ends-bind _ _ _ (read32 b (plus b.dtb 4)) _ n (read32-Ends b _ n h) λ total n' bound.
        Ends-if _ _ (ltb total 40) _ _ n' (λ _. panic-Refused _ _ n')
          λ enough. read_fields-Ends b magic total n' h (ground arith) (ground arith) bound

pub print_header-Ends : (h : DtbHeader) (m : Machine) → Ends Refused Anything (print_header h m).0
unfolding print_header
print_header-Ends h m = simp (print_literal, print_value_lem) tt

pub check_header-Ends :
    (h : DtbHeader) (m : Machine) → IsRead h → Ends Refused (λ _. IsHeader h) (check_header h m).0
unfolding check_header
check_header-Ends h m r =
    Ends-if _ _ (leb h.total_size h.off_mem_rsvmap) _ _ m (λ _. panic-Refused _ _ m)
      λ rsvmap.
        Ends-if _ _ (ltb h.total_size (h.off_dt_struct + h.size_dt_struct)) _ _ m
          (λ _. panic-Refused _ _ m)
          λ structure.
            Ends-if _ _ (ltb h.total_size (h.off_dt_strings + h.size_dt_strings)) _ _ m
              (λ _. panic-Refused _ _ m) λ strings. ground arith
