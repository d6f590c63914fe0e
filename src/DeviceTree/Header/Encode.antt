-- ===== src/DeviceTree/Header/Encode.antt =====
-- The header of a blob that is written as the specification says is read, printed and accepted.
use charcoalos.Console.Prints.{Prints, Prints-literal, Prints-value, Prints-then}
use charcoalos.Endian.Decode.{be32_bytes}
use charcoalos.DeviceTree.Encode.Cursor.{read32-pointed, pointed-next, plus_lem}
use charcoalos.DeviceTree.Header.{
  print_field, read_sized, check_header, read_header, print_header, read_fields,
}
use charcoalos.DeviceTree.Types.{Blob, read32, plus, DtbHeader, pointed}
use charcoalos.Prelude.{
  ℕ, ◌+◌, ◌*◌, ◌^◌, ◌≤◌, ◌<◌, ◌≡◌, refl, ap, ◌∙◌, false, not, List, [], ◌∷◌, ◌++◌, arith, ltb, ◌==◌,
  length, All, Bytes, String,
}
use charcoalos.Machine.{returned, Machine}

abbrev pub encode_words : List ℕ → Bytes
encode_words [] = []
encode_words (v ∷ vs) = be32_bytes v ++ encode_words vs

-- The fields in the order of `struct DTBHeader`.
abbrev pub header_fields : DtbHeader → List ℕ
header_fields h =
    h.magic ∷ h.total_size ∷ h.off_dt_struct ∷ h.off_dt_strings ∷ h.off_mem_rsvmap ∷ h.version
    ∷ h.last_comp_version ∷ h.boot_cpuid_phys ∷ h.size_dt_strings ∷ h.size_dt_struct ∷ []

-- The numbers in a header that the parser accepts.
pub record IsAccepted (h : DtbHeader) : Type 0 where
  pub magic_is : h.magic ≡ 0xd00dfeed
  pub fields_fit : All (λ v. v < 2 ^ 32) (header_fields h)
  pub header_inside : 40 ≤ h.total_size
  pub rsvmap_inside : h.off_mem_rsvmap < h.total_size
  pub struct_inside : h.off_dt_struct + h.size_dt_struct ≤ h.total_size
  pub strings_inside : h.off_dt_strings + h.size_dt_strings ≤ h.total_size

pub check_header-IsAccepted :
    (h : DtbHeader) (m : Machine) → IsAccepted h → check_header h m ≡ (returned tt, m)
unfolding check_header
check_header-IsAccepted h m accepted = ground arith

print_field-Prints : (label : String) (v : ℕ) → Prints (print_field label v)
unfolding print_field
print_field-Prints label v =
    Prints-then _ _ (Prints-literal label)
      (Prints-then _ _ (Prints-value 4 v) (Prints-literal "\n"))

pub print_header-Prints : (h : DtbHeader) → Prints (print_header h)
unfolding print_header
print_header-Prints h = Prints-then _ _ (print_field-Prints _ _) (
    Prints-then _ _ (print_field-Prints _ _) (
      Prints-then _ _ (print_field-Prints _ _) (
        Prints-then _ _ (print_field-Prints _ _) (
          Prints-then _ _ (print_field-Prints _ _) (
            Prints-then _ _ (print_field-Prints _ _) (
              Prints-then _ _ (print_field-Prints _ _) (
                Prints-then _ _ (print_field-Prints _ _)
                  (Prints-then _ _ (print_field-Prints _ _) (print_field-Prints _ _)))))))))

module _ (b : Blob) (m : Machine) where
  -- The word behind some others.
  read_word :
      (c : ℕ) (front : List ℕ) (v : ℕ) (back : List ℕ) (rest : Bytes)
      → b.dtb ≤ c
      → pointed b c ≡ encode_words (front ++ (v ∷ back)) ++ rest
      → v < 2 ^ 32
      → read32 b (c + 4 * length front) m ≡ (returned v, m)
  read_word c [] v back rest low at small =
      ap (λ (x : ℕ). read32 b x m) (omega arith)
      ∙ read32-pointed b c v (encode_words back ++ rest) m at small
  read_word c (f ∷ front) v back rest low at small =
      ap (λ (x : ℕ). read32 b x m) (omega arith)
      ∙ read_word (c + 4) front v back rest (omega arith)
          (pointed-next b c (be32_bytes f) (encode_words (front ++ (v ∷ back)) ++ rest) low at)
          small

  -- A field of the header.
  field :
      (front : List ℕ) (v : ℕ) (back : List ℕ) (rest : Bytes)
      → b.dtb + 4 * length front + 4 ≤ 2 ^ 64
      → pointed b b.dtb ≡ encode_words (front ++ (v ∷ back)) ++ rest
      → v < 2 ^ 32
      → read32 b (plus b.dtb (4 * length front)) m ≡ (returned v, m)
  field front v back rest top at small =
      ap (λ (x : ℕ). read32 b x m) (plus_lem b.dtb (4 * length front) (omega arith))
      ∙ read_word b.dtb front v back rest (omega arith) at small

  read_fields_lem :
      (h : DtbHeader) (rest : Bytes)
      → IsAccepted h
      → b.dtb + 40 ≤ 2 ^ 64
      → pointed b b.dtb ≡ encode_words (header_fields h) ++ rest
      → read_fields b h.magic h.total_size m ≡ (returned h, m)
  unfolding read_fields
  read_fields_lem h rest accepted top at =
      let fit = accepted.fields_fit in
      let word2 =
        field (h.magic ∷ h.total_size ∷ []) h.off_dt_struct
          (h.off_dt_strings ∷ h.off_mem_rsvmap ∷ h.version ∷ h.last_comp_version ∷ h.boot_cpuid_phys
            ∷ h.size_dt_strings ∷ h.size_dt_struct ∷ [])
          rest (omega arith) at fit.1.1.0 in
      let word3 =
        field (h.magic ∷ h.total_size ∷ h.off_dt_struct ∷ []) h.off_dt_strings
          (h.off_mem_rsvmap ∷ h.version ∷ h.last_comp_version ∷ h.boot_cpuid_phys
            ∷ h.size_dt_strings ∷ h.size_dt_struct ∷ [])
          rest (omega arith) at fit.1.1.1.0 in
      let word4 =
        field (h.magic ∷ h.total_size ∷ h.off_dt_struct ∷ h.off_dt_strings ∷ []) h.off_mem_rsvmap
          (h.version ∷ h.last_comp_version ∷ h.boot_cpuid_phys ∷ h.size_dt_strings
            ∷ h.size_dt_struct ∷ [])
          rest (omega arith) at fit.1.1.1.1.0 in
      let word5 =
        field (h.magic ∷ h.total_size ∷ h.off_dt_struct ∷ h.off_dt_strings ∷ h.off_mem_rsvmap ∷ [])
          h.version
          (h.last_comp_version ∷ h.boot_cpuid_phys ∷ h.size_dt_strings ∷ h.size_dt_struct ∷ []) rest
          (omega arith) at fit.1.1.1.1.1.0 in
      let word6 =
        field
          (h.magic ∷ h.total_size ∷ h.off_dt_struct ∷ h.off_dt_strings ∷ h.off_mem_rsvmap
            ∷ h.version ∷ [])
          h.last_comp_version (h.boot_cpuid_phys ∷ h.size_dt_strings ∷ h.size_dt_struct ∷ []) rest
          (omega arith) at fit.1.1.1.1.1.1.0 in
      let word7 =
        field
          (h.magic ∷ h.total_size ∷ h.off_dt_struct ∷ h.off_dt_strings ∷ h.off_mem_rsvmap
            ∷ h.version ∷ h.last_comp_version ∷ [])
          h.boot_cpuid_phys (h.size_dt_strings ∷ h.size_dt_struct ∷ []) rest (omega arith) at
          fit.1.1.1.1.1.1.1.0 in
      let word8 =
        field
          (h.magic ∷ h.total_size ∷ h.off_dt_struct ∷ h.off_dt_strings ∷ h.off_mem_rsvmap
            ∷ h.version ∷ h.last_comp_version ∷ h.boot_cpuid_phys ∷ [])
          h.size_dt_strings (h.size_dt_struct ∷ []) rest (omega arith) at fit.1.1.1.1.1.1.1.1.0 in
      let word9 =
        field
          (h.magic ∷ h.total_size ∷ h.off_dt_struct ∷ h.off_dt_strings ∷ h.off_mem_rsvmap
            ∷ h.version ∷ h.last_comp_version ∷ h.boot_cpuid_phys ∷ h.size_dt_strings ∷ [])
          h.size_dt_struct [] rest (omega arith) at fit.1.1.1.1.1.1.1.1.1.0 in
      simp (word2, word3, word4, word5, word6, word7, word8, word9) refl

  pub read_header-encode_words :
      (h : DtbHeader) (rest : Bytes)
      → IsAccepted h
      → b.dtb + 40 ≤ 2 ^ 64
      → pointed b b.dtb ≡ encode_words (header_fields h) ++ rest
      → read_header b m ≡ (returned h, m)
  unfolding read_header read_sized
  read_header-encode_words h rest accepted top at =
      let word0 = read32-pointed b b.dtb h.magic _ m at accepted.fields_fit.0 in
      let word1 =
        field (h.magic ∷ []) h.total_size
          (h.off_dt_struct ∷ h.off_dt_strings ∷ h.off_mem_rsvmap ∷ h.version ∷ h.last_comp_version
            ∷ h.boot_cpuid_phys ∷ h.size_dt_strings ∷ h.size_dt_struct ∷ [])
          rest (omega arith) at accepted.fields_fit.1.0 in
      let magic : not (h.magic == 0xd00dfeed) ≡ false = rw accepted.magic_is refl in
      let size : ltb h.total_size 40 ≡ false = ground (arith, accepted.header_inside) in
      simp (word0, magic, word1, size, read_fields_lem h rest accepted top at) refl
