-- ===== src/Exception/Syndrome.antt =====
-- arch/arm64/ExceptionHandler.c, the fields of ESR_EL1.
use charcoalos.Exception.{exception_class_from_esr_el1, iss_from_esr_el1}
use charcoalos.Prelude.{ℕ, ◌+◌, ◌-◌, ◌*◌, ◌/◌, ◌^◌, ◌<◌, ◌≡◌, ap, ◌∙◌, arith, bit_and, bit_and_low}

-- The register from its fields: what stands above bit 31, the exception class, the length of the
-- instruction, and the syndrome of the class.
abbrev pub esr_el1_of : ℕ → ℕ → ℕ → ℕ → ℕ
esr_el1_of above class length syndrome =
    above * 2 ^ 32 + class * 2 ^ 26 + length * 2 ^ 25 + syndrome

-- From any value of ESR_EL1 the handler takes the exception class and the syndrome that the
-- processor put there, whatever the other fields are.
pub esr_el1-fields :
    (above class length syndrome : ℕ)
    → class < 2 ^ 6
    → length < 2
    → syndrome < 2 ^ 25
    → (exception_class_from_esr_el1 (esr_el1_of above class length syndrome) ≡ class)
      × (iss_from_esr_el1 (esr_el1_of above class length syndrome) ≡ syndrome)
esr_el1-fields above class length syndrome fits bit fits' =
    let shifted : esr_el1_of above class length syndrome / 2 ^ 26 ≡ above * 2 ^ 6 + class =
      omega arith in
    let low : esr_el1_of above class length syndrome
        ≡ (above * 2 ^ 7 + class * 2 + length) * 2 ^ 25 + syndrome =
      omega arith in
    (
      ap (λ (x : ℕ). bit_and x (2 ^ 6 - 1)) shifted ∙ bit_and_low 6 above class fits,
      ap (λ (x : ℕ). bit_and x (2 ^ 25 - 1)) low
          ∙ bit_and_low 25 (above * 2 ^ 7 + class * 2 + length) syndrome fits',
    )
