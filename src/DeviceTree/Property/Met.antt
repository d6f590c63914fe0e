-- ===== src/DeviceTree/Property/Met.antt =====
-- kernel/Hardware/DeviceTree.c, lines 318 to 338, in a node that describes memory: what has been met.
use charcoalos.DeviceTree.Property.Roles.{is_named, noted, says_memory}
use charcoalos.DeviceTree.Encode.{Property}
use charcoalos.DeviceTree.Property.{Walk}
use charcoalos.Memory.Regions.{encode_regions}
use charcoalos.Strings.Compare.{same, same_iff}
use charcoalos.Memory.{MemoryRegion}
use charcoalos.Console.{literal}
use charcoalos.Prelude.{
  ℕ, ◌≡◌, refl, sym, ap, ◌∙◌, inl, inr, Bool, true, false, ◌||◌, Option, none, some, List, ◌++◌,
  if◌then◌else◌, Bool-cases, length, Bytes, codes,
}

-- The property says that its node describes memory, gives the regions, or is another.
pub record IsOfMemory (a n : ℕ) (regions : List MemoryRegion) (p : Property) : Type 0 where
  pub type_value : is_named "device_type" p ≡ true → says_memory p ≡ true
  pub reg_value : is_named "reg" p ≡ true → p.value ≡ encode_regions a n regions

-- Whether `device_type` and `reg` have been met.
abbrev pub Typed : Bool → Walk → Type 0
Typed typed w = w.current_node_device_type ≡ (if typed then some (literal "memory") else none)

abbrev pub Given : ℕ → ℕ → List MemoryRegion → Bool → Walk → Type 0
Given a n regions true w =
    (tail : Bytes) × (w.current_node_reg ≡ some (encode_regions a n regions ++ tail))
    × (w.current_node_reg_size ≡ length (encode_regions a n regions))
Given a n regions false w = w.current_node_reg ≡ none

-- A property is not named `device_type` and `reg`.
named_once : (p : Property) → is_named "device_type" p ≡ true → is_named "reg" p ≡ false
named_once p typed = ap (same (codes "reg")) (sym ((same_iff (codes "device_type") p.name).0 typed))

noted-type :
    (reg : Bytes) (p : Property) (w : Walk)
    → (is_named "device_type" p ≡ true → says_memory p ≡ true)
    → (noted reg p w).current_node_device_type
      ≡ (if is_named "device_type" p then some (literal "memory") else w.current_node_device_type)
noted-type reg p w says = elim (Bool-cases (is_named "device_type" p)) [
  | inl is_type ↦ rw is_type (rw (says is_type) refl)
  | inr other ↦ rw other (elim (Bool-cases (is_named "reg" p)) [
    | inl is_reg ↦ rw is_reg refl
    | inr neither ↦ rw neither refl
  ])
]

pub noted-Typed :
    (reg : Bytes) (p : Property) (typed : Bool) (w : Walk)
    → (is_named "device_type" p ≡ true → says_memory p ≡ true)
    → Typed typed w
    → Typed (typed || is_named "device_type" p) (noted reg p w)
noted-Typed reg p true w says before =
    noted-type reg p w says ∙ elim (Bool-cases (is_named "device_type" p)) [
      | inl is_type ↦ rw is_type refl
      | inr other ↦ rw other before
    ]
noted-Typed reg p false w says before =
    noted-type reg p w says ∙ elim (Bool-cases (is_named "device_type" p)) [
      | inl is_type ↦ rw is_type refl
      | inr other ↦ rw other before
    ]

typing-Given :
    (a n : ℕ) (regions : List MemoryRegion) (given : Bool) (w : Walk) (t : Option Bytes)
    → Given a n regions given w
    → Given a n regions given (record w { current_node_device_type = t })
typing-Given a n regions true w t before = before
typing-Given a n regions false w t before = before

giving-Given :
    (a n : ℕ) (regions : List MemoryRegion) (given : Bool) (w : Walk) (tail : Bytes)
    → Given a n regions (given || true) (record w {
      current_node_reg = some (encode_regions a n regions ++ tail);
      current_node_reg_size = length (encode_regions a n regions);
    })
giving-Given a n regions true w tail = (tail, refl, refl)
giving-Given a n regions false w tail = (tail, refl, refl)

Given-false :
    (a n : ℕ) (regions : List MemoryRegion) (given : Bool) (w : Walk)
    → Given a n regions given w
    → Given a n regions (given || false) w
Given-false a n regions true w before = before
Given-false a n regions false w before = before

pub noted-Given :
    (a n : ℕ) (regions : List MemoryRegion) (tail : Bytes) (p : Property) (given : Bool) (w : Walk)
    → (is_named "reg" p ≡ true → p.value ≡ encode_regions a n regions)
    → Given a n regions given w
    → Given a n regions (given || is_named "reg" p) (noted (p.value ++ tail) p w)
noted-Given a n regions tail p given w value before = elim (Bool-cases (is_named "device_type" p)) [
  | inl is_type ↦
      let typed : (t : Option Bytes)
          → Given a n regions (given || false) (record w { current_node_device_type = t }) =
        λ t. Given-false a n regions given _ (typing-Given a n regions given w t before) in
      rw (is_type, named_once p is_type)
        (elim (Bool-cases (says_memory p)) [
          | inl memory ↦ rw memory (typed _)
          | inr no_memory ↦ rw no_memory (Given-false a n regions given w before)
        ])
  | inr other ↦ rw other (elim (Bool-cases (is_named "reg" p)) [
    | inl is_reg ↦ rw (is_reg, value is_reg) (giving-Given a n regions given w tail)
    | inr neither ↦ rw neither (Given-false a n regions given w before)
  ])
]
