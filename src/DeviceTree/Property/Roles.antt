-- ===== src/DeviceTree/Property/Roles.antt =====
-- kernel/Hardware/DeviceTree.c, lines 298 to 358, on a property of the specification: what is kept of it.
use charcoalos.Endian.Decode.{be32_bytes}
use charcoalos.DeviceTree.Encode.Cursor.{read32-pointed}
use charcoalos.DeviceTree.Property.Names.{is_string-name, is_string-inside}
use charcoalos.DeviceTree.Types.{Blob, pointed}
use charcoalos.DeviceTree.Encode.{Property}
use charcoalos.DeviceTree.Property.{
  save_node, save_device_type, Walk, save_address_cells, check_memory, save_size_cells, is_string,
  save_cells,
}
use charcoalos.Strings.Compare.{terminated, holds-value, same, same_iff, IsText, holds}
use charcoalos.Console.{literal}
use charcoalos.Machine.{returned, Machine}
use charcoalos.Prelude.{
  ℕ, ◌^◌, ◌≤◌, ◌<◌, ◌≡◌, refl, sym, ap, ◌∙◌, inl, inr, Bool, true, false, ◌&&◌, Option, none, some,
  [], ◌∷◌, ◌++◌, arith, ◌==◌, if◌then◌else◌, ==_iff, Bool-cases, length, length-append, Bytes,
  codes, String,
}

abbrev pub is_named : String → Property → Bool
is_named constant p = same (codes constant) p.name

-- Is this the `device_type` of a node that describes memory?
abbrev pub says_memory : Property → Bool
says_memory p = same (literal "memory") p.value

-- What `device_type` and `reg` leave in the variables, if the value stands at `reg`.
abbrev pub noted : Bytes → Property → Walk → Walk
noted reg p w =
    if is_named "device_type" p
    then (if says_memory p
        then record w { current_node_device_type = some (literal "memory") }
        else w)
    else if is_named "reg" p
    then record w { current_node_reg = some reg; current_node_reg_size = length p.value }
    else w

other_length : (p : Property) → length p.value == 7 ≡ false → says_memory p ≡ false
unfolding literal
other_length p other = elim (Bool-cases (says_memory p)) [
  | inl memory ↦
      let size : length p.value ≡ 7 =
        sym (ap length ((same_iff (literal "memory") p.value).0 memory)) in
      absurd (ground (arith, other))
  | inr no_memory ↦ no_memory
]

-- A property whose name and value stand in the blob as the specification says.
pub record Stands (b : Blob) (p : Property) (name : Bytes) (value_at : ℕ) : Type 0 where
  pub text : IsText p.name
  pub behind_name : Bytes
  pub name_is : name ≡ terminated p.name behind_name
  pub enough : 14 ≤ length behind_name
  pub behind_value : Bytes
  pub value_is : pointed b value_at ≡ p.value ++ behind_value

module _ (b : Blob) (p : Property) (name : Bytes) (value_at : ℕ) (s : Stands b p name value_at)
    (m : Machine) where
  save_device_type_lem :
      (w : Walk)
      → save_device_type b value_at (length p.value) w m ≡ (
        returned (
            if says_memory p
            then record w { current_node_device_type = some (literal "memory") }
            else w),
        m,
      )
  unfolding save_device_type literal
  save_device_type_lem w = elim (Bool-cases (length p.value == 7)) [
    | inl seven ↦
        let size : length p.value ≡ 7 = (==_iff _ _).0 seven in
        let inside =
          is_string-inside (p.value ++ s.behind_value) "memory" (codes "memory") m refl
            (omega (arith, length-append {0} p.value s.behind_value)) in
        rw seven (
          rw s.value_is
            (rw inside (rw (holds-value (codes "memory") p.value s.behind_value size) refl)))
    | inr other ↦ rw (other, other_length p other) refl
  ]

  pub save_node_lem :
      (w : Walk)
      → save_node b name value_at (length p.value) w m
        ≡ (returned (noted (pointed b value_at) p w), m)
  unfolding save_node
  save_node_lem w =
      let first =
        is_string-name p.name s.behind_name "device_type" m s.text (ground arith)
          (omega (arith, s.enough)) in
      let second =
        is_string-name p.name s.behind_name "reg" m s.text (ground arith)
          (omega (arith, s.enough)) in
      rw s.name_is (
        rw first (elim (Bool-cases (is_named "device_type" p)) [
          | inl typed ↦ rw typed (save_device_type_lem w)
          | inr other ↦ rw other (rw second refl)
        ]))

-- What can be read through a null pointer is not the string `memory`.
pub record IsHarmless (null_page : Bytes) : Type 0 where
  pub long : 6 < length null_page
  pub other : holds (codes "memory") null_page ≡ false

-- The property does not make its node one that describes memory.
abbrev pub IsPlain : Property → Type 0
IsPlain p = is_named "device_type" p && says_memory p ≡ false

pub check_memory-untyped :
    (b : Blob) (reg : Option Bytes) (w : Walk) (m : Machine)
    → IsHarmless b.null_page
    → w.current_node_device_type ≡ none
    → check_memory b reg w m ≡ (returned w, m)
unfolding check_memory literal
check_memory-untyped b none w m harmless untyped = refl
check_memory-untyped b (some reg) w m harmless untyped =
    let compared = is_string-inside b.null_page "memory" (codes "memory") m refl harmless.long in
    rw untyped (rw compared (rw harmless.other refl))

pub noted-untyped :
    (reg : Bytes) (p : Property) (w : Walk)
    → IsPlain p
    → w.current_node_device_type ≡ none
    → (noted reg p w).current_node_device_type ≡ none
noted-untyped reg p w plain untyped = elim (Bool-cases (is_named "device_type" p)) [
  | inl typed ↦ rw (typed) (elim (Bool-cases (says_memory p)) [
    | inl memory ↦ absurd (ground (arith, typed, memory, plain))
    | inr no_memory ↦ rw no_memory untyped
  ])
  | inr other ↦ rw other (elim (Bool-cases (is_named "reg" p)) [
    | inl is_reg ↦ rw is_reg untyped
    | inr no_reg ↦ rw no_reg untyped
  ])
]

-- What the root node leaves, with so many cells for addresses and for sizes.
abbrev pub celled : ℕ → ℕ → Property → Walk → Walk
celled a s p w =
    if is_named "#address-cells" p
    then record w { address_cells_initialized = true; info = record w.info { address_cells = a } }
    else if is_named "#size-cells" p
    then record w { size_cells_initialized = true; info = record w.info { size_cells = s } }
    else w

-- The cells are given as the specification says.
pub record GivesCells (a s : ℕ) (p : Property) : Type 0 where
  pub address_value : is_named "#address-cells" p ≡ true → p.value ≡ be32_bytes a
  pub size_value : is_named "#size-cells" p ≡ true → p.value ≡ be32_bytes s

module _ (b : Blob) (p : Property) (name : Bytes) (value_at : ℕ) (s : Stands b p name value_at)
    (m : Machine) where
  pub save_cells_lem :
      (a n : ℕ) (rest : Bytes) (w : Walk)
      → w.node_name ≡ 0 ∷ rest
      → GivesCells a n p
      → a < 2 ^ 32
      → n < 2 ^ 32
      → save_cells b name value_at (length p.value) w m ≡ (returned (celled a n p w), m)
  unfolding save_cells save_address_cells save_size_cells
  save_cells_lem a n rest w root gives small small' =
      let is_root : is_string w.node_name "" 0 m ≡ (returned true, m) =
        rw root (is_string-inside (0 ∷ rest) "" [] m (unfold literal in refl) (omega arith)) in
      let first =
        is_string-name p.name s.behind_name "#address-cells" m s.text (ground arith)
          (omega (arith, s.enough)) in
      let second =
        is_string-name p.name s.behind_name "#size-cells" m s.text (ground arith)
          (omega (arith, s.enough)) in
      rw is_root (
        rw s.name_is (
          rw first (elim (Bool-cases (is_named "#address-cells" p)) [
            | inl address ↦
                let value = gives.address_value address in
                let size : length p.value == 4 ≡ true = rw value refl in
                let read =
                  read32-pointed b value_at a s.behind_value m
                    (s.value_is ∙ ap (λ (x : Bytes). x ++ s.behind_value) value) small in
                rw address (rw size (rw read refl))
            | inr other ↦ rw other (
                rw second (elim (Bool-cases (is_named "#size-cells" p)) [
                  | inl sizes ↦
                      let value = gives.size_value sizes in
                      let size : length p.value == 4 ≡ true = rw value refl in
                      let read =
                        read32-pointed b value_at n s.behind_value m
                          (s.value_is ∙ ap (λ (x : Bytes). x ++ s.behind_value) value) small' in
                      rw sizes (rw size (rw read refl))
                  | inr neither ↦ rw neither refl
                ]))
          ])))
