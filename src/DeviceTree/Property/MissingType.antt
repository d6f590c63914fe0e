-- ===== src/DeviceTree/Property/MissingType.antt =====
-- kernel/Hardware/DeviceTree.c, line 341, where the node has not had its `device_type`.
use charcoalos.Strings.Compare.{holds}
use charcoalos.DeviceTree.Property.Names.{is_string-past, is_string-inside}
use charcoalos.DeviceTree.Types.{Blob, pointed}
use charcoalos.DeviceTree.Property.{
  use_property, save_cells, save_node, is_string, check_memory, Walk, decode_memory,
}
use charcoalos.Console.{literal}
use charcoalos.Machine.{Machine, fault, returned, stopped}
use charcoalos.Prelude.{
  ℕ, ◌<◌, ◌≡◌, refl, ◌∙◌, inl, inr, true, false, none, some, [], ◌∷◌, ◌++◌, arith, ltb, ◌==◌,
  if◌then◌else◌, Bool-cases, length, Bytes, codes,
}

is_string-empty :
    (c : ℕ) (rest : Bytes) (m : Machine) → 0 < c → is_string (c ∷ rest) "" 0 m ≡ (returned false, m)
unfolding literal
is_string-empty c rest m positive =
    let nonzero : c == 0 ≡ false = ground arith in
    is_string-inside (c ∷ rest) "" [] m refl (omega arith) ∙ rw nonzero refl

-- Neither `#address-cells` nor `#size-cells` is looked for.
pub save_cells-skips :
    (b : Blob) (name : Bytes) (data_bytes prop_length : ℕ) (w : Walk) (m : Machine) (c : ℕ)
    (rest : Bytes)
    → w.node_name ≡ c ∷ rest
    → 0 < c
    → save_cells b name data_bytes prop_length w m ≡ (returned w, m)
unfolding save_cells
save_cells-skips b name data_bytes prop_length w m c rest e positive =
    rw e (rw (is_string-empty c rest m positive) refl)

is_string-device_type :
    (rest : Bytes) (m : Machine)
    → 11 < length (literal "reg" ++ rest)
    → is_string (literal "reg" ++ rest) "device_type" 11 m ≡ (returned false, m)
unfolding literal
is_string-device_type rest m long =
    is_string-inside (literal "reg" ++ rest) "device_type" (codes "device_type") m refl long

is_string-reg :
    (rest : Bytes) (m : Machine) → is_string (literal "reg" ++ rest) "reg" 3 m ≡ (returned true, m)
unfolding literal
is_string-reg rest m =
    is_string-inside (literal "reg" ++ rest) "reg" (codes "reg") m refl (omega arith)

-- The comparison of what stands at address 0 with "memory".
is_string-null :
    (page : Bytes) (m : Machine)
    → is_string page "memory" 6 m
      ≡ (if ltb 6 (length page) then returned (holds (codes "memory") page) else stopped fault, m)
unfolding literal
is_string-null page m = elim (Bool-cases (ltb 6 (length page))) [
  | inl long ↦ is_string-inside page "memory" (codes "memory") m refl (ground arith) ∙ rw long refl
  | inr short ↦ is_string-past page "memory" (codes "memory") m refl (ground arith) ∙ rw short refl
]

-- The walk with the node's `reg`.
abbrev pub with_reg : Blob → ℕ → ℕ → Walk → Walk
with_reg b data_bytes prop_length w = record w {
  current_node_reg = some (pointed b data_bytes);
  current_node_reg_size = prop_length;
}

-- A property named `reg`, with at least twelve bytes from its name to the end of the blob, in a node
-- whose name is not empty and that has had no `device_type` before it: the code compares the string at
-- a null pointer with "memory", whatever the property's value is. It faults exactly where the seven
-- bytes of the constant cannot be read at address 0; where they can, the bytes there decide whether
-- the value is decoded as memory regions or the walk goes on with the node's `reg` noted.
pub use_property-MissingType :
    (b : Blob) (rest : Bytes) (data_bytes prop_length : ℕ) (w : Walk) (m : Machine) (c : ℕ)
    (name : Bytes)
    → w.node_name ≡ c ∷ name
    → 0 < c
    → w.current_node_device_type ≡ none
    → 11 < length (literal "reg" ++ rest)
    → use_property b (literal "reg" ++ rest) data_bytes prop_length w m ≡ (
        if ltb 6 (length b.null_page)
        then (if holds (codes "memory") b.null_page
            then decode_memory (pointed b data_bytes) (with_reg b data_bytes prop_length w) m
            else (returned (with_reg b data_bytes prop_length w), m))
        else (stopped fault, m))
unfolding use_property save_node check_memory
use_property-MissingType b rest data_bytes prop_length w m c name e positive missing long =
    rw (save_cells-skips b (literal "reg" ++ rest) data_bytes prop_length w m c name e positive) (
      rw (is_string-device_type rest m long, is_string-reg rest m)
        (rw (missing, is_string-null b.null_page m)
          (elim (Bool-cases (ltb 6 (length b.null_page))) [
            | inr short ↦ rw short refl
            | inl there ↦ rw there (elim (Bool-cases (holds (codes "memory") b.null_page)) [
              | inl memory ↦ rw memory refl
              | inr other ↦ rw other refl
            ])
          ])))
