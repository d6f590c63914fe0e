-- ===== src/DeviceTree/Encode.antt =====
-- The flattened device tree of the Devicetree Specification, which the parser reads: a tree of nodes
-- with properties, and the structure block that it is written as.
pub mod Cursor
pub mod Sizes
use charcoalos.DeviceTree.Property.Align.{gap}
use charcoalos.Endian.Decode.{be32_bytes}
use charcoalos.Prelude.{ℕ, zero, suc, List, [], ◌∷◌, ◌++◌, length, Bytes}

-- A property has a name, which stands in the strings block, and a value.
pub record Property : Type 0 where
  pub name : Bytes
  pub value : Bytes

mutual
  pub data Node : Type 0 where
    node : Bytes → List Property → Nodes → Node

  pub data Nodes : Type 0 where
    leaf : Nodes
    child : Node → Nodes → Nodes

-- Padded with zeros to a multiple of four.
abbrev pub zeros : ℕ → Bytes
zeros zero = []
zeros (suc n) = 0 ∷ zeros n

abbrev pub padded : Bytes → Bytes
padded text = text ++ zeros (gap (length text))

-- Where the strings block has a name.
module _ (offset_of : Bytes → ℕ) where
  unfoldable pub encode_property : Property → Bytes
  encode_property p =
      be32_bytes 3
      ++ (be32_bytes (length p.value) ++ (be32_bytes (offset_of p.name) ++ padded p.value))

  unfoldable pub encode_properties : List Property → Bytes
  encode_properties [] = []
  encode_properties (p ∷ properties) = encode_property p ++ encode_properties properties

  unfoldable mutual
    pub encode_node : Node → Bytes
    encode_node (node name properties children) =
        be32_bytes 1
        ++ (padded (name ++ (0 ∷ []))
            ++ ((encode_properties properties ++ encode_nodes children) ++ be32_bytes 2))

    pub encode_nodes : Nodes → Bytes
    encode_nodes leaf = []
    encode_nodes (child n others) = encode_node n ++ encode_nodes others
