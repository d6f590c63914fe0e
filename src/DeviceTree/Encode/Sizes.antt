-- ===== src/DeviceTree/Encode/Sizes.antt =====
-- How long the encoded pieces of a device tree are.
use charcoalos.Endian.Decode.{be32_bytes}
use charcoalos.DeviceTree.Encode.Cursor.{length-padded}
use charcoalos.DeviceTree.Encode.{
  Property, Node, encode_property, encode_nodes, node, leaf, encode_properties, encode_node, Nodes,
  child, padded,
}
use charcoalos.Prelude.{
  ℕ, ◌+◌, ◌%◌, ◌≡◌, refl, List, [], ◌∷◌, ◌++◌, arith, length, length-append, Bytes,
}

pub length-encode_property :
    (offset_of : Bytes → ℕ) (p : Property)
    → length (encode_property offset_of p) ≡ 12 + length (padded p.value)
unfolding encode_property
length-encode_property offset_of p = omega arith

pub length-encode_properties :
    (offset_of : Bytes → ℕ) (ps : List Property) → length (encode_properties offset_of ps) % 4 ≡ 0
unfolding encode_properties
length-encode_properties offset_of [] = refl
length-encode_properties offset_of (p ∷ ps) = omega (
  arith,
  length-append {0} (encode_property offset_of p) (encode_properties offset_of ps),
  length-encode_property offset_of p,
  length-padded p.value,
  length-encode_properties offset_of ps,
)

mutual
  unfolding encode_node

  pub length-encode_node :
      (offset_of : Bytes → ℕ) (n : Node) → length (encode_node offset_of n) % 4 ≡ 0
  length-encode_node offset_of (node name ps children) =
      let text = padded (name ++ (0 ∷ [])) in
      let properties = encode_properties offset_of ps in
      let nodes = encode_nodes offset_of children in
      omega (
        arith,
        length-append {0} text ((properties ++ nodes) ++ be32_bytes 2),
        length-append {0} (properties ++ nodes) (be32_bytes 2),
        length-append {0} properties nodes,
        length-padded (name ++ (0 ∷ [])),
        length-encode_properties offset_of ps,
        length-encode_nodes offset_of children,
      )

  pub length-encode_nodes :
      (offset_of : Bytes → ℕ) (children : Nodes) → length (encode_nodes offset_of children) % 4 ≡ 0
  length-encode_nodes offset_of leaf = refl
  length-encode_nodes offset_of (child n others) = omega (
    arith,
    length-append {0} (encode_node offset_of n) (encode_nodes offset_of others),
    length-encode_node offset_of n,
    length-encode_nodes offset_of others,
  )

-- What a node holds.
pub length-inner :
    (offset_of : Bytes → ℕ) (ps : List Property) (children : Nodes)
    → length (encode_properties offset_of ps ++ encode_nodes offset_of children) % 4 ≡ 0
length-inner offset_of ps children = omega (
  arith,
  length-append {0} (encode_properties offset_of ps) (encode_nodes offset_of children),
  length-encode_properties offset_of ps,
  length-encode_nodes offset_of children,
)
