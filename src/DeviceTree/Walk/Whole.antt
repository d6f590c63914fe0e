-- ===== src/DeviceTree/Walk/Whole.antt =====
-- A node of a structure block from its properties and its children, and its tokens.
use charcoalos.Endian.Decode.{be32_bytes}
use charcoalos.DeviceTree.Encode.Sizes.{
  length-inner, length-encode_properties, length-encode_property,
}
use charcoalos.DeviceTree.Walk.Tokens.{entered}
use charcoalos.DeviceTree.Walk.Passes.{Passes-after, Passes, Passes-node, Passes-append}
use charcoalos.DeviceTree.Types.{Blob, DtbHeader, HardwareInfo, pointed}
use charcoalos.DeviceTree.Encode.{
  Property, padded, encode_properties, node, child, encode_property, encode_nodes, Nodes,
  encode_node, Node, leaf,
}
use charcoalos.DeviceTree.Property.{Walk}
use charcoalos.Strings.Compare.{IsText}
use charcoalos.Machine.{Machine}
use charcoalos.Prelude.{
  ℕ, suc, ◌+◌, ◌^◌, ◌≤◌, ◌≡◌, true, List, [], ◌∷◌, ◌++◌, arith, length, length-append, Bytes,
}

-- The number of tokens that a tree is written with.
unfoldable mutual
  pub tokens : Node → ℕ
  tokens (node name properties children) = suc (length properties + tokens_of children + 1)

  pub tokens_of : Nodes → ℕ
  tokens_of leaf = 0
  tokens_of (child n others) = tokens n + tokens_of others

length-tokens_of_properties :
    (offset_of : Bytes → ℕ) (ps : List Property)
    → length ps ≤ length (encode_properties offset_of ps)
unfolding encode_properties
length-tokens_of_properties offset_of [] = omega arith
length-tokens_of_properties offset_of (p ∷ ps) = omega (
  arith,
  length-append {0} (encode_property offset_of p) (encode_properties offset_of ps),
  length-encode_property offset_of p,
  length-tokens_of_properties offset_of ps,
)

mutual
  unfolding tokens encode_node

  pub tokens-length :
      (offset_of : Bytes → ℕ) (n : Node) → tokens n ≤ length (encode_node offset_of n)
  tokens-length offset_of (node name ps children) =
      let text = padded (name ++ (0 ∷ [])) in
      let properties = encode_properties offset_of ps in
      let nodes = encode_nodes offset_of children in
      omega (
        arith,
        length-append {0} text ((properties ++ nodes) ++ be32_bytes 2),
        length-append {0} (properties ++ nodes) (be32_bytes 2),
        length-append {0} properties nodes,
        length-tokens_of_properties offset_of ps,
        tokens_of-length offset_of children,
      )

  pub tokens_of-length :
      (offset_of : Bytes → ℕ) (children : Nodes)
      → tokens_of children ≤ length (encode_nodes offset_of children)
  tokens_of-length offset_of leaf = omega arith
  tokens_of-length offset_of (child n others) = omega (
    arith,
    length-append {0} (encode_node offset_of n) (encode_nodes offset_of others),
    tokens-length offset_of n,
    tokens_of-length offset_of others,
  )

-- The cells are known, and what has been found so far.
abbrev pub Settled : HardwareInfo → Walk → Type 0
Settled info w =
    (w.info ≡ info) × (w.address_cells_initialized ≡ true) × (w.size_cells_initialized ≡ true)

module _ (b : Blob) (struct_end : ℕ) (m : Machine) (top : struct_end + 4 ≤ 2 ^ 64)
    (offset_of : Bytes → ℕ) (h : DtbHeader) (e : ℕ) where
  pub Passes-whole :
      (A B C : Walk → Type 0) (info info' : HardwareInfo) (d : ℕ) (name : Bytes)
      (ps : List Property) (children : Nodes)
      → IsText name
      → ((cursor : ℕ) (tail : Bytes) (w : Walk)
          → A w
          → pointed b (w.dtb_cursor + 4) ≡ name ++ (0 ∷ tail)
          → B (entered b struct_end m top cursor w))
      → ((w : Walk) → C w → Settled info w)
      → Passes b struct_end m h e (suc d) B C (encode_properties offset_of ps) (length ps)
      → Passes b struct_end m h e
          (suc d)
          (Settled info)
          (Settled info')
          (encode_nodes offset_of children)
          (tokens_of children)
      → Passes b struct_end m h e d A
          (Settled info')
          (encode_node offset_of (node name ps children))
          (tokens (node name ps children))
  unfolding encode_node tokens
  Passes-whole A B C info info' d name ps children t entering settling properties below =
      let properties' =
        Passes-after b struct_end m h e (suc d) B C (Settled info) (encode_properties offset_of ps)
          (length ps) settling properties in
      let inside =
        Passes-append b struct_end m h e (suc d) B (Settled info) (Settled info')
          (encode_properties offset_of ps) (encode_nodes offset_of children) (length ps)
          (tokens_of children) (length-encode_properties offset_of ps) properties' below in
      Passes-node b struct_end m h e top d A B (Settled info') (Settled info') name
        (encode_properties offset_of ps ++ encode_nodes offset_of children)
        (length ps + tokens_of children) t (length-inner offset_of ps children) entering inside
        (λ cursor depth w held. held)
