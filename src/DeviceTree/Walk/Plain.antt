-- ===== src/DeviceTree/Walk/Plain.antt =====
-- Nodes that do not describe memory, in a structure block: they leave nothing in the hardware
-- information.
use charcoalos.DeviceTree.Walk.Whole.{tokens, Passes-whole, tokens_of}
use charcoalos.DeviceTree.Encode.Sizes.{length-encode_node}
use charcoalos.DeviceTree.Property.Roles.{IsPlain, noted, noted-untyped, IsHarmless, Stands}
use charcoalos.DeviceTree.Property.Kinds.{use_property-plain, noted-kept, IsInner}
use charcoalos.DeviceTree.Walk.Properties.{seen, Named, all_seen, Passes-properties}
use charcoalos.DeviceTree.Walk.Passes.{Stage, Passes-none, Passes-append, Passes}
use charcoalos.DeviceTree.Types.{DtbHeader, Blob, HardwareInfo, pointed}
use charcoalos.DeviceTree.Encode.{
  encode_nodes, Node, encode_node, Property, Nodes, node, leaf, child,
}
use charcoalos.DeviceTree.Property.{use_property, Walk}
use charcoalos.Strings.Compare.{IsText}
use charcoalos.Machine.{returned, Machine}
use charcoalos.DeviceTree.Walk.Whole.{Settled}
use charcoalos.Prelude.{
  ℕ, suc, ◌+◌, ◌^◌, ◌≤◌, ◌<◌, ◌≡◌, refl, Bool, false, none, [], ◌∷◌, ◌++◌, arith, length, All,
  Bytes,
}

module _ (b : Blob) (h : DtbHeader) (offset_of : Bytes → ℕ) where
  -- No node of the tree describes memory.
  unfoldable mutual
    pub IsPlainNode : Node → Type 0
    IsPlainNode (node name properties children) =
        IsText name
        × (0 < length name)
        × All (Named b h offset_of) properties
        × All IsPlain properties
        × ArePlain children

    pub ArePlain : Nodes → Type 0
    ArePlain leaf = Unit {0}
    ArePlain (child n others) = IsPlainNode n × ArePlain others

-- Inside of a node that has not had a `device_type` of `memory`.
abbrev InPlain : HardwareInfo → Bool × Bool → Walk → Type 0
InPlain info s w = IsInner w.node_name × (w.current_node_device_type ≡ none) × Settled info w

pub IsInner-text :
    (name tail text : Bytes)
    → IsText name
    → 0 < length name
    → text ≡ name ++ (0 ∷ tail)
    → IsInner text
IsInner-text [] tail text t some_name is = absurd (omega arith)
IsInner-text (f ∷ name) tail text t some_name is = record {
  first = f;
  others = name ++ (0 ∷ tail);
  is = is;
  positive = ground (arith, t.0);
}

module _ (b : Blob) (struct_end : ℕ) (m : Machine) (top : struct_end + 4 ≤ 2 ^ 64) (h : DtbHeader)
    (e : ℕ) (offset_of : Bytes → ℕ) (harmless : IsHarmless b.null_page) (info : HardwareInfo) where
  plain_used :
      (d : ℕ) (p : Property) (name : Bytes) (value_at c : ℕ) (s : Bool × Bool) (w : Walk)
      → IsPlain p
      → Stands b p name value_at
      → InPlain info s w
      → Stage c d e h w
      → (w' : Walk) × (use_property b name value_at (length p.value) w m ≡ (returned w', m))
        × InPlain info (seen "" "" s p) w'
        × Stage c d e h w'
  plain_used d p name value_at c s w plain stands (inner, untyped, settled) stage =
      let reg = pointed b value_at in
      let (inner', settled', stage') =
        noted-kept (λ (w : Walk). IsInner w.node_name × Settled info w × Stage c d e h w) reg p w
          (λ t w held. held) (λ r n w held. held) (inner, settled, stage) in
      (
        noted reg p w,
        use_property-plain b p name value_at stands m w inner harmless plain untyped,
        (inner', noted-untyped reg p w plain untyped, settled'),
        stage',
      )

  mutual
    unfolding IsPlainNode encode_node tokens

    pub Passes-plain :
        (n : Node) (d : ℕ)
        → IsPlainNode b h offset_of n
        → Passes b struct_end m h e d
            (Settled info)
            (Settled info)
            (encode_node offset_of n)
            (tokens n)
    Passes-plain (node name ps children) d (t, some_name, named, plain, below) =
        Passes-whole b struct_end m top offset_of h e (Settled info) (InPlain info (false, false))
          (InPlain info (all_seen "" "" (false, false) ps)) info info d name ps children t
          (λ cursor tail w settled at. (IsInner-text name tail _ t some_name at, refl, settled))
          (λ w held. held.2)
          (Passes-properties b struct_end m top offset_of h (suc d) e "" "" IsPlain (InPlain info)
            (λ s w c held. held) (plain_used (suc d)) ps (false, false) plain named)
          (Passes-plain_nodes children (suc d) below)

    pub Passes-plain_nodes :
        (children : Nodes) (d : ℕ)
        → ArePlain b h offset_of children
        → Passes b struct_end m h e d
            (Settled info)
            (Settled info)
            (encode_nodes offset_of children)
            (tokens_of children)
    Passes-plain_nodes leaf d plain = Passes-none b struct_end m h e d (Settled info)
    Passes-plain_nodes (child n others) d plain =
        Passes-append b struct_end m h e d (Settled info) (Settled info) (Settled info)
          (encode_node offset_of n) (encode_nodes offset_of others) (tokens n) (tokens_of others)
          (length-encode_node offset_of n) (Passes-plain n d plain.0)
          (Passes-plain_nodes others d plain.1)
