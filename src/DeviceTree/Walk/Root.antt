-- ===== src/DeviceTree/Walk/Root.antt =====
-- The root node of a structure block: it gives the cells, and one of its children describes memory.
use charcoalos.Memory.Regions.{OneOrTwo}
use charcoalos.DeviceTree.Encode.Sizes.{length-encode_node}
use charcoalos.DeviceTree.Property.Regions.{AreWritten, found, IsReady}
use charcoalos.DeviceTree.Property.Kinds.{use_property-root, noted-kept, celled-untyped}
use charcoalos.DeviceTree.Walk.Passes.{Passes-append, Passes, Stage}
use charcoalos.Machine.{returned, Machine}
use charcoalos.DeviceTree.Property.Roles.{
  celled, is_named, GivesCells, IsPlain, IsHarmless, noted-untyped, Stands, noted,
}
use charcoalos.DeviceTree.Walk.Memory.{IsMemoryNode, Passes-memory}
use charcoalos.DeviceTree.Walk.Properties.{Named, seen, all_seen, Passes-properties}
use charcoalos.DeviceTree.Walk.Plain.{IsPlainNode, ArePlain, Passes-plain_nodes, Passes-plain}
use charcoalos.DeviceTree.Types.{HardwareInfo, Blob, DtbHeader, pointed}
use charcoalos.DeviceTree.Encode.{
  child, Node, Nodes, Property, leaf, node, encode_nodes, encode_node,
}
use charcoalos.DeviceTree.Property.{Walk, use_property}
use charcoalos.Strings.Compare.{same_iff, same}
use charcoalos.Memory.{MemoryRegion}
use charcoalos.Prelude.{
  ℕ, suc, ◌+◌, ◌^◌, ◌≤◌, ◌<◌, ◌≡◌, refl, sym, ap, ◌⊎◌, inl, inr, Bool, true, false, none, List, [],
  ◌∷◌, arith, if◌then◌else◌, Bool-cases, length, All, Bytes, codes,
}
use mathlib.Core.Bool.{or-true, or-false}
use mathlib.Core.Path.{subst}
use charcoalos.DeviceTree.Walk.Whole.{Settled, tokens_of, tokens, Passes-whole}

module _ (b : Blob) (h : DtbHeader) (offset_of : Bytes → ℕ) (a n : ℕ)
    (regions : List MemoryRegion) where
  -- Exactly one of the nodes describes the regions.
  unfoldable pub Describe : Nodes → Type 0
  Describe leaf = ⊥
  Describe (child tree others) =
      (IsMemoryNode b h offset_of a n regions tree × ArePlain b h offset_of others)
      ⊎ (IsPlainNode b h offset_of tree × Describe others)

  -- The tree of a machine with these cells and regions.
  unfoldable pub IsMachine : Node → Type 0
  IsMachine (node name properties children) =
      (name ≡ [])
      × All (Named b h offset_of) properties
      × All (λ p. IsPlain p × GivesCells a n p) properties
      × (all_seen "#address-cells" "#size-cells" (false, false) properties ≡ (true, true))
      × Describe children

-- The cells that have been met are in place.
abbrev pub with_cells : ℕ → ℕ → Bool × Bool → HardwareInfo → HardwareInfo
with_cells a n s info = record info {
  address_cells = if s.0 then a else info.address_cells;
  size_cells = if s.1 then n else info.size_cells;
}

abbrev Cells : ℕ → ℕ → HardwareInfo → Bool × Bool → Walk → Type 0
Cells a n info s w =
    (w.info ≡ with_cells a n s info)
    × (w.address_cells_initialized ≡ s.0)
    × (w.size_cells_initialized ≡ s.1)

address_once :
    (p : Property) → is_named "#address-cells" p ≡ true → is_named "#size-cells" p ≡ false
address_once p named =
    ap (same (codes "#size-cells")) (sym ((same_iff (codes "#address-cells") p.name).0 named))

-- Inside of the root node.
abbrev InRoot : ℕ → ℕ → HardwareInfo → Bool × Bool → Walk → Type 0
InRoot a n info s w =
    ((rest : Bytes) × (w.node_name ≡ 0 ∷ rest))
    × (w.current_node_device_type ≡ none)
    × Cells a n info s w

-- The cells touch nothing else.
celled-kept :
    (a n : ℕ) (P : Walk → Type 0) (p : Property) (w : Walk)
    → P (record w { address_cells_initialized = true; info = record w.info { address_cells = a } })
    → P (record w { size_cells_initialized = true; info = record w.info { size_cells = n } })
    → P w
    → P (celled a n p w)
celled-kept a n P p w addressing sizing held = elim (Bool-cases (is_named "#address-cells" p)) [
  | inl is_address ↦ rw is_address addressing
  | inr other ↦ rw other (elim (Bool-cases (is_named "#size-cells" p)) [
    | inl is_size ↦ rw is_size sizing
    | inr neither ↦ rw neither held
  ])
]

cell_fits : (a : ℕ) → OneOrTwo a → a < 2 ^ 32
cell_fits a (inl one) = omega (arith, one)
cell_fits a (inr two) = omega (arith, two)

celled-Cells :
    (a n : ℕ) (info : HardwareInfo) (p : Property) (s : Bool × Bool) (w : Walk)
    → Cells a n info s w
    → Cells a n info (seen "#address-cells" "#size-cells" s p) (celled a n p w)
celled-Cells a n info p (x, y) w (is, address, sizes) =
    elim (Bool-cases (is_named "#address-cells" p)) [
      | inl is_address ↦
          rw (is_address, address_once p is_address)
            (rw (or-true x, or-false y)
              (ap (λ (i : HardwareInfo). record i { address_cells = a }) is, refl, sizes))
      | inr other ↦ rw other (elim (Bool-cases (is_named "#size-cells" p)) [
        | inl is_size ↦ rw is_size (
            rw (or-false x, or-true y)
              (ap (λ (i : HardwareInfo). record i { size_cells = n }) is, address, refl))
        | inr neither ↦ rw neither (rw (or-false x, or-false y) (is, address, sizes))
      ])
    ]

module _ (b : Blob) (struct_end : ℕ) (m : Machine) (top : struct_end + 4 ≤ 2 ^ 64) (h : DtbHeader)
    (e : ℕ) (offset_of : Bytes → ℕ) (harmless : IsHarmless b.null_page) (a n : ℕ)
    (regions : List MemoryRegion) (written : AreWritten a n regions) (info : HardwareInfo) where
  root_used :
      (d : ℕ) (p : Property) (name : Bytes) (value_at c : ℕ) (s : Bool × Bool) (w : Walk)
      → IsPlain p × GivesCells a n p
      → Stands b p name value_at
      → InRoot a n info s w
      → Stage c d e h w
      → (w' : Walk) × (use_property b name value_at (length p.value) w m ≡ (returned w', m))
        × InRoot a n info (seen "#address-cells" "#size-cells" s p) w'
        × Stage c d e h w'
  root_used d p name value_at c s w (plain, gives) stands ((rest, root), untyped, cells) stage =
      let reg = pointed b value_at in
      let s' = seen "#address-cells" "#size-cells" s p in
      let before = celled a n p w in
      let held : ((rest : Bytes) × (w.node_name ≡ 0 ∷ rest)) × Stage c d e h w =
        ((rest, root), stage) in
      let (root_before, stage_before) =
        celled-kept a n
          (λ (w : Walk). ((rest : Bytes) × (w.node_name ≡ 0 ∷ rest)) × Stage c d e h w) p w held
          held held in
      let (root', cells', stage') =
        noted-kept
          (λ (w' : Walk).
            ((rest : Bytes) × (w'.node_name ≡ 0 ∷ rest)) × Cells a n info s' w' × Stage c d e h w')
          reg p before (λ t w held. held) (λ r n w held. held)
          (root_before, celled-Cells a n info p s w cells, stage_before) in
      (
        noted reg p before,
        use_property-root b p name value_at stands m a n rest w root gives
            (cell_fits a written.address_cells_fit) (cell_fits n written.size_cells_fit) harmless
            plain untyped,
        (root', noted-untyped reg p before plain (celled-untyped a n p w untyped), cells'),
        stage',
      )

  Passes-children :
      (children : Nodes) (d : ℕ)
      → IsReady a n info
      → Describe b h offset_of a n regions children
      → Passes b struct_end m h e d
          (Settled info)
          (Settled (found regions info))
          (encode_nodes offset_of children)
          (tokens_of children)
  unfolding Describe encode_nodes tokens_of
  Passes-children leaf d ready none_there = absurd none_there
  Passes-children (child tree others) d ready (inl (memory, plain)) =
      Passes-append b struct_end m h e d (Settled info) (Settled (found regions info))
        (Settled (found regions info)) (encode_node offset_of tree) (encode_nodes offset_of others)
        (tokens tree) (tokens_of others) (length-encode_node offset_of tree)
        (Passes-memory b struct_end m top h e offset_of harmless a n regions written info ready tree
          d memory)
        (Passes-plain_nodes b struct_end m top h e offset_of harmless (found regions info) others d
          plain)
  Passes-children (child tree others) d ready (inr (plain, later)) =
      Passes-append b struct_end m h e d (Settled info) (Settled info)
        (Settled (found regions info)) (encode_node offset_of tree) (encode_nodes offset_of others)
        (tokens tree) (tokens_of others) (length-encode_node offset_of tree)
        (Passes-plain b struct_end m top h e offset_of harmless info tree d plain)
        (Passes-children others d ready later)

module _ (b : Blob) (struct_end : ℕ) (m : Machine) (top : struct_end + 4 ≤ 2 ^ 64) (h : DtbHeader)
    (e : ℕ) (offset_of : Bytes → ℕ) (harmless : IsHarmless b.null_page) (a n : ℕ)
    (regions : List MemoryRegion) (written : AreWritten a n regions) (info : HardwareInfo) where
  -- The walk over the whole tree, from the variables as they are declared.
  pub Passes-machine :
      (tree : Node) (d : ℕ)
      → length info.physical_memory_regions ≡ 16
      → IsMachine b h offset_of a n regions tree
      → Passes b struct_end m h e d
          (Cells a n info (false, false))
          (Settled (found regions (with_cells a n (true, true) info)))
          (encode_node offset_of tree)
          (tokens tree)
  unfolding IsMachine
  Passes-machine (node name ps children) d sixteen (root, named, fit, both, below) =
      let ready : IsReady a n (with_cells a n (true, true) info) = record {
        address_cells_are = refl;
        size_cells_are = refl;
        sixteen = sixteen;
      } in
      let whole =
        Passes-whole b struct_end m top offset_of h e (Cells a n info (false, false))
          (InRoot a n info (false, false))
          (InRoot a n info (all_seen "#address-cells" "#size-cells" (false, false) ps))
          (with_cells a n (true, true) info) (found regions (with_cells a n (true, true) info)) d []
          ps children tt (λ cursor tail w cells at. ((tail, at), refl, cells))
          (λ w held. (subst (λ (s : Bool × Bool). InRoot a n info s w) both held).2)
          (Passes-properties b struct_end m top offset_of h (suc d) e "#address-cells" "#size-cells"
            (λ p. IsPlain p × GivesCells a n p) (InRoot a n info) (λ s w c held. held)
            (root_used b struct_end m top h e offset_of harmless a n regions written info (suc d))
            ps (false, false) fit named)
          (Passes-children b struct_end m top h e offset_of harmless a n regions written
            (with_cells a n (true, true) info) children (suc d) ready below) in
      subst
        (λ (x : Bytes).
          Passes b struct_end m h e d (Cells a n info (false, false))
            (Settled (found regions (with_cells a n (true, true) info)))
            (encode_node offset_of (node x ps children)) (tokens (node x ps children)))
        (sym root) whole
