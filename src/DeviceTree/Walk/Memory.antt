-- ===== src/DeviceTree/Walk/Memory.antt =====
-- A node that describes memory, in a structure block: it leaves the regions in the hardware information.
use charcoalos.DeviceTree.Walk.Plain.{Passes-plain_nodes, ArePlain, IsInner-text}
use charcoalos.Strings.Compare.{IsText}
use charcoalos.DeviceTree.Property.Met.{noted-Given, Given, noted-Typed, Typed, IsOfMemory}
use charcoalos.DeviceTree.Walk.Properties.{seen, Passes-properties, Named, all_seen}
use charcoalos.DeviceTree.Property.Roles.{noted, IsHarmless, check_memory-untyped, Stands}
use charcoalos.DeviceTree.Property.Regions.{
  IsReady, found, AreWritten, found-IsReady, check_memory-none, check_memory-encode, found-found,
}
use charcoalos.DeviceTree.Property.Kinds.{IsInner, use_property-inner, noted-kept}
use charcoalos.DeviceTree.Walk.Passes.{Stage, Passes}
use charcoalos.DeviceTree.Types.{HardwareInfo, DtbHeader, Blob, pointed}
use charcoalos.DeviceTree.Encode.{Property, node, encode_node, Node}
use charcoalos.DeviceTree.Property.{check_memory, Walk, use_property}
use charcoalos.Memory.{MemoryRegion}
use charcoalos.Machine.{Machine, returned}
use mathlib.Core.Path.{subst}
use charcoalos.DeviceTree.Walk.Whole.{Settled, tokens, Passes-whole}
use charcoalos.Prelude.{
  ℕ, suc, ◌+◌, ◌^◌, ◌≤◌, ◌<◌, ◌≡◌, refl, sym, ap, ◌∙◌, ◌⊎◌, inl, inr, Bool, true, false, ◌&&◌,
  Option, List, if◌then◌else◌, length, All, Bytes,
}

module _ (b : Blob) (h : DtbHeader) (offset_of : Bytes → ℕ) (a n : ℕ)
    (regions : List MemoryRegion) where
  -- The node describes the regions, and none of its descendants describes any.
  unfoldable pub IsMemoryNode : Node → Type 0
  IsMemoryNode (node name properties children) =
      IsText name
      × (0 < length name)
      × All (Named b h offset_of) properties
      × All (IsOfMemory a n regions) properties
      × (all_seen "device_type" "reg" (false, false) properties ≡ (true, true))
      × ArePlain b h offset_of children

module _ (b : Blob) (struct_end : ℕ) (m : Machine) (top : struct_end + 4 ≤ 2 ^ 64) (h : DtbHeader)
    (e : ℕ) (offset_of : Bytes → ℕ) (harmless : IsHarmless b.null_page) (a n : ℕ)
    (regions : List MemoryRegion) (written : AreWritten a n regions) (info : HardwareInfo)
    (ready : IsReady a n info) where
  -- Inside of the node.
  abbrev InMemory : Bool × Bool → Walk → Type 0
  InMemory s w =
      IsInner w.node_name
      × Typed s.0 w
      × Given a n regions s.1 w
      × Settled (if s.0 && s.1 then found regions info else info) w

  -- Before the check behind a property, the regions may be there or not.
  abbrev Known : Bool × Bool → HardwareInfo → Type 0
  Known s i = (i ≡ info) ⊎ ((i ≡ found regions info) × (s.0 && s.1 ≡ true))

  settle :
      (typed given : Bool) (c d : ℕ) (w : Walk)
      → IsInner w.node_name
      → Typed typed w
      → Given a n regions given w
      → Known (typed, given) w.info
      → w.address_cells_initialized ≡ true
      → w.size_cells_initialized ≡ true
      → Stage c d e h w
      → (w' : Walk) × (check_memory b w.current_node_reg w m ≡ (returned w', m))
        × InMemory (typed, given) w'
        × Stage c d e h w'
  settle true true c d w inner is_typed (tail, reg, size) known address sizes stage =
      let ready' : IsReady a n w.info = elim known [
        | inl is ↦ subst (IsReady a n) (sym is) ready
        | inr (is, _) ↦ subst (IsReady a n) (sym is) (found-IsReady a n regions written info ready)
      ] in
      let after : found regions w.info ≡ found regions info = elim known [
        | inl is ↦ ap (found regions) is
        | inr (is, _) ↦ ap (found regions) is ∙ found-found a n regions written info
      ] in
      (
        record w { info = found regions w.info },
        ap (λ (r : Option Bytes). check_memory b r w m) reg
            ∙ check_memory-encode a n regions written b tail w m ready' address sizes is_typed size,
        (inner, is_typed, (tail, reg, size), (after, address, sizes)),
        stage,
      )
  settle true false c d w inner is_typed is_given known address sizes stage =
      let still : w.info ≡ info = elim known [ inl is ↦ is | inr (_, never) ↦ absurd (cc) ] in
      (
        w,
        ap (λ (r : Option Bytes). check_memory b r w m) is_given ∙ check_memory-none b w m,
        (inner, is_typed, is_given, (still, address, sizes)),
        stage,
      )
  settle false given c d w inner is_typed is_given known address sizes stage =
      let still : w.info ≡ info = elim known [ inl is ↦ is | inr (_, never) ↦ absurd (cc) ] in
      (
        w,
        check_memory-untyped b w.current_node_reg w m harmless is_typed,
        (inner, is_typed, is_given, (still, address, sizes)),
        stage,
      )

  Known-seen :
      (s : Bool × Bool) (p : Property) (i : HardwareInfo)
      → i ≡ (if s.0 && s.1 then found regions info else info)
      → Known (seen "device_type" "reg" s p) i
  Known-seen (true, true) p i is = inr (is, refl)
  Known-seen (true, false) p i is = inl is
  Known-seen (false, given) p i is = inl is

  memory_used :
      (d : ℕ) (p : Property) (name : Bytes) (value_at c : ℕ) (s : Bool × Bool) (w : Walk)
      → IsOfMemory a n regions p
      → Stands b p name value_at
      → InMemory s w
      → Stage c d e h w
      → (w' : Walk) × (use_property b name value_at (length p.value) w m ≡ (returned w', m))
        × InMemory (seen "device_type" "reg" s p) w'
        × Stage c d e h w'
  memory_used d p name value_at c s w of stands (inner, is_typed, is_given, (is, address, sizes))
        stage =
      let reg = pointed b value_at in
      let s' = seen "device_type" "reg" s p in
      let is_given' : Given a n regions s'.1 (noted reg p w) =
        rw stands.value_is
          (noted-Given a n regions stands.behind_value p s.1 w of.reg_value is_given) in
      let (inner', is', address', sizes', stage') =
        noted-kept
          (λ (w' : Walk).
            IsInner w'.node_name
            × (w'.info ≡ w.info)
            × (w'.address_cells_initialized ≡ true)
            × (w'.size_cells_initialized ≡ true)
            × Stage c d e h w')
          reg p w (λ t w held. held) (λ r n w held. held) (inner, refl, address, sizes, stage) in
      let (w', ran, held, staged) =
        settle s'.0 s'.1 c d (noted reg p w) inner' (noted-Typed reg p s.0 w of.type_value is_typed)
          is_given' (Known-seen s p (noted reg p w).info (is' ∙ is)) address' sizes' stage' in
      (w', use_property-inner b p name value_at stands m w inner ∙ ran, held, staged)

  moved :
      (s : Bool × Bool) (w : Walk) (c : ℕ) → InMemory s w → InMemory s (record w { dtb_cursor = c })
  moved (typed, true) w c held = held
  moved (typed, false) w c held = held

  pub Passes-memory :
      (tree : Node) (d : ℕ)
      → IsMemoryNode b h offset_of a n regions tree
      → Passes b struct_end m h e d
          (Settled info)
          (Settled (found regions info))
          (encode_node offset_of tree)
          (tokens tree)
  unfolding IsMemoryNode
  Passes-memory (node name ps children) d (t, some_name, named, of, both, below) =
      Passes-whole b struct_end m top offset_of h e (Settled info) (InMemory (false, false))
        (InMemory (all_seen "device_type" "reg" (false, false) ps)) (found regions info)
        (found regions info) d name ps children t
        (λ cursor tail w settled at. (IsInner-text name tail _ t some_name at, refl, refl, settled))
        (λ w held. (subst (λ (s : Bool × Bool). InMemory s w) both held).3)
        (Passes-properties b struct_end m top offset_of h (suc d) e "device_type" "reg"
          (IsOfMemory a n regions) InMemory moved (memory_used (suc d)) ps (false, false) of named)
        (Passes-plain_nodes b struct_end m top h e offset_of harmless (found regions info) children
          (suc d) below)
