-- ===== src/DeviceTree/Property/Kinds.antt =====
-- kernel/Hardware/DeviceTree.c, lines 298 to 358, on a property of the specification: in a node of
-- each kind.
use charcoalos.DeviceTree.Property.MissingType.{save_cells-skips}
use charcoalos.DeviceTree.Property.Roles.{
  celled, noted-untyped, save_node_lem, IsHarmless, IsPlain, save_cells_lem, Stands, noted,
  GivesCells, check_memory-untyped, says_memory, is_named,
}
use charcoalos.DeviceTree.Types.{pointed, Blob}
use charcoalos.DeviceTree.Encode.{Property}
use charcoalos.DeviceTree.Property.{check_memory, use_property, Walk}
use charcoalos.Machine.{Machine, returned}
use charcoalos.Prelude.{
  ℕ, ◌^◌, ◌<◌, ◌≡◌, refl, inl, inr, Option, none, ◌∷◌, arith, Bool-cases, length, Bytes,
}

-- A node's name that is not the root's.
pub record IsInner (name : Bytes) : Type 0 where
  pub first : ℕ
  pub others : Bytes
  pub is : name ≡ first ∷ others
  pub positive : 0 < first

-- `device_type` and `reg` touch nothing else.
pub noted-kept :
    (P : Walk → Type 0) (reg : Bytes) (p : Property) (w : Walk)
    → ((t : Option Bytes) (w : Walk) → P w → P (record w { current_node_device_type = t }))
    → ((r : Option Bytes) (n : ℕ) (w : Walk)
        → P w
        → P (record w { current_node_reg = r; current_node_reg_size = n }))
    → P w
    → P (noted reg p w)
noted-kept P reg p w typing giving held = elim (Bool-cases (is_named "device_type" p)) [
  | inl typed ↦ rw typed (elim (Bool-cases (says_memory p)) [
    | inl memory ↦ rw memory (typing _ w held)
    | inr no_memory ↦ rw no_memory held
  ])
  | inr other ↦ rw other (elim (Bool-cases (is_named "reg" p)) [
    | inl is_reg ↦ rw is_reg (giving _ _ w held)
    | inr no_reg ↦ rw no_reg held
  ])
]

pub celled-untyped :
    (a n : ℕ) (p : Property) (w : Walk)
    → w.current_node_device_type ≡ none
    → (celled a n p w).current_node_device_type ≡ none
celled-untyped a n p w untyped = ground (arith, untyped)

module _ (b : Blob) (p : Property) (name : Bytes) (value_at : ℕ) (s : Stands b p name value_at)
    (m : Machine) where
  -- In a node that does not describe memory.
  pub use_property-plain :
      (w : Walk)
      → IsInner w.node_name
      → IsHarmless b.null_page
      → IsPlain p
      → w.current_node_device_type ≡ none
      → use_property b name value_at (length p.value) w m
        ≡ (returned (noted (pointed b value_at) p w), m)
  unfolding use_property
  use_property-plain w inner harmless plain untyped =
      let after = noted (pointed b value_at) p w in
      rw
        (save_cells-skips b name value_at (length p.value) w m inner.first inner.others inner.is
          inner.positive)
        (rw (save_node_lem b p name value_at s m w) (
          check_memory-untyped b after.current_node_reg after m harmless
            (noted-untyped (pointed b value_at) p w plain untyped)))

  -- In the root node.
  pub use_property-root :
      (a n : ℕ) (rest : Bytes) (w : Walk)
      → w.node_name ≡ 0 ∷ rest
      → GivesCells a n p
      → a < 2 ^ 32
      → n < 2 ^ 32
      → IsHarmless b.null_page
      → IsPlain p
      → w.current_node_device_type ≡ none
      → use_property b name value_at (length p.value) w m
        ≡ (returned (noted (pointed b value_at) p (celled a n p w)), m)
  unfolding use_property
  use_property-root a n rest w root gives small small' harmless plain untyped =
      let before = celled a n p w in
      let after = noted (pointed b value_at) p before in
      let still : before.current_node_device_type ≡ none = celled-untyped a n p w untyped in
      rw (save_cells_lem b p name value_at s m a n rest w root gives small small') (
        rw (save_node_lem b p name value_at s m before) (
          check_memory-untyped b after.current_node_reg after m harmless
            (noted-untyped (pointed b value_at) p before plain still)))

  -- In a node that describes memory, whatever comes of the check behind the property.
  pub use_property-inner :
      (w : Walk)
      → IsInner w.node_name
      → use_property b name value_at (length p.value) w m ≡ (
          check_memory b
            (noted (pointed b value_at) p w).current_node_reg
            (noted (pointed b value_at) p w)
            m)
  unfolding use_property
  use_property-inner w inner =
      rw
        (save_cells-skips b name value_at (length p.value) w m inner.first inner.others inner.is
          inner.positive)
        (rw (save_node_lem b p name value_at s m w) refl)
