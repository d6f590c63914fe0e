-- ===== src/DeviceTree/Property/Names.antt =====
-- The comparisons with a constant in `parse_device_tree_blob`.
use charcoalos.DeviceTree.Property.{is_string}
use charcoalos.Strings.Compare.{
  holds, holds-terminated, IsText, same, string_compare_with_length_lem, terminated,
}
use charcoalos.Machine.{returned, stopped, fault, Machine}
use charcoalos.Console.{literal}
use charcoalos.Prelude.{
  ◌≤◌, ◌<◌, ◌≡◌, refl, ap, ◌∙◌, Bool, true, false, [], ◌∷◌, arith, ltb, length, length-append,
  Bytes, codes, String,
}

-- The comparison with a constant whose bytes are `b`.
module _ (text : Bytes) (constant : String) (b : Bytes) (m : Machine)
    (e : literal constant ≡ terminated b []) where
  pub is_string-inside :
      length b < length text → is_string text constant (length b) m ≡ (returned (holds b text), m)
  unfolding is_string
  is_string-inside h =
      let inside : ltb (length b) (length text) ≡ true = ground arith in
      rw (e, string_compare_with_length_lem, inside) refl

  pub is_string-past :
      length text ≤ length b → is_string text constant (length b) m ≡ (stopped fault, m)
  unfolding is_string
  is_string-past h =
      let past : ltb (length b) (length text) ≡ false = ground arith in
      rw (e, string_compare_with_length_lem, past) refl

-- A name that stands in its object with enough bytes behind it is compared as a text.
pub is_string-name :
    (name tail : Bytes) (constant : String) (m : Machine)
    → IsText name
    → IsText (codes constant)
    → length (codes constant) ≤ length tail
    → is_string (terminated name tail) constant (length (codes constant)) m
      ≡ (returned (same (codes constant) name), m)
unfolding literal
is_string-name name tail constant m t k enough =
    is_string-inside (terminated name tail) constant (codes constant) m refl
      (omega (arith, length-append {0} name (0 ∷ tail)))
    ∙ ap (λ (x : Bool). (returned x, m)) (holds-terminated (codes constant) name tail k t)
