-- ===== src/DeviceTree/Walk/Properties.antt =====
-- The properties of a node, as the walk over the structure block meets them.
use charcoalos.DeviceTree.Walk.Passes.{Passes-none, Passes-append, Passes, Stage}
use mathlib.Core.Path.{subst}
use charcoalos.Endian.Decode.{be32_bytes}
use charcoalos.DeviceTree.Encode.Cursor.{pointed-add, length-padded}
use charcoalos.DeviceTree.Property.Roles.{is_named, Stands}
use charcoalos.DeviceTree.Property.Align.{gap}
use charcoalos.DeviceTree.Walk.Tokens.{walk_loop-property}
use charcoalos.DeviceTree.Walk.{walk_loop}
use charcoalos.DeviceTree.Types.{DtbHeader, plus, Blob, pointed}
use charcoalos.DeviceTree.Encode.{encode_property, padded, zeros, Property, encode_properties}
use charcoalos.DeviceTree.Property.{use_property, Walk}
use charcoalos.Strings.Compare.{IsText, terminated}
use charcoalos.Machine.{Machine, returned}
use charcoalos.DeviceTree.Encode.Sizes.{length-encode_property}
use charcoalos.Prelude.{
  ℕ, suc, ◌+◌, ◌%◌, ◌^◌, ◌≤◌, ◌<◌, ◌≡◌, ap, ◌∙◌, Bool, ◌||◌, List, [], ◌∷◌, ◌++◌, append_assoc,
  arith, length, drop, All, Bytes, String,
}

-- A property's name stands in the strings block, with some bytes behind it.
pub record Named (b : Blob) (h : DtbHeader) (offset_of : Bytes → ℕ) (p : Property) : Type 0 where
  pub text : IsText p.name
  pub inside : offset_of p.name < h.size_dt_strings
  pub short : offset_of p.name < 2 ^ 32
  pub small : length p.value < 2 ^ 32
  pub behind : Bytes
  pub name_is :
      pointed b (plus (plus b.dtb h.off_dt_strings) (offset_of p.name)) ≡ terminated p.name behind
  pub enough : 14 ≤ length behind

-- Which of two properties have been seen, before and behind some more.
abbrev pub seen : String → String → Bool × Bool → Property → Bool × Bool
seen first second s p = (s.0 || is_named first p, s.1 || is_named second p)

abbrev pub all_seen : String → String → Bool × Bool → List Property → Bool × Bool
all_seen first second s [] = s
all_seen first second s (p ∷ ps) = all_seen first second (seen first second s p) ps

-- The bytes of a property, and what is made of it, where the walk is.
walk_loop-Stage :
    (b : Blob) (struct_end : ℕ) (m : Machine) (top : struct_end + 4 ≤ 2 ^ 64)
    (offset_of : Bytes → ℕ) (h : DtbHeader) (c d e : ℕ) (p : Property) (fuel : ℕ) (rest : Bytes)
    (w w' : Walk)
    → Named b h offset_of p
    → b.dtb ≤ c
    → c % 4 ≡ 0
    → pointed b c ≡ encode_property offset_of p ++ rest
    → c + (12 + length (padded p.value)) ≤ struct_end
    → Stage c d e h w
    → use_property b
        (pointed b (plus (plus b.dtb h.off_dt_strings) (offset_of p.name)))
        (c + 12)
        (length p.value)
        (record w { dtb_cursor = c + 12 + length (padded p.value) })
        m
      ≡ (returned w', m)
    → walk_loop (suc fuel) b struct_end w m ≡ walk_loop fuel b struct_end w' m
unfolding encode_property
walk_loop-Stage b struct_end m top offset_of h c d e p fuel rest w w' named low aligned at inside
      stage ran =
    let here = stage.0 in
    let name : pointed b (plus (plus b.dtb w.info.header.off_dt_strings) (offset_of p.name))
        ≡ pointed b (plus (plus b.dtb h.off_dt_strings) (offset_of p.name)) =
      ap (λ (x : DtbHeader). pointed b (plus (plus b.dtb x.off_dt_strings) (offset_of p.name)))
        stage.3 in
    walk_loop-property b struct_end m top fuel (offset_of p.name) p.value rest w w' (rw here low)
      (rw here aligned) (rw here at) (rw here (omega arith)) named.small (rw stage.3 named.inside)
      named.short (rw (here, name) ran)

module _ (b : Blob) (struct_end : ℕ) (m : Machine) (top : struct_end + 4 ≤ 2 ^ 64)
    (offset_of : Bytes → ℕ) (h : DtbHeader) (d e : ℕ) (first second : String)
    (IsFit : Property → Type 0) (Holds : Bool × Bool → Walk → Type 0)
    (moved : (s : Bool × Bool) (w : Walk) (c : ℕ)
      → Holds s w
      → Holds s (record w { dtb_cursor = c }))
    (used : (p : Property) (name : Bytes) (value_at c : ℕ) (s : Bool × Bool) (w : Walk)
      → IsFit p
      → Stands b p name value_at
      → Holds s w
      → Stage c d e h w
      → (w' : Walk) × (use_property b name value_at (length p.value) w m ≡ (returned w', m))
        × Holds (seen first second s p) w'
        × Stage c d e h w') where
  walk_property :
      (p : Property) (s : Bool × Bool)
      → IsFit p
      → Named b h offset_of p
      → Passes b struct_end m h e d
          (Holds s)
          (Holds (seen first second s p))
          (encode_property offset_of p)
          1
  unfolding encode_property
  walk_property p s fit named fuel c rest w low aligned at inside deep holds_now stage =
      let size = length-encode_property offset_of p in
      let name = pointed b (plus (plus b.dtb h.off_dt_strings) (offset_of p.name)) in
      let behind : pointed b c
          ≡ be32_bytes 3
            ++ (be32_bytes (length p.value)
                ++ (be32_bytes (offset_of p.name) ++ (padded p.value ++ rest))) =
        at in
      let after = c + (12 + length (padded p.value)) in
      let after' = c + 12 + length (padded p.value) in
      let value_is : pointed b (c + 12) ≡ p.value ++ (zeros (gap (length p.value)) ++ rest) =
        pointed-add b c 12 low
        ∙ ap (drop 12) behind
        ∙ append_assoc p.value (zeros (gap (length p.value))) rest in
      let stands : Stands b p name (c + 12) = record {
        text = named.text;
        behind_name = named.behind;
        name_is = named.name_is;
        enough = named.enough;
        behind_value = zeros (gap (length p.value)) ++ rest;
        value_is = value_is;
      } in
      let staged : Stage after d e h (record w { dtb_cursor = after' }) =
        (omega arith, stage.1, stage.2, stage.3) in
      let behaved =
        used p name (c + 12) after s (record w { dtb_cursor = after' }) fit stands
          (moved s w after' holds_now) staged in
      let (w', ran, held, staged') = behaved in
      (
        w',
        ap (λ (n : ℕ). walk_loop n b struct_end w m) (omega arith)
            ∙ walk_loop-Stage b struct_end m top offset_of h c d e p fuel rest w w' named low
                aligned at (omega (arith, size)) stage ran,
        held,
        subst (λ (x : ℕ). Stage x d e h w') (omega (arith, size)) staged',
      )

  -- All properties of a node.
  pub Passes-properties :
      (ps : List Property) (s : Bool × Bool)
      → All IsFit ps
      → All (Named b h offset_of) ps
      → Passes b struct_end m h e d
          (Holds s)
          (Holds (all_seen first second s ps))
          (encode_properties offset_of ps)
          (length ps)
  unfolding encode_properties
  Passes-properties [] s fit named = Passes-none b struct_end m h e d (Holds s)
  Passes-properties (p ∷ ps) s fit named =
      let s' = seen first second s p in
      let size = length-encode_property offset_of p in
      let total : 1 + length ps ≡ suc (length ps) = omega arith in
      subst
        (λ (n : ℕ).
          Passes b struct_end m h e d (Holds s) (Holds (all_seen first second s' ps))
            (encode_property offset_of p ++ encode_properties offset_of ps) n)
        total
        (Passes-append b struct_end m h e d (Holds s) (Holds s')
          (Holds (all_seen first second s' ps)) (encode_property offset_of p)
          (encode_properties offset_of ps) 1 (length ps)
          (omega (arith, size, length-padded p.value)) (walk_property p s fit.0 named.0)
          (Passes-properties ps s' fit.1 named.1))
