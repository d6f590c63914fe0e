-- ===== src/DeviceTree/Walk/Passes.antt =====
-- Pieces of a structure block that the walk passes over, and how they are put together.
use charcoalos.DeviceTree.Property.Align.{gap}
use charcoalos.Endian.Decode.{be32_bytes}
use charcoalos.DeviceTree.Encode.Cursor.{pointed-next, length-padded}
use charcoalos.DeviceTree.Walk.Tokens.{entered, walk_loop-begin, walk_loop-end}
use charcoalos.DeviceTree.Walk.{walk_loop}
use charcoalos.DeviceTree.Types.{pointed, DtbHeader, Blob}
use charcoalos.DeviceTree.Encode.{padded, zeros}
use charcoalos.DeviceTree.Property.{Walk}
use charcoalos.Strings.Compare.{IsText}
use charcoalos.Machine.{Machine}
use charcoalos.Prelude.{
  ℕ, suc, ◌+◌, ◌-◌, ◌%◌, ◌^◌, ◌≤◌, ◌≡◌, ap, ◌∙◌, [], ◌∷◌, ◌++◌, append_assoc, arith, length,
  length-append, Bytes,
}
use mathlib.Core.Path.{subst}

-- Where the walk is: the cursor, the depth, the end tokens, and the header.
abbrev pub Stage : ℕ → ℕ → ℕ → DtbHeader → Walk → Type 0
Stage c d e h w =
    (w.dtb_cursor ≡ c) × (w.node_depth ≡ d) × (w.end_tokens_encountered ≡ e) × (w.info.header ≡ h)

module _ (b : Blob) (struct_end : ℕ) (m : Machine) (h : DtbHeader) (e : ℕ) where
  -- At the depth `d`, the walk handles the tokens of the text and stands behind it, wherever the
  -- text stands.
  abbrev pub Passes : ℕ → (Walk → Type 0) → (Walk → Type 0) → Bytes → ℕ → Type 0
  Passes d Before After text tokens =
      (fuel c : ℕ) (rest : Bytes) (w : Walk)
      → b.dtb ≤ c
      → c % 4 ≡ 0
      → pointed b c ≡ text ++ rest
      → c + length text ≤ struct_end
      → d ≤ c
      → Before w
      → Stage c d e h w
      → (w' : Walk) × (walk_loop (tokens + fuel) b struct_end w m
          ≡ walk_loop fuel b struct_end w' m)
        × After w'
        × Stage (c + length text) d e h w'

  pub Passes-none : (d : ℕ) (A : Walk → Type 0) → Passes d A A [] 0
  Passes-none d A fuel c rest w low aligned at inside deep before stage = (
    w,
    ap (λ (n : ℕ). walk_loop n b struct_end w m) (omega arith),
    before,
    subst (λ (x : ℕ). Stage x d e h w) (omega arith) stage,
  )

  pub Passes-after :
      (d : ℕ) (A B C : Walk → Type 0) (text : Bytes) (tokens : ℕ)
      → ((w : Walk) → B w → C w)
      → Passes d A B text tokens
      → Passes d A C text tokens
  Passes-after d A B C text tokens weaker one fuel c rest w low aligned at inside deep before
        stage =
      let (w', ran, held, staged) = one fuel c rest w low aligned at inside deep before stage in
      (w', ran, weaker w' held, staged)

  pub Passes-append :
      (d : ℕ) (A B C : Walk → Type 0) (first second : Bytes) (tokens tokens' : ℕ)
      → length first % 4 ≡ 0
      → Passes d A B first tokens
      → Passes d B C second tokens'
      → Passes d A C (first ++ second) (tokens + tokens')
  Passes-append d A B C first second tokens tokens' even one two fuel c rest w low aligned at inside
        deep before stage =
      let total = length-append {0} first second in
      let here : pointed b c ≡ first ++ (second ++ rest) = at ∙ append_assoc first second rest in
      let next = c + length first in
      let there : pointed b next ≡ second ++ rest =
        pointed-next b c first (second ++ rest) low here in
      let (w1, ran, held, staged) =
        one (tokens' + fuel) c (second ++ rest) w low aligned here (omega (arith, total)) deep
          before stage in
      let (w2, ran', held', staged') =
        two fuel next rest w1 (omega arith) (omega arith) there (omega (arith, total)) (omega arith)
          held staged in
      (
        w2,
        ap (λ (n : ℕ). walk_loop n b struct_end w m) (omega arith) ∙ ran ∙ ran',
        held',
        subst (λ (x : ℕ). Stage x d e h w2) (omega (arith, total)) staged',
      )

  -- Into a node.
  node_begins :
      (top : struct_end + 4 ≤ 2 ^ 64) (fuel c d : ℕ) (A B : Walk → Type 0) (name rest : Bytes)
      (w : Walk)
      → IsText name
      → b.dtb ≤ c
      → c % 4 ≡ 0
      → pointed b c ≡ be32_bytes 1 ++ (padded (name ++ (0 ∷ [])) ++ rest)
      → c + 4 + length (padded (name ++ (0 ∷ []))) ≤ struct_end
      → d ≤ c
      → ((cursor : ℕ) (tail : Bytes) (w : Walk)
          → A w
          → pointed b (w.dtb_cursor + 4) ≡ name ++ (0 ∷ tail)
          → B (entered b struct_end m top cursor w))
      → A w
      → Stage c d e h w
      → (w' : Walk) × (walk_loop (suc fuel) b struct_end w m ≡ walk_loop fuel b struct_end w' m)
        × B w'
        × Stage (c + 4 + length (padded (name ++ (0 ∷ [])))) (suc d) e h w'
  node_begins top fuel c d A B name rest w t low aligned at inside deep entering before stage =
      let text = padded (name ++ (0 ∷ [])) in
      let named : pointed b (w.dtb_cursor + 4)
          ≡ name ++ (0 ∷ (zeros (gap (length (name ++ (0 ∷ [])))) ++ rest)) =
        ap (λ (x : ℕ). pointed b (x + 4)) stage.0
        ∙ pointed-next b c (be32_bytes 1) (text ++ rest) low at
        ∙ simp append_assoc in
      let next = w.dtb_cursor + 4 + length text in
      (
        entered b struct_end m top next w,
        walk_loop-begin b struct_end m top fuel name rest w (rw stage.0 low) (rw stage.0 aligned) t
            (ap (pointed b) stage.0 ∙ at) (omega (arith, stage.0)) (omega (arith, stage.1)),
        entering next _ w before named,
        (omega (arith, stage.0), omega (arith, stage.1), stage.2, stage.3),
      )

  -- Out of a node.
  node_ends :
      (top : struct_end + 4 ≤ 2 ^ 64) (fuel c d : ℕ) (C D : Walk → Type 0) (rest : Bytes) (w : Walk)
      → pointed b c ≡ be32_bytes 2 ++ rest
      → c + 4 ≤ struct_end
      → ((cursor depth : ℕ) (w : Walk)
          → C w
          → D (record w { dtb_cursor = cursor; node_depth = depth }))
      → C w
      → Stage c (suc d) e h w
      → (w' : Walk) × (walk_loop (suc fuel) b struct_end w m ≡ walk_loop fuel b struct_end w' m)
        × D w'
        × Stage (c + 4) d e h w'
  node_ends top fuel c d C D rest w at inside leaving before stage = (
    record w { dtb_cursor = w.dtb_cursor + 4; node_depth = w.node_depth - 1 },
    walk_loop-end b struct_end m top fuel rest w (ap (pointed b) stage.0 ∙ at)
        (omega (arith, stage.0)) (omega (arith, stage.1)),
    leaving (w.dtb_cursor + 4) (w.node_depth - 1) w before,
    (omega (arith, stage.0), omega (arith, stage.1), stage.2, stage.3),
  )

  -- A node, from what it holds.
  pub Passes-node :
      (top : struct_end + 4 ≤ 2 ^ 64) (d : ℕ) (A B C D : Walk → Type 0) (name inner : Bytes)
      (tokens : ℕ)
      → IsText name
      → length inner % 4 ≡ 0
      → ((cursor : ℕ) (tail : Bytes) (w : Walk)
          → A w
          → pointed b (w.dtb_cursor + 4) ≡ name ++ (0 ∷ tail)
          → B (entered b struct_end m top cursor w))
      → Passes (suc d) B C inner tokens
      → ((cursor depth : ℕ) (w : Walk)
          → C w
          → D (record w { dtb_cursor = cursor; node_depth = depth }))
      → Passes d A D
          (be32_bytes 1 ++ (padded (name ++ (0 ∷ [])) ++ (inner ++ be32_bytes 2)))
          (suc (tokens + 1))
  Passes-node top d A B C D name inner tokens t even entering one leaving fuel c rest w low aligned
        at inside deep before stage =
      let text = padded (name ++ (0 ∷ [])) in
      let size = length-padded (name ++ (0 ∷ [])) in
      let split : length (text ++ (inner ++ be32_bytes 2)) ≡ length text + (length inner + 4) =
        length-append {0} text (inner ++ be32_bytes 2)
        ∙ ap (λ (n : ℕ). length text + n) (length-append {0} inner (be32_bytes 2)) in
      let end = be32_bytes 2 ++ rest in
      let at' : pointed b c ≡ be32_bytes 1 ++ (text ++ (inner ++ end)) =
        at
        ∙ ap (λ (x : Bytes). be32_bytes 1 ++ x)
            (append_assoc text (inner ++ be32_bytes 2) rest
              ∙ ap (λ (x : Bytes). text ++ x) (append_assoc inner (be32_bytes 2) rest)) in
      let next = c + 4 + length text in
      let named : pointed b (c + 4) ≡ text ++ (inner ++ end) =
        pointed-next b c (be32_bytes 1) (text ++ (inner ++ end)) low at' in
      let there : pointed b next ≡ inner ++ end =
        pointed-next b (c + 4) text (inner ++ end) (omega arith) named in
      let behind : pointed b (next + length inner) ≡ end =
        pointed-next b next inner end (omega arith) there in
      let (w1, begun, held, staged) =
        node_begins top (tokens + (1 + fuel)) c d A B name (inner ++ end) w t low aligned at'
          (omega (arith, split)) deep entering before stage in
      let (w2, ran, held', staged') =
        one (1 + fuel) next end w1 (omega arith) (omega (arith, size)) there (omega (arith, split))
          (omega arith) held staged in
      let (w3, over, held'', staged'') =
        node_ends top fuel (next + length inner) d C D rest w2 behind (omega (arith, split)) leaving
          held' staged' in
      (
        w3,
        ap (λ (n : ℕ). walk_loop n b struct_end w m) (omega arith)
            ∙ begun
            ∙ ran
            ∙ ap (λ (n : ℕ). walk_loop n b struct_end w2 m) (omega arith)
            ∙ over,
        held'',
        subst (λ (x : ℕ). Stage x d e h w3) (omega (arith, split)) staged'',
      )
