-- ===== src/Shell/Tokens/Loop.antt =====
-- What the loop of `tokenize_command` leaves in the command and in the array.
use charcoalos.Shell.Tokens.Blanked.{
  blanked, blanked-start, blanked-plain, starts-space, starts, starts-plain, starts-start,
  blanked-space,
}
use charcoalos.Shell.Tokens.{is_space, Tokenized, store_token, tokenize_loop}
use charcoalos.Strings.Compare.{IsText, terminated}
use charcoalos.Console.{store}
use charcoalos.Machine.{Machine, returned}
use charcoalos.Prelude.{
  ℕ, zero, suc, ◌+◌, ◌≤◌, ◌≡◌, refl, sym, ap, ◌∙◌, inl, inr, Bool, true, false, List, [], ◌∷◌, ◌++◌,
  append_assoc, arith, ltb, leb, ◌==◌, Bool-cases, length, drop, length-append, Bytes, set-append,
  get_elem?-append, length-snoc,
}

pub store_token-append :
    (a b : List ℕ) (x v : ℕ) (m : Machine)
    → store_token (a ++ x ∷ b) (length a) v m ≡ (returned (a ++ v ∷ b), m)
unfolding store_token
store_token-append a b x v m =
    let inside : ltb (length a) (length (a ++ x ∷ b)) ≡ true =
      ground (arith, length-append {0} a (x ∷ b)) in
    rw (inside, set-append) refl

store-append :
    (a b : Bytes) (x v : ℕ) (m : Machine)
    → store (a ++ x ∷ b) (length a) v m ≡ (returned (a ++ v ∷ b), m)
unfolding store
store-append a b x v m =
    let inside : ltb (length a) (length (a ++ x ∷ b)) ≡ true =
      ground (arith, length-append {0} a (x ∷ b)) in
    rw (inside, set-append) refl

-- What the loop returns, in a command `before ++ text`, with the array `found ++ free`.
unfoldable pub looped : Bytes → Bytes → Bytes → List ℕ → List ℕ → Bool → ℕ → Tokenized
unfolding blanked starts
looped text before rest found free between room =
    let offsets = starts (length before) between room text in
    (
      before ++ terminated (blanked between room text) rest,
      found ++ (offsets ++ drop (length offsets) free),
      length found + length offsets,
    )

looped-skip :
    (c x : ℕ) (cs before rest : Bytes) (found free : List ℕ) (b b' : Bool) (room : ℕ)
    → blanked b room (c ∷ cs) ≡ x ∷ blanked b' room cs
    → starts (length before) b room (c ∷ cs) ≡ starts (length before + 1) b' room cs
    → looped (c ∷ cs) before rest found free b room
      ≡ looped cs (before ++ x ∷ []) rest found free b' room
unfolding looped
looped-skip c x cs before rest found free b b' room blank start =
    rw
      (
        blank,
        start,
        length-snoc before x,
        append_assoc before (x ∷ []) (terminated (blanked b' room cs) rest),
      )
      refl

looped-start :
    (c : ℕ) (cs before rest : Bytes) (found : List ℕ) (y : ℕ) (free : List ℕ) (room : ℕ)
    → is_space c ≡ false
    → looped (c ∷ cs) before rest found (y ∷ free) true (suc room)
      ≡ looped cs (before ++ c ∷ []) rest (found ++ length before ∷ []) free false room
unfolding looped
looped-start c cs before rest found y free room plain =
    let offsets = starts (length (before ++ c ∷ [])) false room cs in
    let one_more : length found + suc (length offsets)
        ≡ length (found ++ length before ∷ []) + length offsets =
      omega (arith, length-append {0} found (length before ∷ [])) in
    rw
      (
        blanked-start c cs room plain,
        starts-start c cs (length before) room plain,
        length-snoc before c,
      )
      (rw
        (
          append_assoc before (c ∷ []) (terminated (blanked false room cs) rest),
          append_assoc found (length before ∷ []) (offsets ++ drop (length offsets) free),
          one_more,
        )
        refl)

looped-nil :
    (before rest : Bytes) (found free : List ℕ) (between : Bool) (room : ℕ)
    → looped [] before rest found free between room
      ≡ (before ++ 0 ∷ rest, found ++ free, length found)
unfolding looped
looped-nil before rest found free between room =
    let none_found : length found + 0 ≡ length found = omega arith in rw none_found refl

looped-full :
    (c : ℕ) (cs before rest : Bytes) (found free : List ℕ)
    → is_space c ≡ false
    → looped (c ∷ cs) before rest found free true 0
      ≡ (before ++ terminated (c ∷ cs) rest, found ++ free, length found)
unfolding looped
looped-full c cs before rest found free plain =
    let none_found : length found + 0 ≡ length found = omega arith in rw (plain, none_found) refl

tokenize_loop-shift :
    (left x : ℕ) (before text : Bytes) (tokens : List ℕ) (n : ℕ) (b : Bool) (max_tokens : ℕ)
    (m : Machine)
    → tokenize_loop left (length before + 1) (before ++ x ∷ text) tokens n b max_tokens m
      ≡ tokenize_loop left
          (length (before ++ x ∷ []))
          ((before ++ x ∷ []) ++ text)
          tokens
          n
          b
          max_tokens
          m
tokenize_loop-shift left x before text tokens n b max_tokens m =
    rw (length-snoc before x, append_assoc before (x ∷ []) text) refl

-- The loop from this place on does what `looped` says.
unfoldable pub Loops : Bytes → Bytes → Bytes → List ℕ → List ℕ → Bool → ℕ → Machine → Type 0
Loops text before rest found free between room m =
    tokenize_loop (length text) (length before) (before ++ terminated text rest) (found ++ free)
      (length found) between (length found + room) m
    ≡ (returned (looped text before rest found free between room), m)

module _ (c : ℕ) (cs before rest : Bytes) (found : List ℕ) (m : Machine)
    (nonzero : c == 0 ≡ false) where
  tokenize_loop-space :
      (free : List ℕ) (between : Bool) (room : ℕ)
      → is_space c ≡ true
      → Loops cs (before ++ 0 ∷ []) rest found free true room m
      → Loops (c ∷ cs) before rest found free between room m
  unfolding tokenize_loop Loops
  tokenize_loop-space free between room space ih =
      rw
        (
          get_elem?-append before (terminated cs rest) c,
          nonzero,
          space,
          store-append before (terminated cs rest) c 0 m,
        )
        (tokenize_loop-shift (length cs) 0 before (terminated cs rest) (found ++ free)
            (length found) true (length found + room) m
          ∙ ih
          ∙ ap (λ r. (returned r, m))
              (sym (
                looped-skip c 0 cs before rest found free between true room
                  (blanked-space c cs between room space)
                  (starts-space c cs (length before) between room space))))

  tokenize_loop-plain :
      (free : List ℕ) (room : ℕ)
      → is_space c ≡ false
      → Loops cs (before ++ c ∷ []) rest found free false room m
      → Loops (c ∷ cs) before rest found free false room m
  unfolding tokenize_loop Loops
  tokenize_loop-plain free room plain ih =
      rw (get_elem?-append before (terminated cs rest) c, nonzero, plain)
        (tokenize_loop-shift (length cs) c before (terminated cs rest) (found ++ free)
            (length found) false (length found + room) m
          ∙ ih
          ∙ ap (λ r. (returned r, m))
              (sym (
                looped-skip c c cs before rest found free false false room
                  (blanked-plain c cs room plain) (starts-plain c cs (length before) room plain))))

  tokenize_loop-full :
      (free : List ℕ) → is_space c ≡ false → Loops (c ∷ cs) before rest found free true 0 m
  unfolding tokenize_loop Loops
  tokenize_loop-full free plain =
      let full : leb (length found + 0) (length found) ≡ true = ground arith in
      rw (get_elem?-append before (terminated cs rest) c, nonzero, plain)
        (rw full (ap (λ r. (returned r, m)) (sym (looped-full c cs before rest found free plain))))

  tokenize_loop-start :
      (y : ℕ) (free : List ℕ) (room : ℕ)
      → is_space c ≡ false
      → Loops cs (before ++ c ∷ []) rest (found ++ length before ∷ []) free false room m
      → Loops (c ∷ cs) before rest found (y ∷ free) true (suc room) m
  unfolding tokenize_loop Loops
  tokenize_loop-start y free room plain ih =
      let more : leb (length found + suc room) (length found) ≡ false = ground arith in
      let limit : length found + suc room ≡ length (found ++ length before ∷ []) + room =
        omega (arith, length-append {0} found (length before ∷ [])) in
      rw (get_elem?-append before (terminated cs rest) c, nonzero, plain)
        (rw (more, store_token-append found free y (length before) m)
          (tokenize_loop-shift (length cs) c before (terminated cs rest)
              (found ++ length before ∷ free) (length found + 1) false (length found + suc room) m
            ∙ rw
                (
                  limit,
                  length-snoc found (length before),
                  sym (append_assoc found (length before ∷ []) free),
                )
                ih
            ∙ ap (λ r. (returned r, m))
                (sym (looped-start c cs before rest found y free room plain))))

  tokenize_loop-word :
      is_space c ≡ false
      → ((found' free : List ℕ) (room : ℕ)
          → room ≤ length free
          → Loops cs (before ++ c ∷ []) rest found' free false room m)
      → (free : List ℕ) (between : Bool) (room : ℕ) → room ≤ length free
      → Loops (c ∷ cs) before rest found free between room m
  tokenize_loop-word plain ih free false room h =
      tokenize_loop-plain free room plain (ih found free room h)
  tokenize_loop-word plain ih free true zero h = tokenize_loop-full free plain
  tokenize_loop-word plain ih [] true (suc room) h = absurd (omega arith)
  tokenize_loop-word plain ih (y ∷ free) true (suc room) h =
      tokenize_loop-start y free room plain
        (ih (found ++ length before ∷ []) free room (omega arith))

pub tokenize_loop_lem :
    (text before rest : Bytes) (found free : List ℕ) (between : Bool) (room : ℕ) (m : Machine)
    → IsText text
    → room ≤ length free
    → Loops text before rest found free between room m
unfolding tokenize_loop Loops
tokenize_loop_lem [] before rest found free between room m t h = rw looped-nil refl
tokenize_loop_lem (c ∷ cs) before rest found free between room m t h =
    let nonzero : c == 0 ≡ false = ground arith in
    elim (Bool-cases (is_space c)) [
      | inl space ↦
          tokenize_loop-space c cs before rest found m nonzero free between room space
            (tokenize_loop_lem cs (before ++ 0 ∷ []) rest found free true room m t.1 h)
      | inr plain ↦
          tokenize_loop-word c cs before rest found m nonzero plain
            (λ found' free' room' h'.
              tokenize_loop_lem cs (before ++ c ∷ []) rest found' free' false room' m t.1 h')
            free between room h
    ]
