-- ===== src/Shell/Tokens/Words.antt =====
-- The tokens are the words of the command.
use charcoalos.Shell.Tokens.Blanked.{
  blanked, blanked-start, blanked-plain, starts-space, starts, starts-plain, starts-start,
  blanked-space,
}
use charcoalos.Machine.{returned, Machine}
use charcoalos.Console.Print.{until_nul}
use charcoalos.Shell.Tokens.Loop.{tokenize_loop_lem, looped, store_token-append, Loops}
use charcoalos.Shell.Tokens.{is_space, tokenize_command, Tokenized}
use charcoalos.Strings.Compare.{IsText, terminated, string_length-terminated}
use charcoalos.Prelude.{
  ℕ, zero, suc, ◌+◌, ◌≤◌, ◌<◌, ◌≡◌, refl, sym, ap, ap₂, inl, inr, Bool, true, false, List, [], ◌∷◌,
  ◌++◌, map, append_assoc, arith, ◌==◌, if◌then◌else◌, Bool-cases, length, take, drop,
  length-append, length-drop, Bytes, drop-append, length-snoc,
}

-- The bytes up to the first space.
unfoldable pub first_word : Bytes → Bytes
first_word [] = []
first_word (c ∷ cs) = if is_space c then [] else c ∷ first_word cs

-- The words that start in the text; the first byte starts one only where `between` is true.
words_from : Bool → Bytes → List Bytes
unfolding first_word
words_from between [] = []
words_from between (c ∷ cs) =
    if is_space c
    then words_from true cs
    else if between
    then first_word (c ∷ cs) ∷ words_from false cs
    else words_from false cs

-- The first word of a command may be empty, the others are not.
pub words : Bytes → List Bytes
unfolding words_from
words text = first_word text ∷ words_from false text

-- The string that a token points to.
abbrev pub token : Bytes → ℕ → Bytes
token command offset = until_nul (drop offset command)

first_word-blanked :
    (text rest : Bytes) (room : ℕ)
    → IsText text
    → until_nul (terminated (blanked false room text) rest) ≡ first_word text
unfolding first_word blanked
first_word-blanked [] rest room t = refl
first_word-blanked (c ∷ cs) rest room t =
    let nonzero : c == 0 ≡ false = ground arith in
    elim (Bool-cases (is_space c)) [
      | inl space ↦ rw (blanked-space c cs false room space, space) refl
      | inr plain ↦
          rw (blanked-plain c cs room plain, plain)
            (rw (nonzero, first_word-blanked cs rest room t.1) refl)
    ]

starts-length-word :
    (i c : ℕ) (cs : Bytes)
    → is_space c ≡ false
    → ((b : Bool) (room : ℕ) → length (starts (i + 1) b room cs) ≤ room)
    → (between : Bool) (room : ℕ) → length (starts i between room (c ∷ cs)) ≤ room
unfolding starts
starts-length-word i c cs plain ih false room = rw (starts-plain c cs i room plain) (ih false room)
starts-length-word i c cs plain ih true zero = rw plain (omega arith)
starts-length-word i c cs plain ih true (suc room) =
    rw (starts-start c cs i room plain) (omega (arith, ih false room))

starts-length :
    (i : ℕ) (between : Bool) (room : ℕ) (text : Bytes) → length (starts i between room text) ≤ room
unfolding starts
starts-length i between room [] = omega arith
starts-length i between room (c ∷ cs) = elim (Bool-cases (is_space c)) [
  | inl space ↦ rw (starts-space c cs i between room space) (starts-length (i + 1) true room cs)
  | inr plain ↦ starts-length-word i c cs plain (λ b r. starts-length (i + 1) b r cs) between room
]

-- The tokens that the loop finds in a command `before ++ text`.
Finds : Bytes → Bytes → Bytes → Bool → ℕ → Type 0
Finds text before rest between room =
    map (token (before ++ terminated (blanked between room text) rest))
      (starts (length before) between room text)
    ≡ take room (words_from between text)

Finds-skip :
    (c x : ℕ) (cs before rest : Bytes) (b b' : Bool) (room : ℕ)
    → blanked b room (c ∷ cs) ≡ x ∷ blanked b' room cs
    → starts (length before) b room (c ∷ cs) ≡ starts (length before + 1) b' room cs
    → words_from b (c ∷ cs) ≡ words_from b' cs
    → Finds cs (before ++ x ∷ []) rest b' room
    → Finds (c ∷ cs) before rest b room
unfolding Finds
Finds-skip c x cs before rest b b' room blank start word ih =
    rw
      (
        blank,
        start,
        word,
        length-snoc before x,
        sym (append_assoc before (x ∷ []) (terminated (blanked b' room cs) rest)),
      )
      ih

Finds-start :
    (c : ℕ) (cs before rest : Bytes) (room : ℕ)
    → IsText (c ∷ cs)
    → is_space c ≡ false
    → Finds cs (before ++ c ∷ []) rest false room
    → Finds (c ∷ cs) before rest true (suc room)
unfolding Finds words_from
Finds-start c cs before rest room t plain ih =
    let nonzero : c == 0 ≡ false = ground arith in
    let after = terminated (blanked false room cs) rest in
    let head : token (before ++ c ∷ after) (length before) ≡ c ∷ first_word cs =
      rw (drop-append before (c ∷ after))
        (rw (nonzero, first_word-blanked cs rest room t.1) refl) in
    let others : map (token (before ++ c ∷ after)) (starts (length before + 1) false room cs)
        ≡ take room (words_from false cs) =
      rw (length-snoc before c, sym (append_assoc before (c ∷ []) after)) ih in
    rw (blanked-start c cs room plain, starts-start c cs (length before) room plain, plain)
      (ap₂ ◌∷◌ head others)

Finds-word :
    (c : ℕ) (cs before rest : Bytes)
    → IsText (c ∷ cs)
    → is_space c ≡ false
    → ((room : ℕ) → Finds cs (before ++ c ∷ []) rest false room)
    → (between : Bool) (room : ℕ) → Finds (c ∷ cs) before rest between room
unfolding Finds words_from starts
Finds-word c cs before rest t plain ih false room =
    Finds-skip c c cs before rest false false room (blanked-plain c cs room plain)
      (starts-plain c cs (length before) room plain) (rw plain refl) (ih room)
Finds-word c cs before rest t plain ih true zero = rw plain refl
Finds-word c cs before rest t plain ih true (suc room) =
    Finds-start c cs before rest room t plain (ih room)

words_from_lem :
    (text before rest : Bytes) (between : Bool) (room : ℕ)
    → IsText text
    → Finds text before rest between room
unfolding Finds words_from starts
words_from_lem [] before rest between zero t = refl
words_from_lem [] before rest between (suc room) t = refl
words_from_lem (c ∷ cs) before rest between room t = elim (Bool-cases (is_space c)) [
  | inl space ↦
      Finds-skip c 0 cs before rest between true room (blanked-space c cs between room space)
        (starts-space c cs (length before) between room space) (rw space refl)
        (words_from_lem cs (before ++ 0 ∷ []) rest true room t.1)
  | inr plain ↦
      Finds-word c cs before rest t plain
        (λ r. words_from_lem cs (before ++ c ∷ []) rest false r t.1) between room
]

take-append : {A : Type 0} (front back : List A) → take (length front) (front ++ back) ≡ front
take-append [] back = refl
take-append (x ∷ front) back = ap (◌∷◌ x) (take-append front back)

-- The first word ends with a terminator, and is a text.
first_word-terminated :
    (text rest : Bytes) (room : ℕ)
    → (after : Bytes) × (terminated (blanked false room text) rest
        ≡ terminated (first_word text) after)
unfolding first_word blanked
first_word-terminated [] rest room = (rest, refl)
first_word-terminated (c ∷ cs) rest room = elim (Bool-cases (is_space c)) [
  | inl space ↦ (terminated (blanked true room cs) rest, rw space refl)
  | inr plain ↦
      let (after, e) = first_word-terminated cs rest room in (after, rw plain (ap (◌∷◌ c) e))
]

pub first_word-IsText : (text : Bytes) → IsText text → IsText (first_word text)
unfolding first_word
first_word-IsText [] t = tt
first_word-IsText (c ∷ cs) t = ground (arith, first_word-IsText cs t.1)

-- What the function returns: at most `max_tokens` tokens, which the array holds within its length,
-- and that point to the first words of the command.
pub record IsTokenized (text : Bytes) (capacity max_tokens : ℕ) (found : Tokenized) : Type 0 where
  pub number_le : found.2 ≤ max_tokens
  pub capacity_is : length found.1 ≡ capacity
  pub first_is : (after : Bytes) × (found.0 ≡ terminated (first_word text) after)
  pub starts_at : (others : List ℕ) × (take found.2 found.1 ≡ 0 ∷ others)
  pub number_positive : 0 < found.2
  pub tokens_are : map (token found.0) (take found.2 found.1) ≡ take max_tokens (words text)

looped-IsTokenized :
    (text rest : Bytes) (free : List ℕ) (room : ℕ)
    → IsText text
    → room ≤ length free
    → IsTokenized text (suc (length free)) (suc room) (looped text [] rest (0 ∷ []) free false room)
unfolding looped words Finds
looped-IsTokenized text rest free room t fits =
    let offsets = starts 0 false room text in
    let few : length offsets ≤ room = starts-length 0 false room text in
    let all : length (offsets ++ drop (length offsets) free) ≡ length free = omega (
      arith,
      length-append {0} offsets (drop (length offsets) free),
      length-drop {0} (length offsets) free,
    ) in
    record {
      number_le = omega arith;
      capacity_is = ap suc all;
      first_is = first_word-terminated text rest room;
      starts_at =
          let count : 1 + length offsets ≡ suc (length offsets) = omega arith in
          (take (length offsets) (offsets ++ drop (length offsets) free), rw count refl);
      number_positive = omega arith;
      tokens_are =
          let count : 1 + length offsets ≡ suc (length offsets) = omega arith in
          rw count (
            ap₂ ◌∷◌ (first_word-blanked text rest room t) (
              rw (take-append offsets (drop (length offsets) free))
                (words_from_lem text [] rest false room t)));
    }

-- On a string that is not empty, with an array that has room for `max_tokens` and `max_tokens` not 0,
-- the function returns, has written within the command and the array only, and has left in the array
-- pointers to the first `max_tokens` words of the command, each one a string in the command itself.
-- The first word is what stands before the first space, so it is empty after a leading space.
pub tokenize_command-words :
    (text rest : Bytes) (tokens : List ℕ) (max_tokens : ℕ) (m : Machine)
    → IsText text
    → 0 < length text
    → 0 < max_tokens
    → max_tokens ≤ length tokens
    → (found : Tokenized) × (tokenize_command (terminated text rest) tokens max_tokens m
        ≡ (returned found, m))
      × IsTokenized text (length tokens) max_tokens found
unfolding tokenize_command Loops
tokenize_command-words text rest [] max_tokens m t some_text some_room fits = absurd (omega arith)
tokenize_command-words text rest (y ∷ free) zero m t some_text some_room fits = absurd (omega arith)
tokenize_command-words text rest (y ∷ free) (suc room) m t some_text some_room fits =
    let nonempty : length text == 0 ≡ false = ground arith in
    let positive : suc room == 0 ≡ false = ground arith in
    let limit : suc room ≡ 1 + room = omega arith in
    (
      looped text [] rest (0 ∷ []) free false room,
      rw (positive, string_length-terminated text rest t)
          (rw (nonempty, store_token-append [] free y 0 m)
            (rw limit (tokenize_loop_lem text [] rest (0 ∷ []) free false room m t (omega arith)))),
      looped-IsTokenized text rest free room t (omega arith),
    )
