-- ===== src/Shell/Tokens/Settles.antt =====
-- kernel/Console/Shell.c, `tokenize_command` on any bytes: it writes within the command and the array.
use charcoalos.Shell.Tokens.{tokenize_command, tokenize_loop, is_space, store_token, Tokenized}
use charcoalos.Machine.Settles.{
  SettlesOn-or_fault, SettlesOn-if, SettlesOn-bind, SettlesOn, SettlesOn-pure,
}
use charcoalos.Strings.{string_length}
use charcoalos.Console.{store}
use charcoalos.Prelude.{
  ℕ, zero, suc, ◌+◌, ◌≤◌, ◌<◌, ◌≡◌, refl, ◌∙◌, Bool, true, false, some, List, [], ◌∷◌, arith, ltb,
  leb, ◌==◌, length, get_elem?, set, length-set, Bytes,
}

get_elem?-lt : {A : Type 0} (xs : List A) (i : ℕ) (x : A) → get_elem? xs i ≡ some x → i < length xs
get_elem?-lt [] i x e = ground (arith, e)
get_elem?-lt (y ∷ xs) zero x e = omega arith
get_elem?-lt (y ∷ xs) (suc i) x e = omega (arith, get_elem?-lt xs i x e)

abbrev HasLength : {A : Type 0} → ℕ → List A → Type 0
HasLength size xs = length xs ≡ size

store-HasLength :
    (text : Bytes) (i c size : ℕ)
    → length text ≡ size
    → i < length text
    → SettlesOn (HasLength size) (store text i c)
unfolding store
store-HasLength text i c size h within =
    let inside : ltb i (length text) ≡ true = ground arith in
    rw inside (SettlesOn-pure (HasLength size) (set text i c) (length-set text i c ∙ h))

store_token-HasLength :
    (tokens : List ℕ) (n offset : ℕ)
    → n < length tokens
    → SettlesOn (HasLength (length tokens)) (store_token tokens n offset)
unfolding store_token
store_token-HasLength tokens n offset within =
    let inside : ltb n (length tokens) ≡ true = ground arith in
    rw inside (
      SettlesOn-pure (HasLength (length tokens)) (set tokens n offset) (length-set tokens n offset))

-- The command that the function leaves is of the size that it had.
abbrev pub KeepsSize : ℕ → Tokenized → Type 0
KeepsSize size found = length found.0 ≡ size

tokenize_loop-KeepsSize :
    (left i : ℕ) (command : Bytes) (tokens : List ℕ) (n : ℕ) (between : Bool) (max_tokens size : ℕ)
    → length command ≡ size
    → max_tokens ≤ length tokens
    → SettlesOn (KeepsSize size) (tokenize_loop left i command tokens n between max_tokens)
unfolding tokenize_loop
tokenize_loop-KeepsSize zero i command tokens n between max_tokens size h k =
    SettlesOn-pure (KeepsSize size) (command, tokens, n) h
tokenize_loop-KeepsSize (suc left) i command tokens n between max_tokens size h k =
    let done = SettlesOn-pure (KeepsSize size) (command, tokens, n) h in
    let later = tokenize_loop-KeepsSize left (i + 1) in
    SettlesOn-or_fault (KeepsSize size) (get_elem? command i) _ λ c e.
      SettlesOn-if (KeepsSize size) (c == 0) _ _ (λ _. done)
        λ _.
          SettlesOn-if (KeepsSize size) (is_space c) _ _
            (λ _.
              SettlesOn-bind (HasLength size) (KeepsSize size) _ _
                (store-HasLength command i 0 size h (get_elem?-lt command i c e))
                λ command' h'. later command' tokens n true max_tokens size h' k)
            λ _.
              SettlesOn-if (KeepsSize size) between _ _
                (λ _.
                  SettlesOn-if (KeepsSize size) (leb max_tokens n) _ _ (λ _. done)
                    λ room.
                      SettlesOn-bind (HasLength (length tokens)) (KeepsSize size) _ _
                        (store_token-HasLength tokens n i (ground (arith, room)))
                        λ tokens' k'.
                          later command tokens' (n + 1) false max_tokens size h (omega arith))
                λ _. later command tokens n between max_tokens size h k

-- On any bytes, and with an array of at least `max_tokens` elements.
pub tokenize_command-KeepsSize :
    (command : Bytes) (tokens : List ℕ) (max_tokens : ℕ)
    → max_tokens ≤ length tokens
    → SettlesOn (KeepsSize (length command)) (tokenize_command command tokens max_tokens)
unfolding tokenize_command
tokenize_command-KeepsSize command tokens max_tokens k =
    let size = length command in
    let same =
      λ (tokens' : List ℕ) (n : ℕ). SettlesOn-pure (KeepsSize size) (command, tokens', n) refl in
    SettlesOn-if (KeepsSize size) (max_tokens == 0) _ _ (λ _. same tokens 0)
      λ some_room. SettlesOn-or_fault (KeepsSize size) (string_length command) _ λ command_length e.
        SettlesOn-if (KeepsSize size) (command_length == 0) _ _ (λ _. same tokens 0)
          λ _.
            SettlesOn-bind (HasLength (length tokens)) (KeepsSize size) _ _
              (store_token-HasLength tokens 0 0 (ground (arith, some_room, k)))
              λ tokens' k'.
                tokenize_loop-KeepsSize command_length 0 command tokens' 1 false max_tokens size
                  refl (omega arith)
