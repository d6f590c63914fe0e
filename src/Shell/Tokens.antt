-- ===== src/Shell/Tokens.antt =====
-- kernel/Console/Shell.c, `tokenize_command`. The command is an object that the function writes in;
-- a `char *` into it is an offset, and `tokens` the array of them that the caller passes.
pub mod Blanked
pub mod Loop
pub mod Words
pub mod Settles
use charcoalos.Strings.{string_length}
use charcoalos.Console.{store}
use charcoalos.Machine.{◌>>=◌, ◌>>◌, stop, pure, Kernel, fault, overrun, or_fault}
use charcoalos.Prelude.{
  ℕ, zero, suc, ◌+◌, Bool, true, false, ◌||◌, List, ltb, leb, ◌==◌, if◌then◌else◌, length,
  get_elem?, set, Bytes,
}

-- `'\t'`, `' '`, `'\r'` and `'\n'`.
abbrev pub is_space : ℕ → Bool
is_space c = c == 9 || c == 32 || c == 13 || c == 10

pub store_token : List ℕ → ℕ → ℕ → Kernel (List ℕ)
store_token tokens n offset =
    if ltb n (length tokens) then pure (set tokens n offset) else stop overrun

-- What the function leaves: the command, the tokens, and their number.
abbrev pub Tokenized : Type 0
Tokenized = Bytes × List ℕ × ℕ

-- `while (i < command_length)`, with `left` rounds to go.
pub tokenize_loop : ℕ → ℕ → Bytes → List ℕ → ℕ → Bool → ℕ → Kernel Tokenized
tokenize_loop zero i command tokens number_of_tokens between_tokens max_tokens =
    pure (command, tokens, number_of_tokens)
tokenize_loop (suc left) i command tokens number_of_tokens between_tokens max_tokens = do
  c ← or_fault (get_elem? command i)
  if c == 0
      then pure (command, tokens, number_of_tokens)
      else if is_space c
      then (do
        command' ← store command i 0
        tokenize_loop left (i + 1) command' tokens number_of_tokens true max_tokens)
      else if between_tokens
      then if leb max_tokens number_of_tokens then pure (command, tokens, number_of_tokens) else (do
        tokens' ← store_token tokens number_of_tokens i
        tokenize_loop left (i + 1) command tokens' (number_of_tokens + 1) false max_tokens)
      else tokenize_loop left (i + 1) command tokens number_of_tokens between_tokens max_tokens

pub tokenize_command : Bytes → List ℕ → ℕ → Kernel Tokenized
unfolding store_token tokenize_loop
tokenize_command command tokens max_tokens =
    if max_tokens == 0 then pure (command, tokens, 0) else (do
      command_length ← or_fault (string_length command)
      if command_length == 0 then pure (command, tokens, 0) else (do
        tokens' ← store_token tokens 0 0
        tokenize_loop command_length 0 command tokens' 1 false max_tokens))
