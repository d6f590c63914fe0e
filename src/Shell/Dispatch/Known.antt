-- ===== src/Shell/Dispatch/Known.antt =====
-- kernel/Console/Shell.c, `dispatch_command` on a command that is in the table.
use charcoalos.Console.Print.{until_nul}
use charcoalos.Shell.Tokens.Words.{
  first_word, token, tokenize_command-words, words, first_word-IsText,
}
use charcoalos.Shell.Handlers.{Processor, Build, command_texts}
use charcoalos.Interrupt.{Platform}
use charcoalos.Shell.Dispatch.Unknown.{literal-terminated, string_compare-differs, names-IsText}
use charcoalos.Shell.Dispatch.{
  ShellCommand, run_command, find_command, table, no_tokens, commands, dispatch_command,
  command_handlers,
}
use charcoalos.Strings.Compare.{string_compare_self, terminated, IsText}
use charcoalos.Strings.{string_compare}
use charcoalos.Console.{literal}
use charcoalos.Machine.{Machine, Kernel, pure, ◌>>◌}
use charcoalos.Prelude.{
  ℕ, zero, suc, ◌≤◌, ◌<◌, ◌≡◌, refl, sym, ap, ◌∙◌, ◌≢◌, true, false, some, List, [], ◌∷◌, map,
  arith, ◌==◌, length, get_elem?, take, drop, All, Bytes, codes, String,
}

-- The first entry of the table whose name is the word.
pub data Names (word : Bytes)
    : List (String × String) → List (ℕ → List Bytes → Kernel ℕ) → ShellCommand → Type 0 where
  named_here :
      {name help : String} {texts : List (String × String)} {handler : ℕ → List Bytes → Kernel ℕ}
      {handlers : List (ℕ → List Bytes → Kernel ℕ)}
      → word ≡ codes name
      → Names word
          ((name, help) ∷ texts)
          (handler ∷ handlers)
          (record { name = literal name; help_text = literal help; handler = handler })
  named_later :
      {name help : String} {texts : List (String × String)} {handler : ℕ → List Bytes → Kernel ℕ}
      {handlers : List (ℕ → List Bytes → Kernel ℕ)} {command : ShellCommand}
      → word ≢ codes name
      → Names word texts handlers command
      → Names word ((name, help) ∷ texts) (handler ∷ handlers) command

string_compare-matches :
    (word after : Bytes) (name : String)
    → IsText word
    → word ≡ codes name
    → string_compare (terminated word after) (literal name) ≡ some true
string_compare-matches word after name h same =
    rw (literal-terminated name, sym same) (string_compare_self word after [] h)

module _ (word after : Bytes) (argc : ℕ) (argv : List Bytes) (m : Machine) (h : IsText word) where
  find_command-known :
      {texts : List (String × String)} {handlers : List (ℕ → List Bytes → Kernel ℕ)}
      {command : ShellCommand}
      → All (λ text. IsText (codes text.0)) texts
      → Names word texts handlers command
      → find_command (table texts handlers) (terminated word after) argc argv m
        ≡ run_command command (terminated word after) argc argv m
  unfolding table find_command
  find_command-known names (named_here {name = name} same) =
      rw (string_compare-matches word after name h same) refl
  find_command-known names (named_later {name = name} differs later) =
      rw (string_compare-differs word after name h names.0 differs)
        (find_command-known names.1 later)

until_nul-terminated : (word after : Bytes) → IsText word → until_nul (terminated word after) ≡ word
until_nul-terminated [] after h = refl
until_nul-terminated (c ∷ word) after h = ground (arith, until_nul-terminated word after h.1)

length-take : {A : Type 0} (n : ℕ) (xs : List A) → n ≤ length xs → length (take n xs) ≡ n
length-take zero xs h = refl
length-take (suc n) [] h = absurd (omega arith)
length-take (suc n) (x ∷ xs) h = ap suc (length-take n xs (omega arith))

map-map-token :
    (command : Bytes) (offsets : List ℕ)
    → map until_nul (map (λ offset. drop offset command) offsets) ≡ map (token command) offsets
map-map-token command [] = refl
map-map-token command (x ∷ offsets) = ap (◌∷◌ (token command x)) (map-map-token command offsets)

length-map-drop :
    (command : Bytes) (offsets : List ℕ)
    → length (map (λ offset. drop offset command) offsets) ≡ length offsets
length-map-drop command [] = refl
length-map-drop command (x ∷ offsets) = ap suc (length-map-drop command offsets)

-- A command whose first word is a name in the table runs the handler that stands with the name, once
-- and no other one, with the arguments' number and the arguments: the words of the command, the first
-- ten of them, the name included. What the handler returns and leaves is what `run_command` does with
-- it, and the command comes back.
pub dispatch_command-known :
    (p : Platform) (cpu : Processor) (build : Build) (text rest : Bytes) (m : Machine)
    (command : ShellCommand)
    → IsText text
    → 0 < length text
    → Names (first_word text) command_texts (command_handlers p cpu build) command
    → (line : Bytes) × (name : Bytes) × (argv : List Bytes) × (map until_nul argv
        ≡ take 10 (words text))
      × (until_nul name ≡ first_word text)
      × (dispatch_command (commands p cpu build) (terminated text rest) m
          ≡ (run_command command name (length argv) argv >> pure line) m)
unfolding dispatch_command commands
dispatch_command-known p cpu build text rest m command t nonempty named =
    let (found, e, tokenized) =
      tokenize_command-words text rest no_tokens 10 m t nonempty (omega arith) (omega arith) in
    let (after, first) = tokenized.first_is in
    let (others, at_start) = tokenized.starts_at in
    let some_tokens : found.2 == 0 ≡ false = ground (arith, tokenized.number_positive) in
    let argv = map (λ offset. drop offset found.0) (take found.2 found.1) in
    let count : length argv ≡ found.2 =
      length-map-drop found.0 (take found.2 found.1)
      ∙ length-take found.2 found.1 (ground (arith, tokenized.number_le, tokenized.capacity_is)) in
    let head : get_elem? argv 0 ≡ some (terminated (first_word text) after) =
      rw at_start (ap some first) in
    (
      found.0,
      terminated (first_word text) after,
      argv,
      map-map-token found.0 (take found.2 found.1) ∙ tokenized.tokens_are,
      until_nul-terminated (first_word text) after (first_word-IsText text t),
      rw e (
          rw some_tokens (
            rw (count, head)
              (rw
                (find_command-known (first_word text) after found.2 argv m
                  (first_word-IsText text t) names-IsText named)
                refl))),
    )
