-- ===== src/Shell/Dispatch/Unknown.antt =====
-- kernel/Console/Shell.c, `dispatch_command` on a command that is not in the table.
use charcoalos.Console.Print.{shown, print_literal, with_returns, print_terminated}
use charcoalos.Shell.Tokens.Words.{first_word, tokenize_command-words, first_word-IsText}
use charcoalos.Shell.Handlers.{command_texts, Build, Processor}
use charcoalos.Shell.Dispatch.{
  table, commands, find_command, dispatch_command, no_tokens, command_handlers,
}
use charcoalos.Strings.Compare.{terminated, IsText, string_compare_lem}
use charcoalos.Strings.{string_compare}
use charcoalos.Console.{literal}
use charcoalos.Interrupt.{Platform}
use charcoalos.Machine.{emit-emit, Kernel, Machine, returned, emit}
use charcoalos.Prelude.{
  ℕ, ◌<◌, ◌≡◌, refl, ap, ◌∙◌, ◌≢◌, inl, inr, false, some, List, [], ◌∷◌, ◌++◌, arith, ◌==◌,
  Bool-cases, length, All, Bytes, codes, String,
}

-- What the console shows for a word that is not a command.
abbrev pub not_recognized : Bytes → Bytes
not_recognized word =
    shown "Error: the command "
    ++ (with_returns word ++ shown " could not be recognized. Type help for a list of commands.\n")

pub literal-terminated : (s : String) → literal s ≡ terminated (codes s) []
unfolding literal
literal-terminated s = refl

pub string_compare-differs :
    (word after : Bytes) (name : String)
    → IsText word
    → IsText (codes name)
    → word ≢ codes name
    → string_compare (terminated word after) (literal name) ≡ some false
string_compare-differs word after name hw hn differs =
    let (answer, e, iff) = string_compare_lem word (codes name) after [] hw hn in
    rw literal-terminated (elim (Bool-cases answer) [
      | inl same ↦ absurd (differs (iff.0 same))
      | inr other ↦ e ∙ ap some other
    ])

not_found :
    (word after : Bytes) (argc : ℕ) (argv : List Bytes) (m : Machine)
    → IsText word
    → find_command [] (terminated word after) argc argv m
      ≡ (returned tt, emit m (not_recognized word))
unfolding find_command shown
not_found word after argc argv m h =
    simp (print_literal, print_terminated word after _ h, emit-emit) refl

find_command-unknown :
    (texts : List (String × String)) (handlers : List (ℕ → List Bytes → Kernel ℕ))
    (word after : Bytes) (argc : ℕ) (argv : List Bytes) (m : Machine)
    → IsText word
    → All (λ text. IsText (codes text.0)) texts
    → All (λ text. word ≢ codes text.0) texts
    → find_command (table texts handlers) (terminated word after) argc argv m
      ≡ (returned tt, emit m (not_recognized word))
unfolding table find_command
find_command-unknown [] handlers word after argc argv m h names differ =
    not_found word after argc argv m h
find_command-unknown (text ∷ texts) [] word after argc argv m h names differ =
    not_found word after argc argv m h
find_command-unknown ((name, help) ∷ texts) (handler ∷ handlers) word after argc argv m h names
      differ =
    rw (string_compare-differs word after name h names.0 differ.0)
      (find_command-unknown texts handlers word after argc argv m h names.1 differ.1)

pub names-IsText : All (λ text. IsText (codes text.0)) command_texts
names-IsText = ground arith

-- A command whose first word is none of the names in the table prints that the word is not
-- recognized, and changes nothing else than the command itself; no handler runs.
pub dispatch_command-unknown :
    (p : Platform) (cpu : Processor) (build : Build) (text rest : Bytes) (m : Machine)
    → IsText text
    → 0 < length text
    → All (λ named. first_word text ≢ codes named.0) command_texts
    → (command : Bytes) × (dispatch_command (commands p cpu build) (terminated text rest) m
        ≡ (returned command, emit m (not_recognized (first_word text))))
unfolding dispatch_command commands
dispatch_command-unknown p cpu build text rest m t nonempty unknown =
    let (found, e, tokenized) =
      tokenize_command-words text rest no_tokens 10 m t nonempty (omega arith) (omega arith) in
    let (after, first) = tokenized.first_is in
    let (others, at_start) = tokenized.starts_at in
    let some_tokens : found.2 == 0 ≡ false = ground (arith, tokenized.number_positive) in
    (
      found.0,
      rw e (
          rw some_tokens (
            rw at_start (
              rw first (
                rw
                  (find_command-unknown command_texts (command_handlers p cpu build)
                    (first_word text) after found.2 _ m (first_word-IsText text t) names-IsText
                    unknown)
                  refl)))),
    )
