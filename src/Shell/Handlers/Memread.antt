-- ===== src/Shell/Handlers/Memread.antt =====
-- kernel/Console/Shell.c, `memread_handler`: the loop over the arguments.
use charcoalos.Console.Hex.{hex_digits, print_value_lem}
use charcoalos.Console.Parse.{console_uint64_from_hex_lem}
use charcoalos.Shell.Handlers.Add.{hex_value}
use charcoalos.Shell.Handlers.{argument, hex_argument, memread_loop, memread_handler}
use charcoalos.Strings.Compare.{IsText, terminated}
use charcoalos.Machine.{Machine, emit-emit, emit, returned, Outcome, stopped, fault, continue, pure}
use charcoalos.Console.Print.{emit-nil, shown, print_literal}
use charcoalos.Prelude.{
  Option, none, some, Option-cases, inl, inr, ℕ, suc, ◌+◌, ◌-◌, ◌≡◌, refl, sym, ap, ap₂, ◌∙◌, List,
  [], ◌∷◌, ◌++◌, append_assoc, arith, length, All, Bytes, get_elem?-append, length-snoc,
}

-- The object that each text and what is behind its terminator make.
abbrev pub arguments : List (Bytes × Bytes) → List Bytes
arguments [] = []
arguments ((text, after) ∷ others) = terminated text after ∷ arguments others

-- A line, with what comes behind it, from the address that has been printed and the word that is
-- there; no more than the address where the load faults.
abbrev pub word_line : Bytes → Option ℕ → Bytes → Bytes
word_line address none rest = address
word_line address (some word) rest = ((address ++ hex_digits 8 word) ++ shown "\n") ++ rest

-- A line for each text, with the address that it stands for and the word that is there, up to the
-- first address where nothing can be read.
abbrev pub memory_lines : (ℕ → Option ℕ) → List (Bytes × Bytes) → Bytes
memory_lines memory [] = []
memory_lines memory ((text, after) ∷ others) =
    word_line (hex_digits 8 (hex_value text) ++ shown "    ") (memory (hex_value text))
      (memory_lines memory others)

abbrev pub after_load : {A : Type 0} → Option ℕ → Outcome A → Outcome A
after_load none later = stopped fault
after_load (some word) later = later

-- How the run ends: by a fault if one of the addresses cannot be read.
abbrev pub after_loads : {A : Type 0} → A → (ℕ → Option ℕ) → List (Bytes × Bytes) → Outcome A
after_loads a memory [] = returned a
after_loads a memory ((text, after) ∷ others) =
    after_load (memory (hex_value text)) (after_loads a memory others)

memread_loop_lem :
    (texts : List (Bytes × Bytes)) (before : List Bytes) (m : Machine)
    → All (λ t. IsText t.0) texts
    → memread_loop (length texts) (length before) (before ++ arguments texts) m
      ≡ (after_loads tt m.memory texts, emit m (memory_lines m.memory texts))
unfolding memread_loop hex_argument argument
memread_loop_lem [] before m h = ap (λ (x : Machine). (returned tt, x)) (sym (emit-nil m))
memread_loop_lem ((text, after) ∷ others) before m h =
    let before' = before ++ (terminated text after ∷ []) in
    let argv = before ++ (terminated text after ∷ arguments others) in
    let next : memread_loop (length others) (length before + 1) argv
        ≡ memread_loop (length others) (length before') (before' ++ arguments others) =
      ap₂ (memread_loop (length others)) (length-snoc before (terminated text after))
        (sym (append_assoc before (terminated text after ∷ []) (arguments others))) in
    let found = get_elem?-append before (arguments others) (terminated text after) in
    let parsed = (console_uint64_from_hex_lem text after h.0).0 in
    let address = hex_digits 8 (hex_value text) ++ shown "    " in
    elim (Option-cases (m.memory (hex_value text))) [
      | inl unreadable ↦
          rw (found, parsed) (simp (print_literal, print_value_lem, unreadable, emit-emit) refl)
      | inr (word, loaded) ↦
          let line = (address ++ hex_digits 8 word) ++ shown "\n" in
          rw (found, parsed, next)
            (simp (print_literal, print_value_lem, loaded, emit-emit)
              (memread_loop_lem others before' (emit m line) h.1
                ∙ ap (λ (x : Machine). (after_loads tt m.memory others, x))
                    (emit-emit m line (memory_lines m.memory others))))
    ]

continue-after_loads :
    (memory : ℕ → Option ℕ) (texts : List (Bytes × Bytes)) (n : Machine)
    → continue {B = ℕ} (after_loads tt memory texts) (λ _. pure 0) n
      ≡ (after_loads 0 memory texts, n)
continue-after_loads memory [] n = refl
continue-after_loads memory ((text, after) ∷ others) n =
    elim (Option-cases (memory (hex_value text))) [
      | inl unreadable ↦ rw unreadable refl
      | inr (word, loaded) ↦ rw loaded (continue-after_loads memory others n)
    ]

-- With any number of arguments, `memread` prints for each of them, in their order, a line with the
-- address that it stands for and the word that memory holds there, in sixteen hexadecimal digits each,
-- and succeeds if each word can be read. At the first address where nothing can be read the load
-- faults, behind the address that has been printed. Nothing else changes; any texts will do, and the
-- command's name is not read.
pub memread_handler_lem :
    (name : Bytes) (texts : List (Bytes × Bytes)) (m : Machine)
    → All (λ t. IsText t.0) texts
    → memread_handler (suc (length texts)) (name ∷ arguments texts) m
      ≡ (after_loads 0 m.memory texts, emit m (memory_lines m.memory texts))
unfolding memread_handler
memread_handler_lem name texts m h =
    let rounds : suc (length texts) - 1 ≡ length texts = omega arith in
    rw rounds (
      rw (memread_loop_lem texts (name ∷ []) m h)
        (continue-after_loads m.memory texts (emit m (memory_lines m.memory texts))))
