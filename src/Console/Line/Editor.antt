-- ===== src/Console/Line/Editor.antt =====
-- kernel/Console/IO.c, what `console_read_line` promises: a line editor on the bytes that come.
use charcoalos.Console.Print.{shown}
use charcoalos.Machine.{stopped, Machine, waiting, Outcome, returned}
use charcoalos.Prelude.{
  ℕ, ◌+◌, ◌<◌, ◌≡◌, Bool, true, false, ◌||◌, Option, none, some, [], ◌∷◌, ◌++◌, reverse, ltb, ◌==◌,
  if◌then◌else◌, length, Bytes,
}

-- The line that was entered, the bytes that are left to read, and what an echo shows.
pub record Edited : Type 0 where
  pub line : Bytes
  pub unread : Bytes
  pub echoed : Bytes

abbrev pub show_first : Bytes → Option Edited → Option Edited
show_first shown none = none
show_first shown (some e) = some (record e { echoed = shown ++ e.echoed })

abbrev pub is_end : ℕ → Bool
is_end c = c == b'\n' || c == b'\r'

abbrev pub is_erase : ℕ → Bool
is_erase c = c == 0x08 || c == 0x7f

abbrev pub erasing : Bytes
erasing = 0x08 ∷ b' ' ∷ 0x08 ∷ []

-- The editor: `stack` is the line so far, the last byte first. `none`: the bytes run out first.
unfoldable pub edit : ℕ → Bytes → Bytes → Option Edited
edit size stack [] =
    if ltb (length stack + 1) size
    then none
    else some (record { line = reverse stack; unread = []; echoed = [] })
edit size stack (c ∷ keys) =
    if ltb (length stack + 1) size
    then (if is_end c
        then some (record { line = reverse stack; unread = keys; echoed = b'\r' ∷ b'\n' ∷ [] })
        else elim (is_erase c) [
          | true ↦ elim stack [
            | [] ↦ edit size [] keys
            | x ∷ stack' ↦ show_first erasing (edit size stack' keys)
          ]
          | false ↦ show_first (c ∷ []) (edit size (c ∷ stack) keys)
        ])
    else some (record { line = reverse stack; unread = c ∷ keys; echoed = [] })

abbrev pub with_input : Machine → Bytes → Machine
with_input m keys = record m { input = keys }

-- The result of the loop on a buffer of `total` bytes, in terms of the editor's.
abbrev pub Matches : Bool → ℕ → ℕ → Machine → Option Edited → Outcome Bytes × Machine → Type 0
Matches echo size total m none result = result.0 ≡ stopped waiting
Matches echo size total m (some e) result =
    (after : Bytes) × (result ≡ (
      returned (e.line ++ (0 ∷ after)),
      record m { input = e.unread; output = m.output ++ (if echo then e.echoed else []) },
    ))
    × (length e.line < size)
    × (length (e.line ++ (0 ∷ after)) ≡ total)
