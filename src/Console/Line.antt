-- ===== src/Console/Line.antt =====
-- kernel/Console/IO.c, `console_read_line`: it implements the line editor.
pub mod Editor
mod Rounds
use charcoalos.Console.Line.Rounds.{
  after_echo, loop_ends, loop_erases, loop_at, loop_stops, length-reverse, loop_takes,
  loop_erases_nothing, loop_waits,
}
use charcoalos.Console.Line.Editor.{
  is_erase, show_first, erasing, Matches, is_end, edit, Edited, with_input,
}
use charcoalos.Console.Print.{emit-nil}
use charcoalos.Console.{console_read_line}
use charcoalos.Machine.{◌>>=◌, ◌>>◌, Machine, Outcome, emit-emit, returned}
use charcoalos.Prelude.{
  ℕ, zero, suc, ◌+◌, ◌≤◌, ◌<◌, ◌≡◌, sym, ap, ◌∙◌, inl, inr, Bool, true, false, Option, none, some,
  [], ◌∷◌, ◌++◌, reverse, arith, ltb, ◌==◌, ltb→lt, Bool-cases, length, length-append, Bytes,
}

show_first_echo :
    (echo : Bool) (a b : Bytes) (m : Machine)
    → after_echo echo b (after_echo echo a m) ≡ after_echo echo (a ++ b) m
show_first_echo true a b m = emit-emit m a b
show_first_echo false a b m = emit-emit m [] []

echo_nothing : (echo : Bool) (m : Machine) → m ≡ after_echo echo [] m
echo_nothing true m = sym (emit-nil m)
echo_nothing false m = sym (emit-nil m)

Matches-show_first :
    (echo : Bool) (size total : ℕ) (first : Bytes) (m : Machine) (o : Option Edited)
    (r : Outcome Bytes × Machine)
    → Matches echo size total (after_echo echo first m) o r
    → Matches echo size total m (show_first first o) r
Matches-show_first echo size total first m none r h = h
Matches-show_first echo size total first m (some e) r (after, eq, fits, same) = (
  after,
  eq
      ∙ ap (λ (x : Machine). (returned (e.line ++ (0 ∷ after)), with_input x e.unread))
          (show_first_echo echo first e.echoed m),
  fits,
  same,
)

-- The loop returned with the line that the stack holds.
Matches-line :
    (echo : Bool) (size : ℕ) (stack : Bytes) (x : ℕ) (back keys last : Bytes) (m : Machine)
    (r : Outcome Bytes × Machine)
    → length stack < size
    → r ≡ (returned (reverse stack ++ (0 ∷ back)), after_echo echo last (with_input m keys))
    → Matches echo size
        (length stack + length (x ∷ back))
        m
        (some (record { line = reverse stack; unread = keys; echoed = last }))
        r
Matches-line echo size stack x back keys last m r s e = (
  back,
  e,
  omega (arith, length-reverse stack),
  omega (arith, length-append {0} (reverse stack) (0 ∷ back), length-reverse stack),
)

module _ (echo : Bool) (size : ℕ) where
  -- A full buffer ends the loop before the next byte is read.
  loop_full :
      (fuel : ℕ) (stack : Bytes) (x : ℕ) (back keys : Bytes) (m : Machine)
      → length stack < size
      → ltb (length stack + 1) size ≡ false
      → Matches echo size
          (length stack + length (x ∷ back))
          m
          (some (record { line = reverse stack; unread = keys; echoed = [] }))
          (loop_at echo size (suc fuel) stack (x ∷ back) keys m)
  loop_full fuel stack x back keys m s full = Matches-line echo size stack x back keys [] m _ s (
      loop_stops echo size fuel stack x back keys m full
      ∙ ap (λ (n : Machine). (returned (reverse stack ++ (0 ∷ back)), n))
          (echo_nothing echo (with_input m keys)))

  -- One erasure, from the claim for the bytes that follow it.
  Matches-erase :
      (keys : Bytes) (fuel : ℕ)
      → ((stack tail : Bytes) (m : Machine)
          → length keys < fuel
          → length stack < size
          → size ≤ length stack + length tail
          → Matches echo size
              (length stack + length tail)
              m
              (edit size stack keys)
              (loop_at echo size fuel stack tail keys m))
      → (stack tail : Bytes) (c : ℕ) (m : Machine) → length keys < fuel
      → length stack < size
      → size ≤ length stack + length tail
      → ltb (length stack + 1) size ≡ true
      → is_end c ≡ false
      → is_erase c ≡ true
      → Matches echo size
          (length stack + length tail)
          m
          (elim stack [
            | [] ↦ edit size [] keys
            | y ∷ stack' ↦ show_first erasing (edit size stack' keys)
          ])
          (loop_at echo size (suc fuel) stack tail (c ∷ keys) m)
  Matches-erase keys fuel later [] tail c m f s t room more erase =
      rw (loop_erases_nothing echo size fuel tail c keys m room more erase) (later [] tail m f s t)
  Matches-erase keys fuel later (y ∷ stack) tail c m f s t room more erase =
      let total : suc (length stack) + length tail ≡ length stack + suc (length tail) =
        omega arith in
      rw (loop_erases echo size fuel y stack tail c keys m room more erase) (
        Matches-show_first echo size _ erasing m (edit size stack keys) _ (
          rw total
            (later stack (y ∷ tail) (after_echo echo erasing m) f (omega arith) (omega arith))))

  loop-Matches :
      (keys : Bytes) (fuel : ℕ) (stack tail : Bytes) (m : Machine)
      → length keys < fuel
      → length stack < size
      → size ≤ length stack + length tail
      → Matches echo size
          (length stack + length tail)
          m
          (edit size stack keys)
          (loop_at echo size fuel stack tail keys m)
  unfolding edit
  loop-Matches keys zero stack tail m f s t = absurd (omega arith)
  loop-Matches keys (suc fuel) stack [] m f s t = absurd (omega arith)
  loop-Matches [] (suc fuel) stack (x ∷ back) m f s t =
      elim (Bool-cases (ltb (length stack + 1) size)) [
        | inl room ↦ rw room (loop_waits echo size fuel stack (x ∷ back) m room)
        | inr full ↦ rw full (loop_full fuel stack x back [] m s full)
      ]
  loop-Matches (c ∷ keys) (suc fuel) stack (x ∷ back) m f s t =
      elim (Bool-cases (ltb (length stack + 1) size)) [
        | inl room ↦ elim (Bool-cases (is_end c)) [
          | inl ends ↦
              rw (room, ends)
                (Matches-line echo size stack x back keys (b'\r' ∷ b'\n' ∷ []) m _ s
                  (loop_ends echo size fuel stack x back c keys m room ends))
          | inr more ↦ elim (Bool-cases (is_erase c)) [
            | inl erase ↦
                rw (room, more, erase)
                  (Matches-erase keys fuel (loop-Matches keys fuel) stack (x ∷ back) c m
                    (omega arith) s t room more erase)
            | inr keep ↦
                rw
                  (room, more, keep, loop_takes echo size fuel stack x back c keys m room more keep)
                  (let total : length stack + suc (length back) ≡ suc (length stack) + length back =
                      omega arith in
                    rw total (
                      Matches-show_first echo size _ (c ∷ []) m (edit size (c ∷ stack) keys) _ (
                        loop-Matches keys fuel (c ∷ stack) back (after_echo echo (c ∷ []) m)
                          (omega arith) (omega (arith, ltb→lt (length stack + 1) size room))
                          (omega arith))))
          ]
        ]
        | inr full ↦ rw full (loop_full fuel stack x back (c ∷ keys) m s full)
      ]

-- With a buffer of at least `size` bytes, `console_read_line` ends: when the bytes that come make a
-- line for the editor it returns the buffer with that line and its terminator at the front, of at
-- most `size - 1` bytes, has read and echoed what the editor says, and left the rest of the machine
-- alone; when they run out first it waits for more.
pub console_read_line-Matches :
    (text : Bytes) (size : ℕ) (echo : Bool) (m : Machine)
    → 0 < size
    → size ≤ length text
    → Matches echo size (length text) m (edit size [] m.input) (console_read_line text size echo m)
unfolding console_read_line
console_read_line-Matches text size echo m h k =
    let nonzero : (size == 0) ≡ false = ground arith in
    let total : length text ≡ 0 + length text = omega arith in
    rw nonzero (
      rw total (
        loop-Matches echo size m.input (suc (length m.input)) [] text m (omega arith) h
          (omega arith)))
