-- ===== src/Console/Line/Rounds.antt =====
-- kernel/Console/IO.c, one round of the loop of `console_read_line`, by what comes.
use mathlib.Core.List.{reverse-cons, reverse_aux}
use charcoalos.Console.Line.Editor.{is_erase, erasing, is_end, with_input}
use charcoalos.Console.Print.{shown, console_print_lem, emit-nil, console_putc_lem}
use charcoalos.Console.{read_line_loop, console_print, store, console_getc, console_putc}
use charcoalos.Machine.{◌>>◌, pure, stopped, emit, Machine, waiting, Outcome, emit-emit, returned}
use charcoalos.Prelude.{
  ℕ, suc, ◌+◌, ◌-◌, ◌≡◌, sym, ap, Bool, true, false, [], ◌∷◌, ◌++◌, reverse, append_assoc, arith,
  ltb, ◌==◌, if◌then◌else◌, length, length-append, Bytes, set-append,
}

pub length-reverse_aux :
    (stack acc : Bytes) → length (reverse_aux stack acc) ≡ length stack + length acc
length-reverse_aux [] acc = omega arith
length-reverse_aux (c ∷ stack) acc = omega (arith, length-reverse_aux stack (c ∷ acc))

pub length-reverse : (stack : Bytes) → length (reverse stack) ≡ length stack
length-reverse stack = omega (arith, length-reverse_aux stack [])

-- A store at the end of the line.
pub store_end :
    (stack : Bytes) (x c : ℕ) (back : Bytes) (m : Machine)
    → store (reverse stack ++ (x ∷ back)) (length stack) c m
      ≡ (returned (reverse stack ++ (c ∷ back)), m)
unfolding store
store_end stack x c back m = rw (← length-reverse stack) (
    ground (
      arith,
      set-append {0} (reverse stack) back x c,
      length-append {0} (reverse stack) (x ∷ back),
    ))

pub reverse_push :
    (c : ℕ) (stack back : Bytes) → reverse (c ∷ stack) ++ back ≡ reverse stack ++ (c ∷ back)
reverse_push c stack back = rw (reverse-cons c stack) (append_assoc (reverse stack) (c ∷ []) back)

pub not_empty : (y : ℕ) (stack : Bytes) → (suc (length stack) == 0) ≡ false
not_empty y stack = ground arith

-- The machine after an echo.
abbrev pub after_echo : Bool → Bytes → Machine → Machine
after_echo echo shown m = emit m (if echo then shown else [])

pub no_echo : (m : Machine) → pure tt m ≡ (returned tt, emit m [])
no_echo m = ap (λ (x : Machine). (returned tt, x)) (sym (emit-nil m))

pub echo_end :
    (echo : Bool) (m : Machine)
    → (if echo then (do console_putc b'\r'; console_putc b'\n') else pure tt) m
      ≡ (returned tt, after_echo echo (b'\r' ∷ b'\n' ∷ []) m)
echo_end true m = simp (console_putc_lem, emit-emit)
echo_end false m = no_echo m

pub echo_erase :
    (echo : Bool) (m : Machine)
    → (if echo then console_print (0x08 ∷ b' ' ∷ 0x08 ∷ 0 ∷ []) else pure tt) m
      ≡ (returned tt, after_echo echo erasing m)
echo_erase true m = console_print_lem erasing [] m
echo_erase false m = no_echo m

pub echo_byte :
    (echo : Bool) (c : ℕ) (m : Machine)
    → (if echo then console_putc c else pure tt) m ≡ (returned tt, after_echo echo (c ∷ []) m)
echo_byte true c m = console_putc_lem c m
echo_byte false c m = no_echo m

module _ (echo : Bool) (size : ℕ) where
  abbrev pub loop_at : ℕ → Bytes → Bytes → Bytes → Machine → Outcome Bytes × Machine
  loop_at fuel stack tail keys m =
      read_line_loop fuel (length stack) (reverse stack ++ tail) size echo (with_input m keys)

  pub loop_stops :
      (fuel : ℕ) (stack : Bytes) (x : ℕ) (back keys : Bytes) (m : Machine)
      → ltb (length stack + 1) size ≡ false
      → loop_at (suc fuel) stack (x ∷ back) keys m
        ≡ (returned (reverse stack ++ (0 ∷ back)), with_input m keys)
  unfolding read_line_loop
  loop_stops fuel stack x back keys m full = rw full (store_end stack x 0 back (with_input m keys))

  pub loop_waits :
      (fuel : ℕ) (stack tail : Bytes) (m : Machine)
      → ltb (length stack + 1) size ≡ true
      → (loop_at (suc fuel) stack tail [] m).0 ≡ stopped waiting
  unfolding read_line_loop console_getc
  loop_waits fuel stack tail m room = rw room

  pub loop_ends :
      (fuel : ℕ) (stack : Bytes) (x : ℕ) (back : Bytes) (c : ℕ) (keys : Bytes) (m : Machine)
      → ltb (length stack + 1) size ≡ true
      → is_end c ≡ true
      → loop_at (suc fuel) stack (x ∷ back) (c ∷ keys) m ≡ (
        returned (reverse stack ++ (0 ∷ back)),
        after_echo echo (b'\r' ∷ b'\n' ∷ []) (with_input m keys),
      )
  unfolding read_line_loop console_getc
  loop_ends fuel stack x back c keys m room ends =
      rw (room, ends, store_end stack x 0 back (with_input m keys))
        (rw (echo_end echo (with_input m keys)))

  pub loop_erases_nothing :
      (fuel : ℕ) (tail : Bytes) (c : ℕ) (keys : Bytes) (m : Machine)
      → ltb 1 size ≡ true
      → is_end c ≡ false
      → is_erase c ≡ true
      → loop_at (suc fuel) [] tail (c ∷ keys) m ≡ loop_at fuel [] tail keys m
  unfolding read_line_loop console_getc
  loop_erases_nothing fuel tail c keys m room more erase = rw (room, more, erase)

  pub loop_erases :
      (fuel : ℕ) (y : ℕ) (stack tail : Bytes) (c : ℕ) (keys : Bytes) (m : Machine)
      → ltb (length (y ∷ stack) + 1) size ≡ true
      → is_end c ≡ false
      → is_erase c ≡ true
      → loop_at (suc fuel) (y ∷ stack) tail (c ∷ keys) m
        ≡ loop_at fuel stack (y ∷ tail) keys (after_echo echo erasing m)
  unfolding read_line_loop console_getc
  loop_erases fuel y stack tail c keys m room more erase =
      let e : suc (length stack) - 1 ≡ length stack = omega arith in
      rw (room, more, erase)
        (rw (not_empty y stack)
          (rw (echo_erase echo (with_input m keys), reverse_push y stack tail, e)))

  pub loop_takes :
      (fuel : ℕ) (stack : Bytes) (x : ℕ) (back : Bytes) (c : ℕ) (keys : Bytes) (m : Machine)
      → ltb (length stack + 1) size ≡ true
      → is_end c ≡ false
      → is_erase c ≡ false
      → loop_at (suc fuel) stack (x ∷ back) (c ∷ keys) m
        ≡ loop_at fuel (c ∷ stack) back keys (after_echo echo (c ∷ []) m)
  unfolding read_line_loop console_getc
  loop_takes fuel stack x back c keys m room more keep =
      rw (room, more, keep, store_end stack x c back (with_input m keys))
        (rw (echo_byte echo c (with_input m keys), ← reverse_push c stack back)
          (let e : length stack + 1 ≡ suc (length stack) = omega arith in rw e))
