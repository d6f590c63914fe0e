-- ===== src/Uart/Waits.antt =====
-- The loops of platform/*/IO.c end, and at a read of the flags that let them go.
use charcoalos.Uart.Device.{Uart}
use charcoalos.Uart.{wait_while}
use charcoalos.Prelude.{
  ℕ, zero, suc, ◌<◌, ◌≡◌, refl, inl, inr, Bool, true, false, Option, none, some, arith, Bool-cases,
}

module _ (d : Uart) (busy : ℕ → Bool) (Keep : d.State → d.State → Type 0)
    (keep_refl : (s : d.State) → Keep s s)
    (keep_next : (s t : d.State) → Keep (d.read_flags s).1 t → Keep s t) where
  open d use {State, read_flags}

  -- The loop is left behind a read from a state that `Keep` relates to the first.
  abbrev pub Left : State → Option State → Type 0
  Left s r = (t : State) × (r ≡ some (read_flags t).1) × (busy (read_flags t).0 ≡ false) × Keep s t

  -- A measure falls with every read that keeps the loop going, so it ends.
  pub wait_while-Left :
      (Inv : State → Type 0) (measure : State → ℕ)
      → ((s : State)
          → Inv s
          → busy (read_flags s).0 ≡ true
          → Inv (read_flags s).1 × (measure (read_flags s).1 < measure s))
      → (fuel : ℕ) (s : State) → Inv s
      → measure s < fuel
      → Left s (wait_while d read_flags busy fuel s)
  unfolding wait_while
  wait_while-Left Inv measure falls zero s inv h = absurd (omega arith)
  wait_while-Left Inv measure falls (suc fuel) s inv h = elim (Bool-cases (busy (read_flags s).0)) [
    | inl waits ↦
        let (inv', less) = falls s inv waits in
        let (t, e, free, kept) =
          wait_while-Left Inv measure falls fuel (read_flags s).1 inv' (omega arith) in
        (t, rw waits e, free, keep_next s t kept)
    | inr free ↦ (s, rw free refl, free, keep_refl s)
  ]

-- A loop whose test holds at every read goes on for ever.
pub wait_while-waits :
    (d : Uart) (busy : ℕ → Bool) (Inv : d.State → Type 0)
    → ((s : d.State) → Inv s → (busy (d.read_flags s).0 ≡ true) × Inv (d.read_flags s).1)
    → (fuel : ℕ) (s : d.State) → Inv s
    → wait_while d d.read_flags busy fuel s ≡ none
unfolding wait_while
wait_while-waits d busy Inv goes_on zero s inv = refl
wait_while-waits d busy Inv goes_on (suc fuel) s inv =
    let (waits, inv') = goes_on s inv in
    rw waits (wait_while-waits d busy Inv goes_on fuel (d.read_flags s).1 inv')
