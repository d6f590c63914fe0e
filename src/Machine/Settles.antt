-- ===== src/Machine/Settles.antt =====
-- Code that neither runs on nor writes outside of an object, and leaves the console's input alone.
use charcoalos.Machine.Ends.{Anything, Leaves-bind, Leaves}
use charcoalos.Machine.{
  ◌>>=◌, overrun, restarting, stop, Effect, pure, Machine, gets, Outcome, Stop, waiting, Kernel,
  record_effect, halted, or_fault, unfinished, fault,
}
use mathlib.Core.Path.{subst}
use charcoalos.Prelude.{◌≡◌, refl, Bool, true, false, Option, none, some, if◌then◌else◌, Bytes}

-- The stops that are the code's own, and a read outside of an object.
abbrev pub Proper : Stop → Type 0
Proper halted = Unit {0}
Proper restarting = Unit {0}
Proper waiting = Unit {0}
Proper fault = Unit {0}
Proper overrun = ⊥
Proper unfinished = ⊥

-- The same with the machine: where the processor has halted, all that was printed has left the UART.
abbrev pub Clean : Stop → Machine → Type 0
Clean halted n = n.transmitted ≡ n.output
Clean restarting n = Unit {0}
Clean waiting n = Unit {0}
Clean fault n = Unit {0}
Clean overrun n = ⊥
Clean unfinished n = ⊥

pub Clean-Proper : (s : Stop) (n : Machine) → Clean s n → Proper s
Clean-Proper halted n h = tt
Clean-Proper restarting n h = tt
Clean-Proper waiting n h = tt
Clean-Proper fault n h = tt
Clean-Proper overrun n h = absurd h
Clean-Proper unfinished n h = absurd h

-- Where it returns, with a value with `P`, the input is `input`.
abbrev pub Settled : {A : Type 0} → (A → Type 0) → Bytes → Outcome A × Machine → Type 0
Settled P input = Leaves Clean (λ a n. P a × (n.input ≡ input))

unfoldable pub SettlesOn : {A : Type 0} → (A → Type 0) → Kernel A → Type 0
SettlesOn P k = (m : Machine) → Settled P m.input (k m)

abbrev pub Settles : {A : Type 0} → Kernel A → Type 0
Settles = SettlesOn Anything

module _ {A B : Type 0} (P : A → Type 0) (Q : B → Type 0) where
  pub SettlesOn-bind :
      (k : Kernel A) (f : A → Kernel B)
      → SettlesOn P k
      → ((a : A) → P a → SettlesOn Q (f a))
      → SettlesOn Q (k >>= f)
  unfolding SettlesOn
  SettlesOn-bind k f h later m =
      Leaves-bind Clean (λ a n. P a × (n.input ≡ m.input)) (λ b n. Q b × (n.input ≡ m.input)) k f m
        (h m)
        λ a n kept. subst (λ (input : Bytes). Settled Q input (f a n)) kept.1 (later a kept.0 n)

pub Settles-bind :
    {A B : Type 0} (k : Kernel A) (f : A → Kernel B)
    → Settles k
    → ((a : A) → Settles (f a))
    → Settles (k >>= f)
Settles-bind k f h later = SettlesOn-bind Anything Anything k f h λ a _. later a

module _ {A : Type 0} where
  pub Settles-pure : (a : A) → Settles (pure a)
  unfolding SettlesOn
  Settles-pure a m = (tt, refl)

  pub Settles-gets : (f : Machine → A) → Settles (gets f)
  unfolding SettlesOn
  Settles-gets f m = (tt, refl)

  pub Settles-or_fault : (o : Option A) → Settles (or_fault o)
  unfolding SettlesOn
  Settles-or_fault none m = tt
  Settles-or_fault (some a) m = (tt, refl)

  pub Settles-if :
      (P : A → Type 0) (b : Bool) (k l : Kernel A)
      → SettlesOn P k
      → SettlesOn P l
      → SettlesOn P (if b then k else l)
  Settles-if P true k l h h' = h
  Settles-if P false k l h h' = h'

  pub Settles-stop :
      (P : A → Type 0) (s : Stop) → ((m : Machine) → Clean s m) → SettlesOn P (stop {A = A} s)
  unfolding SettlesOn
  Settles-stop P s h m = h m

module _ {A : Type 0} (P : A → Type 0) where
  pub SettlesOn-pure : (a : A) → P a → SettlesOn P (pure a)
  unfolding SettlesOn
  SettlesOn-pure a h m = (h, refl)

  -- What the value is known by reaches the code behind the read.
  pub SettlesOn-or_fault :
      {B : Type 0} (o : Option B) (f : B → Kernel A)
      → ((b : B) → o ≡ some b → SettlesOn P (f b))
      → SettlesOn P (or_fault o >>= f)
  unfolding SettlesOn
  SettlesOn-or_fault none f later m = tt
  SettlesOn-or_fault (some b) f later m = later b refl m

  pub SettlesOn-if :
      (b : Bool) (k l : Kernel A)
      → (b ≡ true → SettlesOn P k)
      → (b ≡ false → SettlesOn P l)
      → SettlesOn P (if b then k else l)
  SettlesOn-if true k l h h' = h refl
  SettlesOn-if false k l h h' = h' refl

pub settles :
    {A : Type 0} (P : A → Type 0) (k : Kernel A)
    → SettlesOn P k
    → (m : Machine) → Settled P m.input (k m)
unfolding SettlesOn
settles P k h = h

pub Settles-record_effect : (e : Effect) → Settles (record_effect e)
unfolding SettlesOn
Settles-record_effect e m = (tt, refl)
