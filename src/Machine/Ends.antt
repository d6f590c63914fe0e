-- ===== src/Machine/Ends.antt =====
-- How a run may end: it returns a value with `P`, or stops in a way that `S` allows.
use charcoalos.Machine.{Outcome, continue, Machine, Kernel, returned, Stop, ◌>>=◌, stopped}
use charcoalos.Prelude.{◌≡◌, refl, Bool, true, false, if◌then◌else◌}

abbrev pub Ends : {A : Type 0} → (Stop → Type 0) → (A → Type 0) → Outcome A → Type 0
Ends S P (returned a) = P a
Ends S P (stopped s) = S s

-- Any value will do.
abbrev pub Anything : {A : Type 0} → A → Type 0
Anything a = Unit {0}

module _ {A B : Type 0} (S : Stop → Type 0) (P : A → Type 0) (Q : B → Type 0) where
  Ends-continue :
      (o : Outcome A) (f : A → Kernel B) (m : Machine)
      → Ends S P o
      → ((a : A) (n : Machine) → P a → Ends S Q (f a n).0)
      → Ends S Q (continue o f m).0
  Ends-continue (returned a) f m h later = later a m h
  Ends-continue (stopped s) f m h later = h

  pub Ends-bind :
      (k : Kernel A) (f : A → Kernel B) (m : Machine)
      → Ends S P (k m).0
      → ((a : A) (n : Machine) → P a → Ends S Q (f a n).0)
      → Ends S Q ((k >>= f) m).0
  Ends-bind k f m = Ends-continue (k m).0 f (k m).1

module _ {A : Type 0} (S : Stop → Type 0) (P : A → Type 0) where
  pub Ends-if :
      (b : Bool) (k l : Kernel A) (m : Machine)
      → (b ≡ true → Ends S P (k m).0)
      → (b ≡ false → Ends S P (l m).0)
      → Ends S P ((if b then k else l) m).0
  Ends-if true k l m yes_case no_case = yes_case refl
  Ends-if false k l m yes_case no_case = no_case refl

  pub Ends-weaken :
      (T : Stop → Type 0) (Q : A → Type 0) (o : Outcome A)
      → ((s : Stop) → S s → T s)
      → ((a : A) → P a → Q a)
      → Ends S P o
      → Ends T Q o
  Ends-weaken T Q (returned a) stops values h = values a h
  Ends-weaken T Q (stopped s) stops values h = stops s h

-- How a run may end, with the machine that it leaves.
abbrev pub Leaves :
    {A : Type 0} → (Stop → Machine → Type 0) → (A → Machine → Type 0) → Outcome A × Machine → Type 0
Leaves S P (returned a, n) = P a n
Leaves S P (stopped s, n) = S s n

module _ {A B : Type 0} (S : Stop → Machine → Type 0) (P : A → Machine → Type 0)
    (Q : B → Machine → Type 0) where
  Leaves-continue :
      (o : Outcome A) (f : A → Kernel B) (n : Machine)
      → Leaves S P (o, n)
      → ((a : A) (n : Machine) → P a n → Leaves S Q (f a n))
      → Leaves S Q (continue o f n)
  Leaves-continue (returned a) f n h later = later a n h
  Leaves-continue (stopped s) f n h later = h

  pub Leaves-bind :
      (k : Kernel A) (f : A → Kernel B) (m : Machine)
      → Leaves S P (k m)
      → ((a : A) (n : Machine) → P a n → Leaves S Q (f a n))
      → Leaves S Q ((k >>= f) m)
  Leaves-bind k f m = Leaves-continue (k m).0 f (k m).1

module _ {A : Type 0} (S : Stop → Machine → Type 0) (P : A → Machine → Type 0) where
  pub Leaves-if :
      (b : Bool) (k l : Kernel A) (m : Machine)
      → (b ≡ true → Leaves S P (k m))
      → (b ≡ false → Leaves S P (l m))
      → Leaves S P ((if b then k else l) m)
  Leaves-if true k l m yes_case no_case = yes_case refl
  Leaves-if false k l m yes_case no_case = no_case refl
