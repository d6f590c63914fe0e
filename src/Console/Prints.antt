-- ===== src/Console/Prints.antt =====
-- Code that only prints.
use charcoalos.Console.Print.{shown, print_literal}
use charcoalos.Console.Hex.{hex_digits, print_value_lem}
use charcoalos.Console.{print_value, literal, console_print}
use charcoalos.Prelude.{ℕ, ◌≡◌, ap, ◌∙◌, ◌++◌, Bytes, String}
use charcoalos.Machine.{◌>>◌, continue, emit, Kernel, emit-emit, returned, Machine, Outcome}

-- From every machine, it sends some text and changes nothing else.
abbrev pub Prints : Kernel (Unit {0}) → Type 0
Prints k = (m : Machine) → (text : Bytes) × (k m ≡ (returned tt, emit m text))

pub Prints-literal : (s : String) → Prints (console_print (literal s))
Prints-literal s m = (shown s, print_literal s m)

pub Prints-value : (size v : ℕ) → Prints (print_value size v)
Prints-value size v m = (hex_digits size v, print_value_lem size v m)

pub Prints-then : (k l : Kernel (Unit {0})) → Prints k → Prints l → Prints (k >> l)
Prints-then k l first second m =
    let (a, e) = first m in
    let (b, f) = second (emit m a) in
    (
      a ++ b,
      ap (λ (r : Outcome (Unit {0}) × Machine). continue r.0 (λ _. l) r.1) e
          ∙ f
          ∙ ap (λ (n : Machine). (returned tt, n)) (emit-emit m a b),
    )
