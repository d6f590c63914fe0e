-- ===== src/Strings.antt =====
-- kernel/String/String.c. A `const char *` is the list of bytes from the pointer to the end of the
-- object that it points into; `none` is a read past that end.
pub mod Compare
use charcoalos.Prelude.{
  ℕ, zero, suc, ◌+◌, Bool, true, false, ◌||◌, not, Option, none, some, List, [], ◌∷◌, ◌==◌,
  if◌then◌else◌, Bytes, get_elem?,
}

-- Chains of reads.
infixl 5 ◌>>=◌
abbrev ◌>>=◌ {ℓ κ} : {A : Type ℓ} {B : Type κ} → Option A → (A → Option B) → Option B
none >>= f = none
some a >>= f = f a

-- The loop counts from `i` on.
length_from : ℕ → Bytes → Option ℕ
length_from i [] = none
length_from i (c ∷ cs) = let rest = length_from (i + 1) cs in if c == 0 then some i else rest

pub string_length : Bytes → Option ℕ
unfolding length_from
string_length string = length_from 0 string

-- `for (size_t i = ...; i < n; ++i)` with `left` rounds to go.
equal_from : ℕ → ℕ → Bytes → Bytes → Option Bool
equal_from zero i text other = some true
equal_from (suc left) i text other = do
  a ← get_elem? text i
  b ← get_elem? other i
  let rest = equal_from left (i + 1) text other
  if a == b then rest else some false

pub string_compare : Bytes → Bytes → Option Bool
unfolding string_length equal_from
string_compare text other = do
  length_text ← string_length text
  length_other ← string_length other
  if length_text == length_other then equal_from length_text 0 text other else some false

-- `||` reads `other` only if `text` has its terminator there.
unterminated : Bytes → Bytes → ℕ → Option Bool
unterminated text other expected_length = do
  a ← get_elem? text expected_length
  if a == 0 then (do b ← get_elem? other expected_length; some (not (b == 0))) else some true

pub string_compare_with_length : Bytes → Bytes → ℕ → Bool → Option Bool
unfolding equal_from unterminated
string_compare_with_length text other expected_length true = do
  bad ← unterminated text other expected_length
  if bad then some false else equal_from expected_length 0 text other
string_compare_with_length text other expected_length false =
    equal_from expected_length 0 text other
