-- ===== src/Strings/Compare.antt =====
-- kernel/String/String.c: what the string functions compute, on null-terminated strings.
use charcoalos.Prelude.{
  ℕ, zero, suc, ◌+◌, ◌≤◌, ◌<◌, ◌≡◌, refl, ap, ◌≢◌, ◌↔◌, inl, inr, Bool, true, false, ◌&&◌, none,
  some, [], ◌∷◌, ◌++◌, arith, ltb, ◌==◌, if◌then◌else◌, Option-cases, length, get_elem?, All, Bytes,
}
use charcoalos.Strings.{
  string_length, string_compare, string_compare_with_length, length_from, equal_from,
}

-- No byte of a string's text is the terminator.
abbrev pub IsText : Bytes → Type 0
IsText = All (λ c. c ≢ 0)

-- The object that holds `text`, its terminator, and whatever follows.
abbrev pub terminated : Bytes → Bytes → Bytes
terminated text rest = text ++ (0 ∷ rest)

length_from-terminated :
    (i : ℕ) (text rest : Bytes)
    → IsText text
    → length_from i (terminated text rest) ≡ some (i + length text)
unfolding length_from
length_from-terminated i [] rest h = ground arith
length_from-terminated i (c ∷ text) rest h =
    ground (arith, length_from-terminated (i + 1) text rest h.1, h.0)

pub string_length-terminated :
    (text rest : Bytes) → IsText text → string_length (terminated text rest) ≡ some (length text)
unfolding string_length
string_length-terminated text rest h = ground (arith, length_from-terminated 0 text rest h)

-- Are the two texts the same?
abbrev pub same : Bytes → Bytes → Bool
same [] [] = true
same (x ∷ a) (y ∷ b) = x == y && same a b
same _ _ = false

pub same_iff : (a b : Bytes) → (same a b ≡ true) ↔ (a ≡ b)
same_iff [] [] = ground arith
same_iff (x ∷ a) (y ∷ b) = ground (arith, same_iff a b)
same_iff _ _ = ground arith

equal_from-suc :
    (left i : ℕ) (x y : ℕ) (text other : Bytes)
    → equal_from left (suc i) (x ∷ text) (y ∷ other) ≡ equal_from left i text other
unfolding equal_from
equal_from-suc zero i x y text other = refl
equal_from-suc (suc left) i x y text other =
    ground (arith, equal_from-suc left (i + 1) x y text other)

-- The loop over two texts of one length, whatever follows them.
equal_from-same :
    (a b : Bytes) (r s : Bytes)
    → length a ≡ length b
    → equal_from (length a) 0 (a ++ r) (b ++ s) ≡ some (same a b)
unfolding equal_from
equal_from-same [] [] r s e = refl
equal_from-same [] (y ∷ b) r s e = absurd (omega arith)
equal_from-same (x ∷ a) [] r s e = absurd (omega arith)
equal_from-same (x ∷ a) (y ∷ b) r s e =
    ground (arith, equal_from-suc (length a) 0 x y (a ++ r) (b ++ s), equal_from-same a b r s)

same_lengths : (a b : Bytes) → same a b ≡ true → length a ≡ length b
same_lengths a b h = ap length ((same_iff a b).0 h)

string_compare-same :
    (a b r s : Bytes)
    → IsText a
    → IsText b
    → string_compare (terminated a r) (terminated b s) ≡ some (same a b)
unfolding string_compare
string_compare-same a b r s ha hb = ground (
  arith,
  length_from-terminated 0 a r ha,
  length_from-terminated 0 b s hb,
  equal_from-same a b (0 ∷ r) (0 ∷ s),
  same_lengths a b,
)

-- On two null-terminated strings `string_compare` reads within their objects, and answers true
-- exactly when the texts before the terminators are the same.
pub string_compare_lem :
    (a b r s : Bytes)
    → IsText a
    → IsText b
    → (answer : Bool) × (string_compare (terminated a r) (terminated b s) ≡ some answer)
      × ((answer ≡ true) ↔ (a ≡ b))
string_compare_lem a b r s ha hb = (same a b, string_compare-same a b r s ha hb, same_iff a b)

-- A run on equal texts.
pub string_compare_self :
    (a r s : Bytes) → IsText a → string_compare (terminated a r) (terminated a s) ≡ some true
string_compare_self a r s h = rw (string_compare-same a a r s h h) (ap some ((same_iff a a).1 refl))

-- Does the object begin with this string and its terminator?
abbrev pub holds : Bytes → Bytes → Bool
holds [] [] = false
holds [] (y ∷ text) = y == 0
holds (x ∷ b) [] = false
holds (x ∷ b) (y ∷ text) = y == x && holds b text

begins : Bytes → Bytes → Bool
begins [] text = true
begins (x ∷ b) [] = false
begins (x ∷ b) (y ∷ text) = y == x && begins b text

equal_from-begins :
    (b text s : Bytes)
    → length b ≤ length text
    → equal_from (length b) 0 text (b ++ s) ≡ some (begins b text)
unfolding equal_from begins
equal_from-begins [] text s h = refl
equal_from-begins (x ∷ b) [] s h = absurd (omega arith)
equal_from-begins (x ∷ b) (y ∷ text) s h =
    ground (arith, equal_from-suc (length b) 0 y x text (b ++ s), equal_from-begins b text s)

holds-begins :
    (b text : Bytes) (c : ℕ)
    → get_elem? text (length b) ≡ some c
    → holds b text ≡ (c == 0 && begins b text)
unfolding begins
holds-begins [] [] c h = cc
holds-begins [] (y ∷ text) c h = ground arith
holds-begins (x ∷ b) [] c h = cc
holds-begins (x ∷ b) (y ∷ text) c h = ground (arith, holds-begins b text c)

get_elem?-terminator : (b rest : Bytes) → get_elem? (terminated b rest) (length b) ≡ some 0
get_elem?-terminator [] rest = refl
get_elem?-terminator (x ∷ b) rest = get_elem?-terminator b rest

get_elem?-none : (text : Bytes) (n : ℕ) → get_elem? text n ≡ none → length text ≤ n
get_elem?-none [] n h = omega arith
get_elem?-none (x ∷ text) zero h = cc
get_elem?-none (x ∷ text) (suc n) h = omega (arith, get_elem?-none text n h)

get_elem?-lt : (text : Bytes) (n c : ℕ) → get_elem? text n ≡ some c → n < length text
get_elem?-lt [] n c h = cc
get_elem?-lt (x ∷ text) zero c h = omega arith
get_elem?-lt (x ∷ text) (suc n) c h = omega (arith, get_elem?-lt text n c h)

-- Against a string constant, `string_compare_with_length` faults exactly when the byte at the
-- expected length lies past the object of the first string, and else answers whether that object
-- begins with the constant and its terminator.
pub string_compare_with_length_lem :
    (text b s : Bytes)
    → string_compare_with_length text (terminated b s) (length b) true
      ≡ (if ltb (length b) (length text) then some (holds b text) else none)
unfolding string_compare_with_length
string_compare_with_length_lem text b s = elim (Option-cases (get_elem? text (length b))) [
  | inl past ↦ ground (arith, get_elem?-none text (length b) past)
  | inr (c, at) ↦ ground (
    arith,
    get_elem?-lt text (length b) c at,
    get_elem?-terminator b s,
    equal_from-begins b text (0 ∷ s),
    holds-begins b text c at,
  )
]

-- Whether a string's object begins with another string is whether the two texts are the same.
pub holds-terminated :
    (b text rest : Bytes) → IsText b → IsText text → holds b (terminated text rest) ≡ same b text
holds-terminated [] [] rest hb ht = refl
holds-terminated [] (y ∷ text) rest hb ht = ground arith
holds-terminated (x ∷ b) [] rest hb ht = ground arith
holds-terminated (x ∷ b) (y ∷ text) rest hb ht =
    ground (arith, holds-terminated b text rest hb.1 ht.1)

-- A value that is as long as the string with its terminator.
pub holds-value :
    (b value rest : Bytes)
    → length value ≡ length b + 1
    → holds b (value ++ rest) ≡ same (terminated b []) value
holds-value [] [] rest e = absurd (omega arith)
holds-value [] (y ∷ []) rest e = ground arith
holds-value [] (y ∷ z ∷ value) rest e = absurd (omega arith)
holds-value (x ∷ b) [] rest e = absurd (omega arith)
holds-value (x ∷ b) (y ∷ value) rest e = ground (arith, holds-value b value rest (omega arith))
