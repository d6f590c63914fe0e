-- ===== src/DeviceTree/Encode/Cursor.antt =====
-- Addresses in a blob: what stands behind one, and behind the next.
use charcoalos.DeviceTree.Property.Align.{align-gap}
use charcoalos.Endian.Decode.{be32_bytes, read_be-encode}
use charcoalos.DeviceTree.Types.{pointed, read32, Blob, plus}
use charcoalos.DeviceTree.Encode.{padded, zeros, gap}
use charcoalos.DeviceTree.Property.{align}
use charcoalos.Machine.{Machine, returned}
use charcoalos.Prelude.{
  ℕ, zero, suc, ◌+◌, ◌-◌, ◌%◌, ◌^◌, ◌≤◌, ◌<◌, ◌≡◌, refl, sym, ap, ◌∙◌, false, List, [], ◌∷◌, ◌++◌,
  arith, ltb, length, drop, length-append, Bytes, drop-append,
}

drop-nil : {A : Type 0} (n : ℕ) → drop {A = A} n [] ≡ []
drop-nil zero = refl
drop-nil (suc n) = refl

drop_add : {A : Type 0} (i n : ℕ) (xs : List A) → drop (i + n) xs ≡ drop n (drop i xs)
drop_add zero n xs = ap (λ (k : ℕ). drop k xs) (omega arith)
drop_add (suc i) n [] = drop-nil (suc i + n) ∙ sym (drop-nil n)
drop_add (suc i) n (x ∷ xs) =
    let sum : suc i + n ≡ suc (i + n) = omega arith in rw sum (drop_add i n xs)

pub pointed-add : (b : Blob) (c n : ℕ) → b.dtb ≤ c → pointed b (c + n) ≡ drop n (pointed b c)
pointed-add b c n h =
    let here : ltb c b.dtb ≡ false = ground arith in
    let there : ltb (c + n) b.dtb ≡ false = ground arith in
    let sum : c + n - b.dtb ≡ (c - b.dtb) + n = omega arith in
    rw (here, there, sum) (drop_add (c - b.dtb) n b.contents)

-- Behind a text that stands at the cursor.
pub pointed-next :
    (b : Blob) (c : ℕ) (text rest : Bytes)
    → b.dtb ≤ c
    → pointed b c ≡ text ++ rest
    → pointed b (c + length text) ≡ rest
pointed-next b c text rest h e =
    pointed-add b c (length text) h ∙ ap (drop (length text)) e ∙ drop-append text rest

pub read32-pointed :
    (b : Blob) (c v : ℕ) (rest : Bytes) (m : Machine)
    → pointed b c ≡ be32_bytes v ++ rest
    → v < 2 ^ 32
    → read32 b c m ≡ (returned v, m)
unfolding read32
read32-pointed b c v rest m e h = rw (e, (read_be-encode v 0 rest h (omega arith)).0) refl

pub plus_lem : (a n : ℕ) → a + n < 2 ^ 64 → plus a n ≡ a + n
plus_lem a n h = omega arith

gap_add : (c n : ℕ) → c % 4 ≡ 0 → gap (c + n) ≡ gap n
gap_add c n h = omega arith

pub length-zeros : (n : ℕ) → length (zeros n) ≡ n
length-zeros zero = refl
length-zeros (suc n) = ap suc (length-zeros n)

pub length-padded : (text : Bytes) → length (padded text) ≡ length text + gap (length text)
length-padded text =
    omega
      (arith, length-append {0} text (zeros (gap (length text))), length-zeros (gap (length text)))

-- From an aligned cursor over a text and its padding.
pub align-padded :
    (c : ℕ) (text : Bytes)
    → c % 4 ≡ 0
    → c + length text + 3 < 2 ^ 64
    → (align (c + length text) ≡ c + length (padded text)) × ((c + length (padded text)) % 4 ≡ 0)
align-padded c text h small =
    let aligned = align-gap (c + length text) small in omega (arith, aligned, length-padded text)
