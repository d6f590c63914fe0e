-- ===== src/Prelude/Bits.antt =====
-- The bit operations of C at variables. A mask of one byte is a table of 256 entries; the `|` of
-- disjoint fields is a sum at every width.
use Prim.Native.Nat.{ℕ, zero, suc, ◌+◌, ◌*◌, ◌/◌, ◌%◌, ◌^◌, ◌≤◌, ◌<◌, max, bit_and, bit_or}
use Prim.Native.Nat.{digits, bit_or-bitwise}
use mathlib.Core.Path.{◌≡◌, refl, ap}
use mathlib.Core.Bool.{Bool, true, ◌&&◌}
use native.Mathlib.Nat.{pow-suc}
use native.Mathlib.Omega.{arith}
use charcoalos.Prelude.Tests.{◌==◌, ==_iff}

every_below : ℕ → (ℕ → Bool) → Bool
every_below zero p = true
every_below (suc n) p = p n && every_below n p

every_below_sound : (n : ℕ) (p : ℕ → Bool) (x : ℕ) → every_below n p ≡ true → x < n → p x ≡ true
unfolding every_below
every_below_sound zero p x h lt = absurd (omega arith)
every_below_sound (suc n) p x h lt = ground (arith, every_below_sound n p x)

low_nibble_table : every_below 256 (λ x. bit_and x 15 == x % 16) ≡ true
unfolding every_below
low_nibble_table = refl

pub low_nibble : (b : ℕ) → b < 256 → bit_and b 15 ≡ b % 16
low_nibble b h = (==_iff _ _).0 (every_below_sound 256 _ b low_nibble_table h)

-- An operation on digits by the lowest one: the fuel does not matter once it is enough.
pub digits_fuel :
    (z : ℕ → ℕ) (f : ℕ → ℕ → ℕ) (n m a b : ℕ) → a ≤ n → a ≤ m → digits z f n a b ≡ digits z f m a b
digits_fuel z f n m zero b p q = both n m
  where
    both : (n m : ℕ) → digits z f n 0 b ≡ digits z f m 0 b
    both zero zero = refl
    both zero (suc m) = refl
    both (suc n) zero = refl
    both (suc n) (suc m) = refl
digits_fuel z f zero m (suc a) b p q = absurd (omega arith)
digits_fuel z f (suc n) zero (suc a) b p q = absurd (omega arith)
digits_fuel z f (suc n) (suc m) (suc a) b p q =
    omega (arith, digits_fuel z f n m (suc a / 2) (b / 2) (omega arith) (omega arith))

pub zero-bit_or : (b : ℕ) → bit_or 0 b ≡ b
zero-bit_or b = bit_or-bitwise 0 b

bit_or_halves : (a b : ℕ) → bit_or a b ≡ bit_or (a / 2) (b / 2) * 2 + max (a % 2) (b % 2)
bit_or_halves zero b = omega (arith, zero-bit_or b, zero-bit_or (b / 2))
bit_or_halves (suc a) b = omega (
  arith,
  bit_or-bitwise (suc a) b,
  bit_or-bitwise (suc a / 2) (b / 2),
  digits_fuel (λ y. y) max a (suc a / 2) (suc a / 2) (b / 2) (omega arith) (omega arith),
)

bit_or-zero_bounded : (n a : ℕ) → a ≤ n → bit_or a 0 ≡ a
bit_or-zero_bounded n zero h = zero-bit_or 0
bit_or-zero_bounded zero (suc a) h = absurd (omega arith)
bit_or-zero_bounded (suc n) (suc a) h =
    omega (arith, bit_or_halves (suc a) 0, bit_or-zero_bounded n (suc a / 2) (omega arith))

pub bit_or-zero : (a : ℕ) → bit_or a 0 ≡ a
bit_or-zero a = bit_or-zero_bounded a a (omega arith)

-- `(hi << k) | lo` where `lo` fits in `k` bits.
pub bit_or_disjoint : (k hi lo : ℕ) → lo < 2 ^ k → bit_or (hi * 2 ^ k) lo ≡ hi * 2 ^ k + lo
bit_or_disjoint zero hi lo h = ground (arith, bit_or-zero hi)
bit_or_disjoint (suc k) hi lo h = ground (
  arith,
  bit_or_halves (hi * 2 ^ suc k) lo,
  ap (λ (t : ℕ). hi * t) (pow-suc 2 k),
  pow-suc 2 k,
  bit_or_disjoint k hi (lo / 2),
)

-- `|` on the bits from `k` on and below `k`, each by itself.
pub bit_or_parts :
    (k hi lo hi' lo' : ℕ)
    → lo < 2 ^ k
    → lo' < 2 ^ k
    → bit_or (hi * 2 ^ k + lo) (hi' * 2 ^ k + lo') ≡ bit_or hi hi' * 2 ^ k + bit_or lo lo'
bit_or_parts zero hi lo hi' lo' h h' =
    let none : lo ≡ 0 = omega arith in
    let none' : lo' ≡ 0 = omega arith in
    let left : hi * 2 ^ 0 + 0 ≡ hi = omega arith in
    let right : hi' * 2 ^ 0 + 0 ≡ hi' = omega arith in
    rw (none, none') (rw (left, right) (omega (arith, zero-bit_or 0)))
bit_or_parts (suc k) hi lo hi' lo' h h' = ground (
  arith,
  bit_or_halves (hi * 2 ^ suc k + lo) (hi' * 2 ^ suc k + lo'),
  bit_or_halves lo lo',
  ap (λ (t : ℕ). hi * t) (pow-suc 2 k),
  ap (λ (t : ℕ). hi' * t) (pow-suc 2 k),
  ap (λ (t : ℕ). bit_or hi hi' * t) (pow-suc 2 k),
  pow-suc 2 k,
  bit_or_parts k hi (lo / 2) hi' (lo' / 2),
)
