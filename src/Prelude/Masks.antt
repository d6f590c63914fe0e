-- ===== src/Prelude/Masks.antt =====
-- `&` with a mask of lowest or of highest bits, at every width.
use Prim.Native.Nat.{ℕ, zero, suc, ◌+◌, ◌-◌, ◌*◌, ◌/◌, ◌%◌, ◌^◌, ◌<◌, min, bit_and}
use Prim.Native.Nat.{bit_and-bitwise}
use mathlib.Core.Path.{◌≡◌, ap}
use native.Mathlib.Nat.{pow-suc}
use charcoalos.Prelude.Bits.{digits_fuel}
use native.Mathlib.Omega.{arith}

-- The lowest digit first.
bit_and_halves : (a b : ℕ) → bit_and a b ≡ bit_and (a / 2) (b / 2) * 2 + min (a % 2) (b % 2)
bit_and_halves zero b =
    let nothing : (c : ℕ) → bit_and 0 c ≡ 0 = bit_and-bitwise 0 in
    omega (arith, nothing b, nothing (b / 2))
bit_and_halves (suc a) b =
    let half = digits_fuel (λ _. zero) min a (suc a / 2) (suc a / 2) (b / 2) in
    omega (
      arith,
      half (omega arith) (omega arith),
      bit_and-bitwise (suc a / 2) (b / 2),
      bit_and-bitwise (suc a) b,
    )

bit_and_nothing : (bound a : ℕ) → a < bound → bit_and a 0 ≡ 0
bit_and_nothing zero a below = absurd (omega arith)
bit_and_nothing (suc bound) zero below = bit_and-bitwise 0 0
bit_and_nothing (suc bound) (suc a) below =
    let half = bit_and_nothing bound (suc a / 2) (omega arith) in
    omega (arith, half, bit_and_halves (suc a) 0)

-- The mask of the lowest `k` bits.
pub bit_and_low : (k hi lo : ℕ) → lo < 2 ^ k → bit_and (hi * 2 ^ k + lo) (2 ^ k - 1) ≡ lo
bit_and_low zero hi lo h = ground (arith, bit_and_nothing (hi + 1) hi)
bit_and_low (suc k) hi lo h = ground (
  arith,
  bit_and_halves (hi * 2 ^ suc k + lo) (2 ^ suc k - 1),
  ap (λ (t : ℕ). hi * t) (pow-suc 2 k),
  pow-suc 2 k,
  bit_and_low k hi (lo / 2),
)

-- A mask whose lowest `k` bits are not set.
pub bit_and_high :
    (k hi lo mask : ℕ)
    → lo < 2 ^ k
    → bit_and (hi * 2 ^ k + lo) (mask * 2 ^ k) ≡ bit_and hi mask * 2 ^ k
bit_and_high zero hi lo mask h =
    let left : hi * 2 ^ 0 + lo ≡ hi = omega arith in
    let right : mask * 2 ^ 0 ≡ mask = omega arith in rw (left, right) (omega arith)
bit_and_high (suc k) hi lo mask h = ground (
  arith,
  bit_and_halves (hi * 2 ^ suc k + lo) (mask * 2 ^ suc k),
  ap (λ (t : ℕ). hi * t) (pow-suc 2 k),
  ap (λ (t : ℕ). mask * t) (pow-suc 2 k),
  ap (λ (t : ℕ). bit_and hi mask * t) (pow-suc 2 k),
  pow-suc 2 k,
  bit_and_high k hi (lo / 2) mask,
)

-- On the bits from `k` on and below `k`, each by itself.
pub bit_and_parts :
    (k hi lo hi' lo' : ℕ)
    → lo < 2 ^ k
    → lo' < 2 ^ k
    → bit_and (hi * 2 ^ k + lo) (hi' * 2 ^ k + lo') ≡ bit_and hi hi' * 2 ^ k + bit_and lo lo'
bit_and_parts zero hi lo hi' lo' h h' =
    let none : lo ≡ 0 = omega arith in
    let none' : lo' ≡ 0 = omega arith in
    let left : hi * 2 ^ 0 + 0 ≡ hi = omega arith in
    let right : hi' * 2 ^ 0 + 0 ≡ hi' = omega arith in
    rw (none, none') (rw (left, right) (omega (arith, bit_and_nothing 1 0)))
bit_and_parts (suc k) hi lo hi' lo' h h' = ground (
  arith,
  bit_and_halves (hi * 2 ^ suc k + lo) (hi' * 2 ^ suc k + lo'),
  bit_and_halves lo lo',
  ap (λ (t : ℕ). hi * t) (pow-suc 2 k),
  ap (λ (t : ℕ). hi' * t) (pow-suc 2 k),
  ap (λ (t : ℕ). bit_and hi hi' * t) (pow-suc 2 k),
  pow-suc 2 k,
  bit_and_parts k hi (lo / 2) hi' (lo' / 2),
)
