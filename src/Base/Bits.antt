-- ===== src/Base/Bits.antt =====
-- Bitwise operations at variables: each takes a step from the lowest digit, from which follow the
-- laws of `|` and `&` under a shift and a remainder, which page table entries are read by.
use Prim.Native.Nat.{
  ℕ, zero, suc, ◌+◌, ◌*◌, ◌/◌, ◌%◌, ◌^◌, ◌≤◌, ◌<◌, min, max, bit_and, bit_or, digits,
  bit_and-bitwise, bit_or-bitwise,
}
use mathlib.Core.Path.{◌≡◌, refl, ap}
use native.Mathlib.Omega.{arith}
use native.Mathlib.Nat.{pow-suc}

-- The digit-wise definition behind a bitwise operation, with `last` for the digits of the second
-- number when the first has none left, needs no more rounds than the first number's value.
module _ (last : ℕ → ℕ) (digit : ℕ → ℕ → ℕ) where
  rounds_enough :
      (low high x y : ℕ)
      → x ≤ low
      → low ≤ high
      → digits last digit high x y ≡ digits last digit low x y
  rounds_enough zero zero x y small more = refl
  rounds_enough zero (suc high) zero y small more = refl
  rounds_enough (suc low) (suc high) zero y small more = refl
  rounds_enough (suc low) (suc high) (suc x) y small more =
      let halves = rounds_enough low high (suc x / 2) (y / 2) (omega arith) (omega arith) in
      omega (arith, halves)
  rounds_enough (suc low) zero x y small more = absurd (omega arith)
  rounds_enough zero (suc high) (suc x) y small more = absurd (omega arith)

bit_or-nothing : (y : ℕ) → bit_or 0 y ≡ y
bit_or-nothing = bit_or-bitwise 0

pub zero-bit_and : (y : ℕ) → bit_and 0 y ≡ 0
zero-bit_and = bit_and-bitwise 0

-- The step from the lowest digit.
pub bit_or_step : (a b : ℕ) → bit_or a b ≡ bit_or (a / 2) (b / 2) * 2 + max (a % 2) (b % 2)
bit_or_step zero y = omega (arith, bit_or-nothing (y / 2), bit_or-nothing y)
bit_or_step (suc x) y =
    let fewer =
      rounds_enough (λ d. d) max (suc x / 2) x (suc x / 2) (y / 2) (omega arith) (omega arith) in
    omega (arith, fewer, bit_or-bitwise (suc x / 2) (y / 2), bit_or-bitwise (suc x) y)

pub bit_and_step : (a b : ℕ) → bit_and a b ≡ bit_and (a / 2) (b / 2) * 2 + min (a % 2) (b % 2)
bit_and_step zero y = omega (arith, zero-bit_and (y / 2), zero-bit_and y)
bit_and_step (suc x) y =
    let fewer =
      rounds_enough (λ d. zero) min (suc x / 2) x (suc x / 2) (y / 2) (omega arith) (omega arith) in
    omega (arith, fewer, bit_and-bitwise (suc x / 2) (y / 2), bit_and-bitwise (suc x) y)

-- With 0 as the second operand, for numbers up to a bound.
zeros_below : (bound x : ℕ) → x ≤ bound → (bit_or x 0 ≡ x) × (bit_and x 0 ≡ 0)
zeros_below zero zero small = (refl, refl)
zeros_below (suc bound) zero small = (refl, refl)
zeros_below zero (suc x) small = absurd (omega arith)
zeros_below (suc bound) (suc x) small =
    let half = zeros_below bound (suc x / 2) (omega arith) in
    (omega (arith, half.0, bit_or_step (suc x) 0), omega (arith, half.1, bit_and_step (suc x) 0))

pub bit_or-zero : (a : ℕ) → bit_or a 0 ≡ a
bit_or-zero a = (zeros_below a a (omega arith)).0

pub bit_and-zero : (a : ℕ) → bit_and a 0 ≡ 0
bit_and-zero a = (zeros_below a a (omega arith)).1

pub bit_and-one : (a : ℕ) → bit_and a 1 ≡ a % 2
bit_and-one a = omega (arith, bit_and_step a 1, bit_and-zero (a / 2))

-- A test of bit `k` by its mask reads the digit.
pub bit_and-two : (a : ℕ) → bit_and a 2 ≡ a / 2 % 2 * 2
bit_and-two a = omega (arith, bit_and_step a 2, bit_and-one (a / 2))

pub bit_and-four : (a : ℕ) → bit_and a 4 ≡ a / 4 % 2 * 4
bit_and-four a = omega (arith, bit_and_step a 4, bit_and-two (a / 2))

pub bit_or-half : (a b : ℕ) → bit_or a b / 2 ≡ bit_or (a / 2) (b / 2)
bit_or-half a b = omega (arith, bit_or_step a b)

pub bit_or-odd : (a b : ℕ) → bit_or a b % 2 ≡ max (a % 2) (b % 2)
bit_or-odd a b = omega (arith, bit_or_step a b)

bit_or-div_16 : (a b : ℕ) → bit_or a b / 16 ≡ bit_or (a / 16) (b / 16)
bit_or-div_16 a b = omega (
  arith,
  bit_or-half a b,
  bit_or-half (a / 2) (b / 2),
  bit_or-half (a / 2 / 2) (b / 2 / 2),
  bit_or-half (a / 2 / 2 / 2) (b / 2 / 2 / 2),
  ap (λ (n : ℕ). bit_or n (b / 2 / 2 / 2 / 2)) (sixteenth a),
  ap (λ (n : ℕ). bit_or (a / 16) n) (sixteenth b),
)
  where
    sixteenth : (n : ℕ) → n / 2 / 2 / 2 / 2 ≡ n / 16
    sixteenth n = omega arith

-- The page address bits of an `|` are the `|` of the page address bits.
pub bit_or-page : (a b : ℕ) → bit_or a b / 4096 ≡ bit_or (a / 4096) (b / 4096)
bit_or-page a b = omega (
  arith,
  bit_or-div_16 a b,
  bit_or-div_16 (a / 16) (b / 16),
  bit_or-div_16 (a / 16 / 16) (b / 16 / 16),
  ap (λ (n : ℕ). bit_or n (b / 16 / 16 / 16)) (page a),
  ap (λ (n : ℕ). bit_or (a / 4096) n) (page b),
)
  where
    page : (n : ℕ) → n / 16 / 16 / 16 ≡ n / 4096
    page n = omega arith

-- Where the second operand fits below the first one's lowest bit, `|` is a sum.
pub bit_or-disjoint : (k q r : ℕ) → r < 2 ^ k → bit_or (q * 2 ^ k) r ≡ q * 2 ^ k + r
bit_or-disjoint zero q r fits =
    let none_left : r ≡ 0 = omega arith in rw none_left (ground (arith, bit_or-zero (q * 1)))
bit_or-disjoint (suc k) q r fits =
    let twice : q * 2 ^ suc k ≡ 2 * (q * 2 ^ k) =
      omega (arith, ap (λ (t : ℕ). q * t) (pow-suc 2 k)) in
    let half : q * 2 ^ suc k / 2 ≡ q * 2 ^ k = omega arith in
    let fits' : r / 2 < 2 ^ k = omega (arith, pow-suc 2 k) in
    omega (
      arith,
      bit_or_step (q * 2 ^ suc k) r,
      ap (λ (n : ℕ). bit_or n (r / 2)) half,
      bit_or-disjoint k q (r / 2) fits',
    )
