-- ===== src/Base/Bits.antt =====
-- Bits of machine words: `testbit` reads one bit, and the laws say what `&`, `|` and `~` do to it.
use Prim.Native.Nat.{
  ℕ, zero, suc, ◌+◌, ◌*◌, ◌/◌, ◌%◌, ◌^◌, ◌≤◌, ◌<◌, ◌-◌, min, max, bit_and, bit_or, digits,
  bit_and-bitwise, bit_or-bitwise,
}
use mathlib.Core.Path.{◌≡◌, refl, ap, ◌∙◌}
use native.Mathlib.Omega.{arith}
use trait_os.Base.Tests.{◌==◌, if◌then◌else◌}

-- Bit `k` of `a`, `(a >> k) & 1`.
abbrev pub testbit : ℕ → ℕ → ℕ
testbit a zero = a % 2
testbit a (suc k) = testbit (a / 2) k

pub testbit-le-one : (a k : ℕ) → testbit a k ≤ 1
testbit-le-one a zero = omega arith
testbit-le-one a (suc k) = testbit-le-one (a / 2) k

pub testbit-zero : (k : ℕ) → testbit 0 k ≡ 0
testbit-zero zero = refl
testbit-zero (suc k) = testbit-zero k

-- An operation `g` on two bits, with `end b` for the digits of `b` beyond those of the first number.
module _ (g : ℕ → ℕ → ℕ) (end : ℕ → ℕ) (bit : (x y : ℕ) → x ≤ 1 → y ≤ 1 → g x y ≤ 1)
    (end_bits : (b k : ℕ) → testbit (end b) k ≡ g 0 (testbit b k)) where
  next_bits : (d r : ℕ) → r ≤ 1 → ((d * 2 + r) % 2 ≡ r) × ((d * 2 + r) / 2 ≡ d)
  next_bits d r h = (omega arith, omega arith)

  past_end : (b k : ℕ) → testbit (end b) k ≡ g (testbit 0 k) (testbit b k)
  past_end b k = end_bits b k ∙ ap (λ x. g x (testbit b k)) (omega (arith, testbit-zero k))

  -- Digit by digit is bit by bit, when no more digits are asked for than `n`.
  testbit-digits :
      (n a b k : ℕ) → a ≤ n → testbit (digits end g n a b) k ≡ g (testbit a k) (testbit b k)
  testbit-digits zero zero b k h = past_end b k
  testbit-digits (suc n) zero b k h = past_end b k
  testbit-digits zero (suc a) b k h = absurd (omega arith)
  testbit-digits (suc n) (suc a) b zero h =
      (next_bits (digits end g n (suc a / 2) (b / 2)) _ (bit _ _ (omega arith) (omega arith))).0
  testbit-digits (suc n) (suc a) b (suc k) h =
      ap (λ d. testbit d k)
        (next_bits (digits end g n (suc a / 2) (b / 2)) _ (bit _ _ (omega arith) (omega arith))).1
      ∙ testbit-digits n (suc a / 2) (b / 2) k (omega arith)

pub testbit-bit_and : (a b k : ℕ) → testbit (bit_and a b) k ≡ min (testbit a k) (testbit b k)
testbit-bit_and a b k =
    ap (λ d. testbit d k) (bit_and-bitwise a b)
    ∙ testbit-digits min (λ b. zero) (λ x y p q. omega arith) (λ b k. omega (arith, testbit-zero k))
        a a b k (omega arith)

pub testbit-bit_or : (a b k : ℕ) → testbit (bit_or a b) k ≡ max (testbit a k) (testbit b k)
testbit-bit_or a b k =
    ap (λ d. testbit d k) (bit_or-bitwise a b)
    ∙ testbit-digits max (λ b. b) (λ x y p q. omega arith) (λ b k. omega arith) a a b k
        (omega arith)

-- Bit `j` of `1u << k`.
abbrev pub bit_of : ℕ → ℕ → ℕ
bit_of k j = if k == j then 1 else 0

double : (k : ℕ) → (2 ^ suc k % 2 ≡ 0) × (2 ^ suc k / 2 ≡ 2 ^ k)
double k = (omega arith, omega arith)

pub testbit-pow : (k j : ℕ) → testbit (2 ^ k) j ≡ bit_of k j
testbit-pow zero zero = refl
testbit-pow zero (suc j) = ground (arith, testbit-zero j)
testbit-pow (suc k) zero = ground (arith, double k)
testbit-pow (suc k) (suc j) = ap (λ a. testbit a j) (double k).1 ∙ testbit-pow k j ∙ ground arith

-- Bit `j` of `~a`, in a word of `w` bits.
pub testbit-not : (w a j : ℕ) → a < 2 ^ w → j < w → testbit (2 ^ w - 1 - a) j ≡ 1 - testbit a j
testbit-not zero a j h lt = absurd (omega arith)
testbit-not (suc w) a zero h lt = omega arith
testbit-not (suc w) a (suc j) h lt =
    let halves : (2 ^ suc w - 1 - a) / 2 ≡ 2 ^ w - 1 - a / 2 = omega arith in
    ap (λ d. testbit d j) halves ∙ testbit-not w (a / 2) j (omega arith) (omega arith)

pub pow_pos : (w : ℕ) → 0 < 2 ^ w
pow_pos zero = omega arith
pow_pos (suc w) = omega (arith, pow_pos w)

pow_below : (k w : ℕ) → k < w → 2 ^ k < 2 ^ w
pow_below k zero lt = absurd (omega arith)
pow_below zero (suc w) lt = omega (arith, pow_pos w)
pow_below (suc k) (suc w) lt = omega (arith, pow_below k w (omega arith))

-- Bit `j` of `~(1u << k)`, in a word of 32 bits.
pub testbit-mask : (k j : ℕ) → k < 32 → j < 32 → testbit (2 ^ 32 - 1 - 2 ^ k) j ≡ 1 - bit_of k j
testbit-mask k j hk hj =
    testbit-not 32 (2 ^ k) j (pow_below k 32 hk) hj ∙ ap (λ b. 1 - b) (testbit-pow k j)

pub testbit-ones : (j : ℕ) → j < 32 → testbit (2 ^ 32 - 1) j ≡ 1
testbit-ones j hj = omega (arith, testbit-not 32 0 j (omega arith) hj, testbit-zero j)

pub testbit-small : (a k : ℕ) → a < 2 ^ k → testbit a k ≡ 0
testbit-small a zero h = omega arith
testbit-small a (suc k) h = testbit-small (a / 2) k (omega arith)
