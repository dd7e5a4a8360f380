-- ===== src/Base/Masks.antt =====
-- Masks of machine words: numbers are equal if their bits are, and which bits a power, a multiple
-- of a power and a row of ones have.
use Prim.Native.Nat.{ℕ, zero, suc, ◌+◌, ◌*◌, ◌/◌, ◌%◌, ◌^◌, ◌≤◌, ◌<◌, ◌-◌}
use mathlib.Core.Path.{◌≡◌, sym, ap, ◌∙◌}
use native.Mathlib.Nat.{mul_assoc}
use native.Mathlib.Omega.{arith}
use trait_os.Base.Tests.{ltb, if◌then◌else◌}
use trait_os.Base.Bits.{testbit, testbit-zero, pow_pos}

testbit-ext_below : (n a b : ℕ) → a ≤ n → b ≤ n → ((k : ℕ) → testbit a k ≡ testbit b k) → a ≡ b
testbit-ext_below zero a b p q h = omega arith
testbit-ext_below (suc n) a b p q h =
    omega
      (arith, h 0, testbit-ext_below n (a / 2) (b / 2) (omega arith) (omega arith) (λ k. h (suc k)))

pub testbit-ext : (a b : ℕ) → ((k : ℕ) → testbit a k ≡ testbit b k) → a ≡ b
testbit-ext a b h = testbit-ext_below (a + b) a b (omega arith) (omega arith) h

-- A number below 2^k has no bit from `k` on.
pub testbit-above : (k a j : ℕ) → a < 2 ^ k → k ≤ j → testbit a j ≡ 0
testbit-above zero a j h le =
    let z : a ≡ 0 = omega arith in ap (λ n. testbit n j) z ∙ testbit-zero j
testbit-above (suc k) a zero h le = absurd (omega arith)
testbit-above (suc k) a (suc j) h le = testbit-above k (a / 2) j (omega arith) (omega arith)

twice : (x k : ℕ) → (x * 2 ^ suc k % 2 ≡ 0) × (x * 2 ^ suc k / 2 ≡ x * 2 ^ k)
twice x k =
    let next : 2 ^ suc k ≡ 2 ^ k * 2 = omega arith in
    let assoc : x * 2 ^ suc k ≡ x * 2 ^ k * 2 =
      ap (λ n. x * n) next ∙ sym (mul_assoc x (2 ^ k) 2) in
    (omega (arith, assoc), omega (arith, assoc))

-- A multiple of 2^k has none below `k`.
pub testbit-below : (k x j : ℕ) → j < k → testbit (x * 2 ^ k) j ≡ 0
testbit-below zero x j h = absurd (omega arith)
testbit-below (suc k) x zero h = (twice x k).0
testbit-below (suc k) x (suc j) h =
    ap (λ n. testbit n j) (twice x k).1 ∙ testbit-below k x j (omega arith)

pub testbit-shift : (k x j : ℕ) → testbit (x * 2 ^ k) (k + j) ≡ testbit x j
testbit-shift zero x j =
    let one : x * 2 ^ 0 ≡ x = omega arith in
    let start : 0 + j ≡ j = omega arith in
    ap (testbit (x * 2 ^ 0)) start ∙ ap (λ n. testbit n j) one
testbit-shift (suc k) x j =
    let next : suc k + j ≡ suc (k + j) = omega arith in
    ap (testbit (x * 2 ^ suc k)) next
    ∙ ap (λ n. testbit n (k + j)) (twice x k).1
    ∙ testbit-shift k x j

-- A row of `k` ones.
pub testbit-row : (k j : ℕ) → testbit (2 ^ k - 1) j ≡ (if ltb j k then 1 else 0)
testbit-row zero j = testbit-zero j ∙ ground arith
testbit-row (suc k) zero = ground (arith, odd)
  where
    odd : (2 ^ suc k - 1) % 2 ≡ 1
    odd = omega (arith, pow_pos k)
testbit-row (suc k) (suc j) =
    let half : (2 ^ suc k - 1) / 2 ≡ 2 ^ k - 1 = omega arith in
    ap (λ n. testbit n j) half ∙ testbit-row k j ∙ ground arith
