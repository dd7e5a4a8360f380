-- ===== src/Pmm/Count.antt =====
-- Counting free frames: how the count changes when one frame is taken or given back.
use native.Mathlib.Decide.{dec_lt}
use trait_os.Base.{ℕ, zero, suc, ◌+◌, ◌≤◌, ◌<◌, ◌≡◌, ◌≢◌, refl, ap, arith, ◌==◌, if◌then◌else◌}

-- How many of the frames below `n` have the bit 0.
abbrev pub count_free : (ℕ → ℕ) → ℕ → ℕ
count_free bit zero = 0
count_free bit (suc n) = if bit n == 0 then suc (count_free bit n) else count_free bit n

-- Two bit tables that agree below `n` have the same count.
pub count_free-eq :
    (b c : ℕ → ℕ) (n : ℕ) → ((g : ℕ) → g < n → b g ≡ c g) → count_free b n ≡ count_free c n
count_free-eq b c zero h = refl
count_free-eq b c (suc n) h = ground (arith, h n, count_free-eq b c n (λ g lt. h g (omega arith)))

-- Taking a free frame below `n` lowers the count by one.
pub count_free-take :
    (b c : ℕ → ℕ) (f n : ℕ)
    → f < n
    → b f ≡ 0
    → ((g : ℕ) → c g ≡ (if f == g then 1 else b g))
    → count_free b n ≡ suc (count_free c n)
count_free-take b c f zero lt bf h = absurd (omega arith)
count_free-take b c f (suc n) lt bf h = ground (
  arith,
  h n,
  count_free-take b c f n,
  λ (out : n ≤ f). count_free-eq b c n (λ g lt'. ground (arith, h g)),
)

-- A table with no free frame below `n`.
pub count_free-zero : (b : ℕ → ℕ) (n : ℕ) → count_free b n ≡ 0 → (g : ℕ) → g < n → b g ≢ 0
count_free-zero b zero e g lt = absurd (omega arith)
count_free-zero b (suc n) e g lt = elim (dec_lt g n) [
  | yes p ↦ count_free-zero b n (ground arith) g p
  | no p ↦ λ z. let at_n : g ≡ n = omega arith in ground arith
]

-- A free frame below `n` is counted.
pub count_free-pos : (b : ℕ → ℕ) (n f : ℕ) → f < n → b f ≡ 0 → 0 < count_free b n
count_free-pos b n f lt z = elim (dec_lt 0 (count_free b n)) [
  | yes p ↦ p
  | no p ↦ absurd (count_free-zero b n (omega arith) f lt z)
]

pub count_free-le : (b : ℕ → ℕ) (n : ℕ) → count_free b n ≤ n
count_free-le b zero = omega arith
count_free-le b (suc n) = ground (arith, count_free-le b n)

-- Used frames above `n` add nothing to the count.
pub count_free-extend :
    (b : ℕ → ℕ) (n k : ℕ)
    → ((g : ℕ) → n ≤ g → g < n + k → b g ≡ 1)
    → count_free b (n + k) ≡ count_free b n
count_free-extend b n zero h = ap (count_free b) (omega arith)
count_free-extend b n (suc k) h =
    let step : n + suc k ≡ suc (n + k) = omega arith in
    rw step (ground (arith, h (n + k), count_free-extend b n k (λ g a c. h g a (omega arith))))
