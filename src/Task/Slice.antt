-- ===== src/Task/Slice.antt =====
-- src/ttask_core.h: the length of a task's timeslice in timer ticks.
use trait_os.Base.{ℕ, ◌%◌, ◌^◌, ◌≤◌, ◌<◌, ◌≡◌, arith, ltb, ◌==◌, if◌then◌else◌}
use native.Mathlib.Nat.{pow-le-pow_right}
use trait_os.Base.{zero, suc}

abbrev pub slice_max : ℕ
slice_max = 16

abbrev pub slice_idle : ℕ
slice_idle = 32

-- `1u << (prio & 7u)`, cut off at `slice_max`; `prio` is a `uint8_t`.
unfoldable pub slice_ticks : ℕ → ℕ
slice_ticks prio =
    if prio == 0
    then slice_idle
    else let s = 2 ^ (prio % 8) in if ltb slice_max s then slice_max else s

-- The powers that the slices are cut from.
pow_small : (r : ℕ) → r < 8 → (1 ≤ 2 ^ r) × (r ≤ 3 → 2 ^ r ≤ 8) × (4 ≤ r → 16 ≤ 2 ^ r)
pow_small zero h = omega arith
pow_small (suc zero) h = omega arith
pow_small (suc (suc zero)) h = omega arith
pow_small (suc (suc (suc zero))) h = omega arith
pow_small (suc (suc (suc (suc zero)))) h = omega arith
pow_small (suc (suc (suc (suc (suc zero))))) h = omega arith
pow_small (suc (suc (suc (suc (suc (suc zero)))))) h = omega arith
pow_small (suc (suc (suc (suc (suc (suc (suc zero))))))) h = omega arith
pow_small (suc (suc (suc (suc (suc (suc (suc (suc r)))))))) h = omega arith

-- Every task gets at least one tick and at most thirty-two.
pub slice_bounds : (prio : ℕ) → (1 ≤ slice_ticks prio) × (slice_ticks prio ≤ slice_idle)
unfolding slice_ticks
slice_bounds prio = ground (arith, pow_small (prio % 8) (omega arith))

-- Between priorities 1 and 7 a higher priority never gets a shorter slice, and no slice is longer
-- than `TTASK_SLICE_MAX`.
pub slice_mono :
    (p q : ℕ)
    → 1 ≤ p
    → p ≤ q
    → q ≤ 7
    → (1 ≤ slice_ticks p) × (slice_ticks p ≤ slice_ticks q) × (slice_ticks q ≤ slice_max)
unfolding slice_ticks
slice_mono p q hp hpq hq =
    let grows : 2 ^ p ≤ 2 ^ q = pow-le-pow_right (omega arith) hpq in
    let p_mod : p % 8 ≡ p = omega arith in
    let q_mod : q % 8 ≡ q = omega arith in
    rw (p_mod, q_mod) (ground (arith, pow_small p (omega arith)))

-- A priority that is a positive multiple of eight gets a single tick, the shortest slice of all.
pub slice_wraps : (prio : ℕ) → 8 ≤ prio → prio % 8 ≡ 0 → slice_ticks prio ≡ 1
unfolding slice_ticks
slice_wraps prio a b = ground arith
