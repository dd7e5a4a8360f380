-- ===== src/Sys/Sleep.antt =====
-- src/tsys.c: how long `TSYS_SLEEP` sleeps. The timer counts in 32 bits, the deadline in 64.
use trait_os.Base.{ℕ, ◌+◌, ◌%◌, ◌^◌, ◌≤◌, ◌<◌, ◌≡◌, refl, ap, ◌∙◌, false, ltb}
use trait_os.Base.{if◌then◌else◌, arith, lt→ltb}
use trait_os.Task.Table.{Layout}
use trait_os.Task.Ops.{yield_cpu}
use trait_os.Sys.State.{Kernel, Registers, negative, returns, waits, sleeping}
use trait_os.Sys.Calls.{early, sleep_on, sys_sleep}

-- The test of the loop is the one that is meant, for a deadline and a count that are close.
early_lem :
    (until ticks : ℕ) → until ≤ 2 ^ 63 → ticks < 2 ^ 32 → early until ticks ≡ ltb ticks until
unfolding early
early_lem until ticks a b = ground arith

-- For a deadline of at most 2^63: a round of a sleep goes on to another one exactly while the count of
-- the timer is below the deadline, and otherwise returns 0.
pub sleep_on_lem :
    (l : Layout) (until : ℕ) (k : Kernel)
    → until ≤ 2 ^ 63
    → k.ticks < 2 ^ 32
    → sleep_on l until k ≡ (
        if ltb k.ticks until
        then waits (sleeping until) (record k { sched = yield_cpu l k.sched })
        else returns 0 k)
unfolding sleep_on
sleep_on_lem l until k a b = rw (early_lem until k.ticks a b) refl

sleeps_on :
    (l : Layout) (until : ℕ) (k : Kernel)
    → until ≤ 2 ^ 63
    → k.ticks < 2 ^ 32
    → k.ticks < until
    → sleep_on l until k ≡ waits (sleeping until) (record k { sched = yield_cpu l k.sched })
sleeps_on l until k a b c =
    let test = lt→ltb k.ticks until c in
    sleep_on_lem l until k a b
    ∙ ap
        (λ t.
          if t
          then waits (sleeping until) (record k { sched = yield_cpu l k.sched })
          else returns 0 k)
        test

-- A sleep over at least as many ticks as are left until the 32-bit count wraps, for a sum below 2^63:
-- the call waits for a deadline that no later count of the timer reaches, so every further round goes
-- on to another one.
pub sleep_past_wrap :
    (l : Layout) (r : Registers) (k k' : Kernel)
    → k.ticks < 2 ^ 32
    → k'.ticks < 2 ^ 32
    → 2 ^ 32 ≤ k.ticks + r.rdi
    → k.ticks + r.rdi < 2 ^ 63
    → (sys_sleep l r k
        ≡ waits (sleeping (k.ticks + r.rdi)) (record k { sched = yield_cpu l k.sched }))
      × (sleep_on l (k.ticks + r.rdi) k'
          ≡ waits (sleeping (k.ticks + r.rdi)) (record k' { sched = yield_cpu l k'.sched }))
unfolding sys_sleep
sleep_past_wrap l r k k' a b c d =
    let until = k.ticks + r.rdi in
    let short : negative r.rdi ≡ false = ground arith in
    let same : until % 2 ^ 64 ≡ until = omega arith in
    (
      rw (short, same) (sleeps_on l until k (omega arith) a (omega arith)),
      sleeps_on l until k' (omega arith) b (omega arith),
    )
