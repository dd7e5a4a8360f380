-- ===== src/Ipc/WaitQueue.antt =====
-- src/tipc_core.h: `tipc_waitq_t`, the fixed FIFO of blocked task ids, and its functions.
pub mod Refine
use trait_os.Base.{ℕ, ◌+◌, ◌-◌, ◌%◌, ◌^◌, leb, ◌==◌, if◌then◌else◌, Option, none, some}
use trait_os.Base.{List, [], ◌∷◌}
use trait_os.Base.Update.{update}
use trait_os.Ipc.Fifo.{Rc, ok, fail, Op, put, get, Reply, stored, fetched}

abbrev pub wait_max : ℕ
wait_max = 16

-- `TIPC_NONE`
abbrev pub no_task : ℕ
no_task = 2 ^ 32 - 1

-- `id` is the array; `head` and `n` are `uint8_t`.
pub record WaitQueue : Type 0 where
  pub id : ℕ → ℕ
  pub head : ℕ
  pub n : ℕ

unfoldable pub init : WaitQueue → WaitQueue
init q = record q { head = 0; n = 0 }

unfoldable pub push : WaitQueue → ℕ → Rc × WaitQueue
push q i =
    if leb wait_max q.n
    then (fail, q)
    else (ok, record q { id = update q.id ((q.head + q.n) % wait_max) i; n = (q.n + 1) % 2 ^ 8 })

-- `q->n--` runs only at `n != 0`.
unfoldable pub pop : WaitQueue → ℕ × WaitQueue
pop q =
    if q.n == 0
    then (no_task, q)
    else (q.id q.head, record q { head = (q.head + 1) % wait_max % 2 ^ 8; n = q.n - 1 })

unfoldable pub count : WaitQueue → ℕ
count q = q.n

-- What `tipc_core_waitq_pop` returns, as an option.
abbrev pub popped : ℕ → Option ℕ
popped w = if w == no_task then none else some w

-- A client's calls in order, with what each returns.
unfoldable pub run : WaitQueue → List (Op ℕ) → List (Reply ℕ)
run q [] = []
run q (put i ∷ ops) = let (rc, q') = push q i in stored rc ∷ run q' ops
run q (get ∷ ops) = let (w, q') = pop q in fetched (popped w) ∷ run q' ops
