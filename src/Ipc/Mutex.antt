-- ===== src/Ipc/Mutex.antt =====
-- src/tipc_core.h and src/tipc.c: the recursive mutex. A round of the loop of `tipc_mutex_lock`
-- is one function, as in Ipc/Transfer.antt. The pointers of the calls are not null.
pub mod Exclusion
use trait_os.Base.{ℕ, ◌+◌, ◌-◌, ◌%◌, ◌^◌, ◌==◌, if◌then◌else◌, Bool, not}
use trait_os.Ipc.Fifo.{Rc, ok, fail, on_rc}
use trait_os.Ipc.WaitQueue
use trait_os.Ipc.WaitQueue.{WaitQueue, no_task}
use trait_os.Ipc.Transfer.{Outcome, returns, waits, wake_popped}
use trait_os.Task.Table.{Sched, Layout}
use trait_os.Task.Ops.{self, self_none, block}

-- `tipc_mutex_t`
pub record Mutex : Type 0 where
  pub owner : ℕ
  pub depth : ℕ
  pub wait : WaitQueue

unfoldable pub init : Mutex → Mutex
init m = record m { owner = no_task; depth = 0; wait = WaitQueue.init m.wait }

-- `tipc_mutex_init`
unfoldable pub mutex_init : Mutex → Rc × Mutex
mutex_init m = (ok, init m)

module _ (l : Layout) where
  -- The mutex is another task's: register in its queue and block.
  unfoldable pub park_locker : Mutex → Sched → Outcome × Mutex × Sched
  park_locker m s =
      let (rc, q) = WaitQueue.push m.wait (self s) in
      let (b, s') = block l s in on_rc rc (waits b, record m { wait = q }, s') (returns fail, m, s)

  unfoldable pub lock_round : Mutex → Sched → Outcome × Mutex × Sched
  lock_round m s =
      if self s == self_none
      then (returns fail, m, s)
      else if m.owner == no_task
      then (returns ok, record m { owner = self s; depth = 1 }, s)
      else if m.owner == self s
      then (returns ok, record m { depth = (m.depth + 1) % 2 ^ 32 }, s)
      else park_locker m s

-- `--m->depth` at depth 0 wraps.
unfoldable pub unlock : Mutex → Sched → Rc × Mutex × Sched
unlock m s =
    let depth' = (m.depth + 2 ^ 32 - 1) % 2 ^ 32 in
    let (w, q) = WaitQueue.pop m.wait in
    if self s == self_none
    then (fail, m, s)
    else if not (m.owner == self s)
    then (fail, m, s)
    else if depth' == 0
    then (ok, record m { owner = no_task; depth = depth'; wait = q }, wake_popped w s)
    else (ok, record m { depth = depth' }, s)
