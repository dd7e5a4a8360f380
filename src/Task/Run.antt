-- ===== src/Task/Run.antt =====
-- Sequences of scheduler operations, and what holds of a task table over any of them.
pub mod Safe
pub mod Waits
use trait_os.Base.{ℕ, List, [], ◌∷◌}
use trait_os.Task.Table.{Sched, Layout}
use trait_os.Task.Switch.{pick_switch}
use trait_os.Task.Create.{create, create_user}
use trait_os.Task.Ops.{wake, yield_cpu, block, exit, tick, set_priority}

-- The calls of the scheduler's interface that change its state, made by whoever runs; the number
-- that a creation takes first is what `tmalloc` returns for its stack.
pub data Op : Type 0 where
  do_tick do_yield do_block do_exit : Op
  do_wake : ℕ → Op
  do_create : ℕ → List ℕ → ℕ → ℕ → Op
  do_create_user : ℕ → List ℕ → ℕ → ℕ → ℕ → Op
  do_set_priority : ℕ → ℕ → Op

module _ (l : Layout) where
  unfoldable pub apply : Op → Sched → Sched
  apply do_tick s = tick l s
  apply do_yield s = yield_cpu l s
  apply do_block s = (block l s).1
  apply do_exit s = exit l s
  apply (do_wake id) s = wake s id
  apply (do_create stack name fn arg) s = (create l stack name fn arg s).1
  apply (do_create_user stack name at aspace rsp) s = (create_user l stack name at aspace rsp s).1
  apply (do_set_priority id prio) s = set_priority s id prio

  unfoldable pub run : List Op → Sched → Sched
  run [] s = s
  run (op ∷ ops) s = run ops (apply op s)
