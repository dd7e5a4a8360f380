-- ===== src/Task/Ops.antt =====
-- src/ttask.c: the operations of the scheduler on a running system.
use trait_os.Base.{ℕ, zero, suc, ◌+◌, ◌-◌, ◌^◌, ◌==◌, leb, if◌then◌else◌, Bool, true, false, not}
use trait_os.Base.{◌||◌}
use trait_os.Task.Pick.{State, free, ready, exited, blocked}
use trait_os.Task.Slice.{slice_ticks}
use trait_os.Task.Table.{in_block, Sched, Layout, max_tasks}
use trait_os.Task.Switch.{u32, put_task, switch_ctx, pick_next, resume, pick_switch}
use trait_os.Task.Create.{is_reusable}

-- `TTASK_SELF_NONE`
abbrev pub self_none : ℕ
self_none = 2 ^ 32 - 1

-- `current_task` is null only before `ttask_init`, when `scheduler_ready` is 0 too.
unfoldable pub self : Sched → ℕ
self s = if s.scheduler_ready then s.current else self_none

abbrev is_blocked : State → Bool
is_blocked blocked = true
is_blocked _ = false

unfoldable pub wake : Sched → ℕ → Sched
wake s id =
    let t = s.tasks id in
    if leb max_tasks id
    then s
    else if is_blocked t.state
    then record (put_task s id (record t { state = ready; wake_count = u32 (t.wake_count + 1) })) {
      total_wakes = u32 (s.total_wakes + 1);
    }
    else s

-- Whether `ttask_block` switched to another task, or returned at once.
pub data Blocked : Type 0 where
  parked returned : Blocked

-- `ttask_block` up to its call of `ttask_pick_next`.
unfoldable pub mark_blocked : Sched → Sched
mark_blocked s =
    let t = s.tasks s.current in
    record (put_task s s.current
      (record t { state = blocked; blocked_count = u32 (t.blocked_count + 1) })) {
        total_blocks = u32 (s.total_blocks + 1);
      }

module _ (l : Layout) where
  unfoldable pub yield_cpu : Sched → Sched
  yield_cpu s = if s.scheduler_ready then pick_switch l s else s

  unfoldable pub block : Sched → Blocked × Sched
  unfolding mark_blocked
  block s =
      let s' = mark_blocked s in
      let next = pick_next s' in
      if not s.scheduler_ready
      then (returned, s)
      else if next == s.current
      then (returned, put_task s' s.current (record (s'.tasks s.current) { state = ready }))
      else (parked, resume l (s'.tasks next).context (switch_ctx in_block next s'))

  unfoldable pub exit : Sched → Sched
  exit s = pick_switch l (put_task s s.current (record (s.tasks s.current) { state = exited }))

  unfoldable pub tick : Sched → Sched
  tick s =
      let t = s.tasks s.current in
      let t' = record t { ticks = u32 (t.ticks + 1); slice = t.slice - 1 } in
      if s.scheduler_ready then pick_switch l (put_task s s.current t') else s

abbrev is_free : State → Bool
is_free free = true
is_free _ = false

unfoldable pub count_tasks : Sched → ℕ → ℕ
count_tasks s zero = 0
count_tasks s (suc i) = let n = count_tasks s i in if is_free (s.tasks i).state then n else n + 1

-- `prio` is a `uint8_t`.
unfoldable pub set_priority : Sched → ℕ → ℕ → Sched
set_priority s id prio =
    let t = s.tasks id in
    if leb max_tasks id || is_reusable t.state
    then s
    else put_task s id (record t { priority = prio; slice = slice_ticks prio })

unfoldable pub get_priority : Sched → ℕ → ℕ
get_priority s id = if leb max_tasks id then 0 else (s.tasks id).priority

-- `ttask_stats_t`; `now` is `timer_ticks()`.
pub record Stats : Type 0 where
  pub total_switches : ℕ
  pub total_ticks : ℕ
  pub total_blocks : ℕ
  pub total_wakes : ℕ

unfoldable pub get_stats : Sched → ℕ → Stats
get_stats s now = record {
  total_switches = s.total_switches;
  total_ticks = now;
  total_blocks = s.total_blocks;
  total_wakes = s.total_wakes;
}

-- `ttask_ready`
unfoldable pub is_up : Sched → Bool
is_up s = s.scheduler_ready
