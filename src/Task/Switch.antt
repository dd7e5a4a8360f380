-- ===== src/Task/Switch.antt =====
-- src/ttask.c: choosing the next task and switching to it.
use trait_os.Base.{ℕ, ◌+◌, ◌%◌, ◌^◌, ◌==◌, if◌then◌else◌, ◌||◌}
use trait_os.Base.{Option, none, some}
use trait_os.Base.Update.{update}
use trait_os.Task.Pick.{pick_index_ex}
use trait_os.Task.Slice.{slice_ticks}
use trait_os.Task.Table.{Context, in_pick_switch, Task, Sched, Layout}
use trait_os.Task.Table.{max_tasks}

abbrev pub u32 : ℕ → ℕ
u32 n = n % 2 ^ 32

-- A write to the table's entry `i`.
abbrev pub put_task : Sched → ℕ → Task → Sched
put_task s i t = record s { tasks = update s.tasks i t }

abbrev pub index_or : ℕ → Option ℕ → ℕ
index_or d none = d
index_or d (some i) = i

unfoldable pub pick_next : Sched → ℕ
pick_next s = index_or s.current (
    pick_index_ex s.current (λ i. (s.tasks i).state) (λ i. (s.tasks i).priority) max_tasks
      (if (s.tasks s.current).slice == 0 then some s.current else none))

-- `ttask_switch_ctx` (boot/task_switch.asm): leave the current task in `saved`, and make `next`
-- current.
unfoldable pub switch_ctx : Context → ℕ → Sched → Sched
switch_ctx saved next s =
    record (put_task s s.current (record (s.tasks s.current) { context = saved })) {
      current = next;
    }

module _ (l : Layout) where
  -- The address space that `ttask_pick_switch` wants for the task `next`.
  abbrev pub wanted : Sched → ℕ → ℕ
  wanted s next = if (s.tasks next).user_mode then (s.tasks next).aspace else l.kernel_aspace

  -- What the task that has become current runs first: the rest of the function that it was left
  -- in. In `ttask_pick_switch` that is the switch of CR3 for its own local `next`.
  unfoldable pub resume : Context → Sched → Sched
  resume (in_pick_switch next) s =
      if wanted s next == 0 || s.active_aspace == wanted s next
      then s
      else record s { active_aspace = wanted s next }
  resume _ s = s

  unfoldable pub pick_switch : Sched → Sched
  pick_switch s =
      let next = pick_next s in
      let t = s.tasks next in
      let t' = record t { slice = slice_ticks t.priority; switches = u32 (t.switches + 1) } in
      let s' = record (put_task s next t') {
        total_switches = u32 (s.total_switches + 1);
        rsp0 = if t.stack == 0 then l.stack_top else t.stack + t.stack_size;
      } in
      if next == s.current then s else resume t.context (switch_ctx (in_pick_switch next) next s')
