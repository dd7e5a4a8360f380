-- ===== src/Task/Create.antt =====
-- src/ttask.c: booting the scheduler and creating tasks.
use trait_os.Base.{ℕ, zero, suc, ◌+◌, ◌-◌, ◌*◌, ◌/◌, ◌==◌, if◌then◌else◌, Bool, true, false}
use trait_os.Base.{not, ◌&&◌, Option, none, some, List, [], ◌∷◌, ◌++◌, take}
use trait_os.Base.Update.{update}
use trait_os.Task.Pick.{State, free, ready, exited}
use trait_os.Task.Slice.{slice_ticks}
use trait_os.Task.Table.{Context, entry, Task, Sched, Layout, zero_task, max_tasks, name_len}
use trait_os.Task.Table.{stack_bytes}
use trait_os.Task.Switch.{put_task}

-- What a creation hands back to the heap and to the VMM.
pub data Released : Type 0 where
  freed_stack : ℕ → Released
  destroyed_aspace : ℕ → Released

-- The text "idle".
abbrev idle_name : List ℕ
idle_name = b'i' ∷ b'd' ∷ b'l' ∷ b'e' ∷ []

unfoldable pub init : Sched → Sched
init s = record s {
  tasks = update s.tasks 0 (record zero_task { name = idle_name; state = ready });
  current = 0;
  scheduler_ready = true;
}

-- The first index below `i + rounds` from `i` on whose slot is free or holds a finished task.
abbrev pub is_reusable : State → Bool
is_reusable free = true
is_reusable exited = true
is_reusable _ = false

unfoldable pub find_slot : (ℕ → Task) → ℕ → ℕ → Option ℕ
find_slot tasks zero i = none
find_slot tasks (suc rounds) i =
    let later = find_slot tasks rounds (i + 1) in
    if is_reusable (tasks i).state then some i else later

-- The frame at the top of a fresh stack; `top` is rounded down to 16 bytes.
unfoldable pub init_stack : Layout → Task → Context
init_stack l t =
    let top = (t.stack + t.stack_size) / 16 * 16 in
    if t.user_mode
    then entry (record { rip = t.fn; cs = 0x1b; rflags = 0x202; rsp = t.user_rsp; ss = 0x23 })
    else entry (record { rip = l.task_entry; cs = 0x08; rflags = 0x202; rsp = top - 8; ss = 0x10 })

abbrev is_exited : State → Bool
is_exited exited = true
is_exited _ = false

-- `ttask_free_resources`: what it hands back.
unfoldable pub free_resources : Task → List Released
free_resources t =
    (if t.stack == 0 then [] else freed_stack t.stack ∷ [])
    ++ (if t.user_mode && not (t.aspace == 0) then destroyed_aspace t.aspace ∷ [] else [])

abbrev pub released_by : Task → List Released
released_by t = if is_exited t.state then free_resources t else []

-- The result of a creation: the new task's index (`none` for the null pointer), the scheduler,
-- and what was handed back.
abbrev pub Created : Type 0
Created = Option ℕ × Sched × List Released

module _ (l : Layout) where
  -- `stack` is what `tmalloc(TTASK_STACK_SIZE)` returns.
  create_at : ℕ → ℕ → List ℕ → ℕ → ℕ → Sched → Created
  create_at i stack name fn arg s =
      let t = record zero_task {
        name = take (name_len - 1) name;
        state = ready;
        priority = 1;
        slice = slice_ticks 1;
        fn = fn;
        arg = arg;
      } in
      let t' = record t { stack = stack; stack_size = stack_bytes } in
      if stack == 0
      then (none, put_task s i (record t { state = free }), released_by (s.tasks i))
      else (some i, put_task s i (record t' { context = init_stack l t' }), released_by (s.tasks i))

  unfoldable pub create : ℕ → List ℕ → ℕ → ℕ → Sched → Created
  unfolding create_at
  create stack name fn arg s =
      if not s.scheduler_ready then (none, s, []) else elim (find_slot s.tasks max_tasks 0) [
        | none ↦ (none, s, [])
        | some i ↦ create_at i stack name fn arg s
      ]

  create_user_at : ℕ → ℕ → List ℕ → ℕ → ℕ → ℕ → Sched → Created
  create_user_at i stack name entry_point aspace user_rsp s =
      let t = record zero_task {
        name = take (name_len - 1) name;
        state = ready;
        priority = 2;
        slice = slice_ticks 2;
        fn = entry_point;
      } in
      let t' = record t {
        stack = stack;
        stack_size = stack_bytes;
        user_mode = true;
        aspace = aspace;
        user_rsp = user_rsp;
      } in
      if stack == 0
      then (none, put_task s i (record t { state = free }), released_by (s.tasks i))
      else (some i, put_task s i (record t' { context = init_stack l t' }), released_by (s.tasks i))

  unfoldable pub create_user : ℕ → List ℕ → ℕ → ℕ → ℕ → Sched → Created
  unfolding create_user_at
  create_user stack name entry_point aspace user_rsp s =
      if not s.scheduler_ready then (none, s, []) else elim (find_slot s.tasks max_tasks 0) [
        | none ↦ (none, s, [])
        | some i ↦ create_user_at i stack name entry_point aspace user_rsp s
      ]
