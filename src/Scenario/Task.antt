-- ===== src/Scenario/Task.antt =====
-- Runs of the scheduler of src/ttask_core.h and src/ttask.c.
use trait_os.Base.{ℕ, ◌≤◌, ◌<◌, ◌≡◌, ◌≢◌, ◌⊎◌, refl, arith, none, some, List, [], ◌∷◌, true}
use trait_os.Base.{◌==◌, if◌then◌else◌}
use trait_os.Task.Pick.{State, ready, blocked, pick_index_ex, pick_round, pick_loop}
use trait_os.Task.Pick.Best.{Eligible, turns, pick_some}
use trait_os.Task.Table.{Frame, entry, in_pick_switch, Task, zero_task, Sched, Layout}
use trait_os.Task.Switch.{pick_next}
use trait_os.Task.Run.{Op, do_tick, do_yield, do_block, do_wake, do_create, run}
use trait_os.Task.Run.Safe.{Safe, state_of}
use trait_os.Task.Run.Waits.{run-Safe, blocked_until_woken}

abbrev pub layout : Layout
layout = record { stack_top = 0x9000; task_entry = 0x200; kernel_aspace = 7 }

abbrev frame : Frame
frame = record { rip = 0x400000; cs = 0x1b; rflags = 0x202; rsp = 0x7000; ss = 0x23 }

-- Task 0 is the idle task, task 1 runs, task 2 waits, task 3 is a user program that has not run.
abbrev table : ℕ → Task
table i =
    if i == 0
    then record zero_task { state = ready; context = in_pick_switch 1 }
    else if i == 1
    then record zero_task { state = ready; priority = 1; slice = 1 }
    else if i == 2
    then record zero_task { state = blocked; priority = 1; context = in_pick_switch 1 }
    else if i == 3
    then record zero_task {
      state = ready;
      priority = 2;
      context = entry frame;
      user_mode = true;
      aspace = 11;
    }
    else zero_task

abbrev pub running : Sched
running = record {
  tasks = table;
  scheduler_ready = true;
  total_switches = 0;
  total_blocks = 0;
  total_wakes = 0;
  current = 1;
  rsp0 = 0x9000;
  active_aspace = 7;
}

abbrev state : ℕ → State
state i = (table i).state

abbrev prio : ℕ → ℕ
prio i = (table i).priority

picks_user : pick_index_ex 1 state prio 32 none ≡ some 3
unfolding pick_index_ex pick_loop pick_round
picks_user = refl

next_user : pick_next running ≡ 3
unfolding pick_next pick_index_ex pick_loop pick_round
next_user = refl

pick_some_example :
    (3 < 32)
    × Eligible state none 3
    × ((prio 0 < prio 3) ⊎ ((prio 0 ≡ prio 3) × (turns 1 32 3 ≤ turns 1 32 0)))
pick_some_example =
    pick_some 1 state prio 32 none 3 0 (omega arith) picks_user (omega arith) (refl, ground arith)

abbrev all_blocked : ℕ → State
all_blocked i = if i == 1 then ready else blocked

picks_nobody : pick_index_ex 1 all_blocked prio 32 (some 1) ≡ none
unfolding pick_index_ex pick_loop pick_round
picks_nobody = refl

running-Safe : Safe running
running-Safe = record { current_in = omega arith; current_runs = ground arith }

abbrev ops : List Op
ops = do_tick ∷ do_yield ∷ do_block ∷ do_wake 1 ∷ do_create 0x5000 [] 0x300 0 ∷ []

run-Safe_example : Safe (run layout ops running)
run-Safe_example = run-Safe layout ops running running-Safe

blocked_until_woken_example :
    (state_of (run layout ops running) 2 ≡ blocked) × ((run layout ops running).current ≢ 2)
blocked_until_woken_example =
    blocked_until_woken layout ops running 2 running-Safe (tt, (tt, (tt, (omega arith, (tt, tt)))))
      refl
