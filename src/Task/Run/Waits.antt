-- ===== src/Task/Run/Waits.antt =====
-- A blocked task stays blocked until it is woken, over any sequence of scheduler operations.
use trait_os.Base.{ℕ, zero, suc, ◌+◌, ◌≡◌, ◌≢◌, inl, inr, refl, ◌∙◌, arith}
use trait_os.Base.{if_ind, true, false, some, Option-cases, List, [], ◌∷◌}
use trait_os.Base.{◌==◌, not}
use trait_os.Task.Pick.{blocked}
use trait_os.Task.Table.{in_block, Task, Sched, Layout}
use trait_os.Task.Table.{max_tasks}
use trait_os.Task.Switch.{put_task, pick_next}
use trait_os.Task.Create.{Created, find_slot, create, create_user, is_reusable}
use trait_os.Task.Ops.{Blocked, mark_blocked, wake, yield_cpu, block, exit, tick, set_priority}
use trait_os.Task.Run.{
  Op, do_tick, do_yield, do_block, do_exit, do_wake, do_create, do_create_user, do_set_priority,
  apply, run,
}
use trait_os.Task.Run.Safe.{state_of, Safe, pick_switch-state, resumed-state, yield-Safe, exit-Safe}
use trait_os.Task.Run.Safe.{tick-Safe, block-Safe, wake-Safe, set_priority-Safe}

-- What a blocked task is after an operation: still blocked.
abbrev Stays : (Sched → Sched) → Type 0
Stays f = (s : Sched) (j : ℕ) → Safe s → state_of s j ≡ blocked → state_of (f s) j ≡ blocked

mark_blocked-Stays : Stays mark_blocked
unfolding mark_blocked
mark_blocked-Stays s j v b = ground arith

module _ (l : Layout) where
  yield-Stays : Stays (yield_cpu l)
  unfolding yield_cpu
  yield-Stays s j v b =
      if_ind (λ r. state_of r j ≡ blocked) s.scheduler_ready (λ _. pick_switch-state l s j ∙ b)
        (λ _. b)

  tick-Stays : Stays (tick l)
  unfolding tick
  tick-Stays s j v b =
      if_ind (λ r. state_of r j ≡ blocked) s.scheduler_ready
        (λ _. pick_switch-state l _ j ∙ ground arith) (λ _. b)

  exit-Stays : Stays (exit l)
  unfolding exit
  exit-Stays s j v b = pick_switch-state l _ j ∙ ground (arith, v.current_runs)

  block-Stays : Stays (λ s. (block l s).1)
  unfolding block
  block-Stays s j v b =
      if_ind (λ (r : Blocked × Sched). state_of r.1 j ≡ blocked) (not s.scheduler_ready) (λ _. b)
        (λ _.
          if_ind (λ (r : Blocked × Sched). state_of r.1 j ≡ blocked)
            (pick_next (mark_blocked s) == s.current) (λ y. ground (arith, v.current_runs))
            (λ n. resumed-state l _ in_block _ j (mark_blocked s) ∙ mark_blocked-Stays s j v b))

wake-Stays :
    (s : Sched) (id j : ℕ) → id ≢ j → state_of s j ≡ blocked → state_of (wake s id) j ≡ blocked
unfolding wake
wake-Stays s id j ne b = ground arith

set_priority-Stays :
    (s : Sched) (id prio j : ℕ)
    → state_of s j ≡ blocked
    → state_of (set_priority s id prio) j ≡ blocked
unfolding set_priority
set_priority-Stays s id prio j b = ground arith

find_slot-reusable :
    (tasks : ℕ → Task) (rounds i k : ℕ)
    → find_slot tasks rounds i ≡ some k
    → is_reusable (tasks k).state ≡ true
unfolding find_slot
find_slot-reusable tasks zero i k e = cc
find_slot-reusable tasks (suc rounds) i k e =
    ground (arith, find_slot-reusable tasks rounds (i + 1) k)

-- What a creation does to the table: the current task stays current, a slot that is not reusable
-- keeps its state, and no slot becomes blocked.
record Creates (s s' : Sched) : Type 0 where
  same_current : s'.current ≡ s.current
  same_state : (j : ℕ) → is_reusable (state_of s j) ≡ false → state_of s' j ≡ state_of s j
  none_blocked : (j : ℕ) → state_of s j ≢ blocked → state_of s' j ≢ blocked

Creates-refl : (s : Sched) → Creates s s
Creates-refl s = record { same_current = refl; same_state = λ j h. refl; none_blocked = λ j h. h }

-- A write of a task that is not blocked to a reusable slot.
Creates-put :
    (s : Sched) (i : ℕ) (t : Task)
    → is_reusable (state_of s i) ≡ true
    → t.state ≢ blocked
    → Creates s (put_task s i t)
Creates-put s i t r nb = record {
  same_current = refl;
  same_state = λ j h. ground arith;
  none_blocked = λ j h. ground arith;
}

module _ (l : Layout) where
  create-Creates :
      (stack : ℕ) (name : List ℕ) (fn arg : ℕ) (s : Sched)
      → Creates s (create l stack name fn arg s).1
  unfolding create
  create-Creates stack name fn arg s =
      if_ind (λ (r : Created). Creates s r.1) (not s.scheduler_ready) (λ _. Creates-refl s)
        (λ _. elim (Option-cases (find_slot s.tasks max_tasks 0)) [
          | inl e ↦ rw e (Creates-refl s)
          | inr (k, e) ↦ rw e (
              let r = find_slot-reusable s.tasks max_tasks 0 k e in
              if_ind (λ (c : Created). Creates s c.1) (stack == 0)
                (λ _. Creates-put s k _ r (ground arith)) (λ _. Creates-put s k _ r (ground arith)))
        ])

  create_user-Creates :
      (stack : ℕ) (name : List ℕ) (at aspace rsp : ℕ) (s : Sched)
      → Creates s (create_user l stack name at aspace rsp s).1
  unfolding create_user
  create_user-Creates stack name at aspace rsp s =
      if_ind (λ (r : Created). Creates s r.1) (not s.scheduler_ready) (λ _. Creates-refl s)
        (λ _. elim (Option-cases (find_slot s.tasks max_tasks 0)) [
          | inl e ↦ rw e (Creates-refl s)
          | inr (k, e) ↦ rw e (
              let r = find_slot-reusable s.tasks max_tasks 0 k e in
              if_ind (λ (c : Created). Creates s c.1) (stack == 0)
                (λ _. Creates-put s k _ r (ground arith)) (λ _. Creates-put s k _ r (ground arith)))
        ])

Creates-Safe : {s s' : Sched} → Creates s s' → Safe s → Safe s'
Creates-Safe {s} {s'} c v = record {
  current_in = rw c.same_current v.current_in;
  current_runs = rw c.same_current (c.none_blocked s.current v.current_runs);
}

Creates-Stays :
    {s s' : Sched} (j : ℕ) → Creates s s' → state_of s j ≡ blocked → state_of s' j ≡ blocked
Creates-Stays {s} {s'} j c b = c.same_state j (ground arith) ∙ b

-- Whether `op` wakes task `j`, and whether any of `ops` does.
abbrev pub Spares : ℕ → Op → Type 0
Spares j (do_wake id) = id ≢ j
Spares j _ = Unit {0}

abbrev pub AllSpare : ℕ → List Op → Type 0
AllSpare j [] = Unit {0}
AllSpare j (op ∷ ops) = Spares j op × AllSpare j ops

module _ (l : Layout) where
  apply-Safe : (op : Op) (s : Sched) → Safe s → Safe (apply l op s)
  unfolding apply
  apply-Safe do_tick s v = tick-Safe l s v
  apply-Safe do_yield s v = yield-Safe l s v
  apply-Safe do_block s v = block-Safe l s v
  apply-Safe do_exit s v = exit-Safe l s v
  apply-Safe (do_wake id) s v = wake-Safe s id v
  apply-Safe (do_create st nm fn arg) s v = Creates-Safe (create-Creates l st nm fn arg s) v
  apply-Safe (do_create_user st nm at sp rsp) s v =
      Creates-Safe (create_user-Creates l st nm at sp rsp s) v
  apply-Safe (do_set_priority id prio) s v = set_priority-Safe s id prio v

  apply-Stays :
      (op : Op) (s : Sched) (j : ℕ)
      → Safe s
      → Spares j op
      → state_of s j ≡ blocked
      → state_of (apply l op s) j ≡ blocked
  unfolding apply
  apply-Stays do_tick s j v h b = tick-Stays l s j v b
  apply-Stays do_yield s j v h b = yield-Stays l s j v b
  apply-Stays do_block s j v h b = block-Stays l s j v b
  apply-Stays do_exit s j v h b = exit-Stays l s j v b
  apply-Stays (do_wake id) s j v h b = wake-Stays s id j h b
  apply-Stays (do_create st nm fn arg) s j v h b =
      Creates-Stays j (create-Creates l st nm fn arg s) b
  apply-Stays (do_create_user st nm at sp rsp) s j v h b =
      Creates-Stays j (create_user-Creates l st nm at sp rsp s) b
  apply-Stays (do_set_priority id prio) s j v h b = set_priority-Stays s id prio j b

  -- Over any sequence of ticks, yields, blocks, exits, wakes, creations and priority changes, from
  -- a scheduler whose current task is one of the table and not blocked, the current task stays
  -- such a task.
  pub run-Safe : (ops : List Op) (s : Sched) → Safe s → Safe (run l ops s)
  unfolding run
  run-Safe [] s v = v
  run-Safe (op ∷ ops) s v = run-Safe ops (apply l op s) (apply-Safe op s v)

  run-Stays :
      (ops : List Op) (s : Sched) (j : ℕ)
      → Safe s
      → AllSpare j ops
      → state_of s j ≡ blocked
      → state_of (run l ops s) j ≡ blocked
  unfolding run
  run-Stays [] s j v h b = b
  run-Stays (op ∷ ops) s j v h b =
      run-Stays ops (apply l op s) j (apply-Safe op s v) h.1 (apply-Stays op s j v h.0 b)

  -- A task that is blocked stays blocked and is never made current over any sequence of scheduler
  -- operations that does not wake it, from a scheduler whose current task is one of the table and
  -- not blocked.
  pub blocked_until_woken :
      (ops : List Op) (s : Sched) (j : ℕ)
      → Safe s
      → AllSpare j ops
      → state_of s j ≡ blocked
      → (state_of (run l ops s) j ≡ blocked) × ((run l ops s).current ≢ j)
  blocked_until_woken ops s j v h b =
      let stays = run-Stays ops s j v h b in
      (stays, λ e. (run-Safe ops s v).current_runs (rw e stays))
