-- ===== src/Task/Run/Safe.antt =====
-- Who runs: the current task is one of the table and never a blocked one, and a blocked task stays
-- blocked until it is woken.
use trait_os.Base.{ℕ, ◌<◌, ◌≡◌, ◌≢◌, ◌⊎◌, inl, inr, refl, sym, ◌∙◌, ap, arith}
use trait_os.Base.{if_ind, ==_iff, false, Bool-cases, Option, none, some}
use trait_os.Base.{◌==◌, if◌then◌else◌, not}
use trait_os.Task.Pick.{State, ready, blocked, pick_index_ex}
use trait_os.Task.Pick.Best.{pick_lt, pick_Eligible}
use trait_os.Task.Table.{Context, no_context, entry, in_pick_switch, in_block, Sched, Layout}
use trait_os.Task.Table.{max_tasks}
use trait_os.Task.Switch.{index_or, pick_next, resume, switch_ctx, pick_switch}
use trait_os.Task.Ops.{Blocked, mark_blocked, wake, yield_cpu, block, exit, tick, set_priority}

abbrev pub state_of : Sched → ℕ → State
state_of s j = (s.tasks j).state

pub record Safe (s : Sched) : Type 0 where
  pub current_in : s.current < max_tasks
  pub current_runs : state_of s s.current ≢ blocked

-- `pick_next` stays on the current task or names a ready one of the table.
pub next_ready :
    (s : Sched)
    → s.current < max_tasks
    → (pick_next s < max_tasks) × ((pick_next s ≡ s.current) ⊎ (state_of s (pick_next s) ≡ ready))
unfolding pick_next
next_ready s h = go (pick_index_ex s.current st pr max_tasks ex) refl
  where
    st : ℕ → State
    st i = (s.tasks i).state

    pr : ℕ → ℕ
    pr i = (s.tasks i).priority

    ex : Option ℕ
    ex = if (s.tasks s.current).slice == 0 then some s.current else none

    go :
        (o : Option ℕ)
        → pick_index_ex s.current st pr max_tasks ex ≡ o
        → (index_or s.current o < max_tasks)
          × ((index_or s.current o ≡ s.current) ⊎ (state_of s (index_or s.current o) ≡ ready))
    go none e = (h, inl refl)
    go (some k) e = (
      pick_lt s.current st pr max_tasks ex k h e,
      inr (pick_Eligible s.current st pr max_tasks ex k h e).0,
    )

pub switch_ctx-state :
    (c : Context) (n j : ℕ) (s : Sched) → state_of (switch_ctx c n s) j ≡ state_of s j
unfolding switch_ctx
switch_ctx-state c n j s = ground arith

module _ (l : Layout) where
  pub resume-tasks : (c : Context) (s : Sched) → (resume l c s).tasks ≡ s.tasks
  unfolding resume
  resume-tasks no_context s = refl
  resume-tasks (entry f) s = refl
  resume-tasks (in_pick_switch n) s = ground arith
  resume-tasks in_block s = refl

  resume-current : (c : Context) (s : Sched) → (resume l c s).current ≡ s.current
  unfolding resume
  resume-current no_context s = refl
  resume-current (entry f) s = refl
  resume-current (in_pick_switch n) s = ground arith
  resume-current in_block s = refl

  -- Resuming after a switch leaves every task's state, and the task switched to as current.
  pub resumed-state :
      (c d : Context) (n j : ℕ) (s : Sched)
      → state_of (resume l c (switch_ctx d n s)) j ≡ state_of s j
  resumed-state c d n j s =
      ap (λ f. (f j).state) (resume-tasks c (switch_ctx d n s)) ∙ switch_ctx-state d n j s

  pub resumed-current :
      (c d : Context) (n : ℕ) (s : Sched) → (resume l c (switch_ctx d n s)).current ≡ n
  unfolding switch_ctx
  resumed-current c d n s = resume-current c (unfold switch_ctx in switch_ctx d n s)

  pub pick_switch-state : (s : Sched) (j : ℕ) → state_of (pick_switch l s) j ≡ state_of s j
  unfolding pick_switch
  pick_switch-state s j = elim (Bool-cases (pick_next s == s.current)) [
    | inl y ↦ rw y refl
    | inr n ↦ rw n (resumed-state _ _ (pick_next s) j _ ∙ ground arith)
  ]

  pub pick_switch-current : (s : Sched) → (pick_switch l s).current ≡ pick_next s
  unfolding pick_switch
  pick_switch-current s = elim (Bool-cases (pick_next s == s.current)) [
    | inl y ↦ rw y (sym ((==_iff _ _).0 y))
    | inr n ↦ rw n (resumed-current _ _ (pick_next s) _)
  ]

  pub switched-Safe :
      (c d : Context) (n : ℕ) (s : Sched)
      → n < max_tasks
      → state_of s n ≢ blocked
      → Safe (resume l c (switch_ctx d n s))
  switched-Safe c d n s h b = record {
    current_in = rw (resumed-current c d n s) h;
    current_runs = rw (resumed-current c d n s) (rw (resumed-state c d n n s) b);
  }

  pub pick_switch-Safe :
      (s : Sched) → s.current < max_tasks → state_of s s.current ≢ blocked → Safe (pick_switch l s)
  pick_switch-Safe s h b = record {
    current_in = rw (pick_switch-current s) (next_ready s h).0;
    current_runs = rw (pick_switch-current s) (
        rw (pick_switch-state s (pick_next s))
          (elim (next_ready s h).1 [ inl e ↦ rw e b | inr e ↦ λ q. cc ]));
  }

  pub yield-Safe : (s : Sched) → Safe s → Safe (yield_cpu l s)
  unfolding yield_cpu
  yield-Safe s v =
      if_ind Safe s.scheduler_ready (λ _. pick_switch-Safe s v.current_in v.current_runs) (λ _. v)

  pub exit-Safe : (s : Sched) → Safe s → Safe (exit l s)
  unfolding exit
  exit-Safe s v = pick_switch-Safe _ v.current_in (ground arith)

  pub tick-Safe : (s : Sched) → Safe s → Safe (tick l s)
  unfolding tick
  tick-Safe s v =
      if_ind Safe s.scheduler_ready (λ _. pick_switch-Safe _ v.current_in (ground arith)) (λ _. v)

  -- A task picked in place of a blocked current one is ready.
  block_next :
      (s : Sched)
      → s.current < max_tasks
      → (pick_next (mark_blocked s) == s.current) ≡ false
      → state_of (mark_blocked s) (pick_next (mark_blocked s)) ≢ blocked
  unfolding mark_blocked
  block_next s h n = elim (next_ready (unfold mark_blocked in mark_blocked s) h).1 [
    | inl e ↦ absurd (ground arith)
    | inr e ↦ λ q. cc
  ]

  pub block-Safe : (s : Sched) → Safe s → Safe (block l s).1
  unfolding block
  block-Safe s v =
      if_ind (λ (r : Blocked × Sched). Safe r.1) (not s.scheduler_ready) (λ _. v)
        (λ _.
          if_ind (λ (r : Blocked × Sched). Safe r.1) (pick_next (mark_blocked s) == s.current)
            (λ y. record { current_in = v.current_in; current_runs = ground arith })
            (λ n.
              switched-Safe _ in_block (pick_next (mark_blocked s)) (mark_blocked s)
                (next_ready (mark_blocked s) v.current_in).0 (block_next s v.current_in n)))

pub wake-Safe : (s : Sched) (id : ℕ) → Safe s → Safe (wake s id)
unfolding wake
wake-Safe s id v = ground arith

pub set_priority-Safe : (s : Sched) (id prio : ℕ) → Safe s → Safe (set_priority s id prio)
unfolding set_priority
set_priority-Safe s id prio v = ground arith
