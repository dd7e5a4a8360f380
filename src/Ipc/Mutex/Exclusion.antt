-- ===== src/Ipc/Mutex/Exclusion.antt =====
-- At most one task holds a mutex, however the rounds of lockers and the unlocks interleave.
use trait_os.Base.{ℕ, ◌+◌, ◌-◌, ◌%◌, ◌^◌, ◌≤◌, ◌<◌, ◌≡◌, ◌≢◌, refl, sym}
use trait_os.Base.{◌∙◌, arith, List, [], ◌∷◌, ◌==◌, if◌then◌else◌, not, length, if_ind}
use trait_os.Base.Update.{update}
use trait_os.Ipc.Fifo.{Rc, ok, fail, on_rc_ind}
use trait_os.Ipc.WaitQueue
use trait_os.Ipc.WaitQueue.{WaitQueue, no_task}
use trait_os.Ipc.Transfer.{Outcome, returns}
use trait_os.Ipc.Mutex.{Mutex, init, park_locker, lock_round, unlock}
use trait_os.Task.Table.{Sched, Layout}
use trait_os.Task.Ops.{self, self_none}
use trait_os.Task.Run.{Op, apply}

-- A mutex and the scheduler, with the number of locks that each task has been granted and not yet
-- released by an unlock that returned 0.
pub record System : Type 0 where
  pub mutex : Mutex
  pub sched : Sched
  pub held : ℕ → ℕ

-- What the current task does: a round of a lock, an unlock, or an operation of the scheduler.
pub data Event : Type 0 where
  lock release : Event
  other : Op → Event

-- The account after a lock by `t` that ended in `o`, and after an unlock by `t` that returned `rc`.
abbrev grant : Outcome → ℕ → (ℕ → ℕ) → ℕ → ℕ
grant (returns ok) t held = update held t (held t + 1)
grant _ t held = held

abbrev give_back : Rc → ℕ → (ℕ → ℕ) → ℕ → ℕ
give_back ok t held = update held t (held t - 1)
give_back fail t held = held

-- The account and the mutex agree: a free mutex is held by nobody, and an owned one by its owner
-- alone, as often as its depth says.
record Agree (m : Mutex) (held : ℕ → ℕ) : Type 0 where
  only_owner : (t : ℕ) → t ≢ m.owner → held t ≡ 0
  owner_held : held m.owner ≡ (if m.owner == no_task then 0 else m.depth)
  owned_deep : m.owner ≢ no_task → 0 < m.depth

module _ (l : Layout) where
  unfoldable pub step : Event → System → System
  step lock y =
      let (o, m, s) = lock_round l y.mutex y.sched in
      record y { mutex = m; sched = s; held = grant o (self y.sched) y.held }
  step release y =
      let (rc, m, s) = unlock y.mutex y.sched in
      record y { mutex = m; sched = s; held = give_back rc (self y.sched) y.held }
  step (other op) y = record y { sched = apply l op y.sched }

  unfoldable pub run : List Event → System → System
  run [] y = y
  run (e ∷ es) y = run es (step e y)

  record Locks (m : Mutex) (t : ℕ) (held : ℕ → ℕ) (r : Outcome × Mutex × Sched) : Type 0 where
    agrees : Agree r.1 (grant r.0 t held)
    deeper : r.1.depth ≤ m.depth + 1

  park_locker-Locks :
      (m : Mutex) (s : Sched) (held : ℕ → ℕ)
      → Agree m held
      → Locks m (self s) held (park_locker l m s)
  unfolding park_locker
  park_locker-Locks m s held a =
      on_rc_ind (Locks m (self s) held) (WaitQueue.push m.wait (self s)).0
        (λ _. record {
          agrees = record {
            only_owner = a.only_owner;
            owner_held = a.owner_held;
            owned_deep = a.owned_deep;
          };
          deeper = omega arith;
        })
        (λ _. record { agrees = a; deeper = omega arith })

  lock_round-Locks :
      (m : Mutex) (s : Sched) (held : ℕ → ℕ)
      → m.depth + 1 < 2 ^ 32
      → Agree m held
      → Locks m (self s) held (lock_round l m s)
  unfolding lock_round
  lock_round-Locks m s held d a =
      if_ind (Locks m (self s) held) (self s == self_none)
        (λ _. record { agrees = a; deeper = omega arith })
        (λ known.
          if_ind (Locks m (self s) held) (m.owner == no_task)
            (λ free. record {
              agrees = record {
                only_owner = λ t ne. ground (arith, a.only_owner t);
                owner_held = ground (arith, a.only_owner (self s), a.owner_held);
                owned_deep = λ _. omega arith;
              };
              deeper = omega arith;
            })
            (λ owned.
              if_ind (Locks m (self s) held) (m.owner == self s)
                (λ own. record {
                  agrees = record {
                    only_owner = λ t ne. ground (arith, a.only_owner t);
                    owner_held = ground (arith, a.only_owner (self s), a.owner_held);
                    owned_deep = λ _. omega arith;
                  };
                  deeper = omega arith;
                })
                (λ _. park_locker-Locks m s held a)))

  record Unlocks (m : Mutex) (t : ℕ) (held : ℕ → ℕ) (r : Rc × Mutex × Sched) : Type 0 where
    agrees : Agree r.1 (give_back r.0 t held)
    deeper : r.1.depth ≤ m.depth + 1

  unlock-Unlocks :
      (m : Mutex) (s : Sched) (held : ℕ → ℕ)
      → m.depth + 1 < 2 ^ 32
      → Agree m held
      → Unlocks m (self s) held (unlock m s)
  unfolding unlock
  unlock-Unlocks m s held d a =
      if_ind (Unlocks m (self s) held) (self s == self_none)
        (λ _. record { agrees = a; deeper = omega arith })
        (λ known.
          if_ind (Unlocks m (self s) held) (not (m.owner == self s))
            (λ _. record { agrees = a; deeper = omega arith })
            (λ own.
              if_ind (Unlocks m (self s) held) ((m.depth + 2 ^ 32 - 1) % 2 ^ 32 == 0)
                (λ last. record {
                  agrees = record {
                    only_owner = λ t ne. ground (arith, a.only_owner t, a.owner_held);
                    owner_held = ground (arith, a.only_owner no_task, a.owner_held);
                    owned_deep = λ ne. ground (arith, a.owned_deep);
                  };
                  deeper = ground (arith, a.owned_deep);
                })
                (λ more. record {
                  agrees = record {
                    only_owner = λ t ne. ground (arith, a.only_owner t, a.owner_held);
                    owner_held = ground (arith, a.only_owner no_task, a.owner_held);
                    owned_deep = λ ne. ground (arith, a.owned_deep);
                  };
                  deeper = ground (arith, a.owned_deep);
                })))

  step-Agree :
      (e : Event) (y : System)
      → y.mutex.depth + 1 < 2 ^ 32
      → Agree y.mutex y.held
      → Agree (step e y).mutex (step e y).held × ((step e y).mutex.depth ≤ y.mutex.depth + 1)
  unfolding step
  step-Agree lock y d a =
      let r = lock_round-Locks y.mutex y.sched y.held d a in (r.agrees, r.deeper)
  step-Agree release y d a =
      let r = unlock-Unlocks y.mutex y.sched y.held d a in (r.agrees, r.deeper)
  step-Agree (other op) y d a = (a, omega arith)

  run-Agree :
      (es : List Event) (y : System)
      → y.mutex.depth + length es < 2 ^ 32
      → Agree y.mutex y.held
      → Agree (run es y).mutex (run es y).held
  unfolding run
  run-Agree [] y d a = a
  run-Agree (e ∷ es) y d a =
      let (a', d') = step-Agree e y (omega arith) a in run-Agree es (step e y) (omega arith) a'

-- After `init`, nobody holds the mutex.
init-Agree : (m : Mutex) → Agree (init m) (λ t. 0)
unfolding init
init-Agree m = record {
  only_owner = λ t ne. refl;
  owner_held = refl;
  owned_deep = λ ne. absurd (ne refl);
}

-- A task that holds the mutex is its owner.
Agree-holder :
    (m : Mutex) (held : ℕ → ℕ) (t : ℕ)
    → Agree m held
    → 0 < held t
    → (t ≡ m.owner) × (held t ≡ m.depth)
Agree-holder m held t a p =
    (ground (arith, a.only_owner t), ground (arith, a.only_owner t, a.owner_held))

-- The events `es` on a mutex just initialised, which nobody holds.
abbrev pub from_init : Layout → Mutex → Sched → List Event → System
from_init l m s es = run l es (record { mutex = init m; sched = s; held = λ i. 0 })

-- From a mutex just initialised, after any interleaving of fewer than 2^32 rounds of locks,
-- unlocks and scheduler operations by any tasks: two tasks that both hold it are one task, and a
-- task that holds it is its owner, with as many locks as the recursion depth.
pub mutual_exclusion :
    (l : Layout) (es : List Event) (m : Mutex) (s : Sched) (t u : ℕ)
    → length es < 2 ^ 32
    → 0 < (from_init l m s es).held t
    → 0 < (from_init l m s es).held u
    → (t ≡ u)
      × (t ≡ (from_init l m s es).mutex.owner)
      × ((from_init l m s es).held t ≡ (from_init l m s es).mutex.depth)
mutual_exclusion l es m s t u n p q =
    let y = from_init l m s es in
    let a : Agree y.mutex y.held = run-Agree l es _ (unfold init in omega arith) (init-Agree m) in
    let (ht, dt) = Agree-holder y.mutex y.held t a p in
    let (hu, du) = Agree-holder y.mutex y.held u a q in (ht ∙ sym hu, ht, dt)
