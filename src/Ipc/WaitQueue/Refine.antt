-- ===== src/Ipc/WaitQueue/Refine.antt =====
-- A wait queue is the FIFO of the task ids that it holds, at most sixteen, oldest first.
use trait_os.Base.{ℕ, ◌≤◌, ◌<◌, ◌≡◌, refl, List, [], ◌∷◌, arith}
use trait_os.Base.{◌∙◌, ap, ap₂, ◌++◌}
use trait_os.Ipc.Fifo.{stored, fetched}
use trait_os.Base.Ring.{window, window_pos, window-update, length-window}
use trait_os.Ipc.Fifo
use trait_os.Ipc.Fifo.{Op, put, get, Reply}
use trait_os.Ipc.WaitQueue.{WaitQueue, wait_max, no_task, init, push, pop, popped, run}

-- The ring's bounds: the head is an index, and at most `wait_max` ids wait.
pub record IsValid (q : WaitQueue) : Type 0 where
  pub head_in : q.head < wait_max
  pub n_in : q.n ≤ wait_max

abbrev pub contents : WaitQueue → List ℕ
contents q = window wait_max q.id q.head q.n

pub init-IsValid : (q : WaitQueue) → IsValid (init q)
unfolding init
init-IsValid q = omega arith

pub push-IsValid : {q : WaitQueue} (i : ℕ) → IsValid q → IsValid (push q i).1
unfolding push
push-IsValid i v = ground arith

pub pop-IsValid : {q : WaitQueue} → IsValid q → IsValid (pop q).1
unfolding pop
pop-IsValid v = ground arith

pub push_refines :
    {q : WaitQueue} (i : ℕ)
    → IsValid q
    → let (rc, q') = push q i in (rc, contents q') ≡ Fifo.push wait_max (contents q) i
unfolding push Fifo.push
push_refines {q} i v =
    ground (arith, length-window wait_max q.id q.head q.n, window-update wait_max q.id i q.n q.head)

-- `pop` hands out the oldest id, or `no_task` if none waits.
abbrev pub oldest : List ℕ → ℕ
oldest [] = no_task
oldest (i ∷ is) = i

abbrev pub rest : List ℕ → List ℕ
rest [] = []
rest (i ∷ is) = is

pub pop_refines :
    {q : WaitQueue}
    → IsValid q
    → let (w, q') = pop q in (w ≡ oldest (contents q)) × (contents q' ≡ rest (contents q))
unfolding pop
pop_refines {q} v = ground (arith, window_pos wait_max q.id q.head q.n)

-- Numbers that name a task, and not `no_task`.
abbrev pub AllIds : List ℕ → Type 0
AllIds [] = Unit {0}
AllIds (i ∷ is) = (i < no_task) × AllIds is

abbrev pub PutsIds : List (Op ℕ) → Type 0
PutsIds [] = Unit {0}
PutsIds (put i ∷ ops) = (i < no_task) × PutsIds ops
PutsIds (get ∷ ops) = PutsIds ops

AllIds-snoc : (is : List ℕ) (i : ℕ) → AllIds is → i < no_task → AllIds (is ++ (i ∷ []))
AllIds-snoc [] i a h = (h, tt)
AllIds-snoc (j ∷ is) i a h = (a.0, AllIds-snoc is i a.1 h)

AllIds-push : (is : List ℕ) (i : ℕ) → AllIds is → i < no_task → AllIds (Fifo.push wait_max is i).1
unfolding Fifo.push
AllIds-push is i a h = ground (arith, AllIds-snoc is i a h)

pop-oldest : (is : List ℕ) → AllIds is → Fifo.pop is ≡ (popped (oldest is), rest is)
unfolding Fifo.pop
pop-oldest [] a = refl
pop-oldest (i ∷ is) a = ground arith

AllIds-rest : (is : List ℕ) → AllIds is → AllIds (rest is)
AllIds-rest [] a = tt
AllIds-rest (i ∷ is) a = a.1

-- For every sequence of pushes and pops of task ids on a wait queue in range that holds task ids,
-- each call returns what the FIFO of at most sixteen ids returns: a push fails exactly when
-- sixteen tasks wait, and a pop returns the task that has waited longest, or `TIPC_NONE` exactly
-- when none waits.
pub run_refines_fifo :
    (ops : List (Op ℕ)) {q : WaitQueue}
    → IsValid q
    → AllIds (contents q)
    → PutsIds ops
    → run q ops ≡ Fifo.run wait_max (contents q) ops
unfolding run Fifo.run
run_refines_fifo [] v a h = refl
run_refines_fifo (put i ∷ ops) {q} v a h =
    ap₂ (λ rc r. stored rc ∷ r) (ap (λ p. p.0) (push_refines i v))
      (run_refines_fifo ops (push-IsValid i v)
          (rw (ap (λ p. p.1) (push_refines i v)) (AllIds-push (contents q) i a h.0)) h.1
        ∙ ap (λ q. Fifo.run wait_max q ops) (ap (λ p. p.1) (push_refines i v)))
run_refines_fifo (get ∷ ops) {q} v a h = rw (pop-oldest (contents q) a) (
    ap₂ (λ w r. fetched (popped w) ∷ r) (pop_refines v).0
      (run_refines_fifo ops (pop-IsValid v) (rw (pop_refines v).1 (AllIds-rest (contents q) a)) h
        ∙ ap (λ is. Fifo.run wait_max is ops) (pop_refines v).1))
