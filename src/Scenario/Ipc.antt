-- ===== src/Scenario/Ipc.antt =====
-- Runs of the wait queue, the mailbox and the mutex of src/tipc_core.h and src/tipc.c.
use trait_os.Base.{if◌then◌else◌, ◌==◌}
use trait_os.Task.Ops.{self}
use trait_os.Base.{ℕ, ◌≡◌, refl, arith, none, some, List, [], ◌∷◌, ◌++◌}
use trait_os.Ipc.Fifo
use trait_os.Ipc.Fifo.{Op, put, get, stored, fetched, ok, fail}
use trait_os.Ipc.WaitQueue
use trait_os.Ipc.WaitQueue.{WaitQueue, wait_max}
use trait_os.Ipc.Mailbox
use trait_os.Ipc.Mailbox.{Msg, Mailbox, queue_slots}
use trait_os.Ipc.Mailbox.Refine.{run_refines_ring}
use trait_os.Ipc.Transfer.Delivery.{send, recv, run-delivers}
use trait_os.Ipc.Transfer.Delivery
use trait_os.Ipc.Mutex
use trait_os.Ipc.Mutex.{Mutex}
use trait_os.Ipc.Mutex.Exclusion.{lock, release, from_init, mutual_exclusion}
use trait_os.Ipc.Mutex.Exclusion
use trait_os.Scenario.Task.{layout, running}

-- Ids 3 and 4 wait, the second in slot 0.
abbrev wrapped : WaitQueue
wrapped = record { id = λ i. if i == 15 then 3 else 4; head = 15; n = 2 }

abbrev calls : List (Op ℕ)
calls = put 9 ∷ get ∷ get ∷ get ∷ get ∷ []

run-wrapped :
    WaitQueue.run wrapped calls
    ≡ stored ok ∷ fetched (some 3) ∷ fetched (some 4) ∷ fetched (some 9) ∷ fetched none ∷ []
unfolding WaitQueue.run WaitQueue.push WaitQueue.pop
run-wrapped = refl

abbrev message : ℕ → Msg
message n = record { sender = 1; len = 1; payload = n ∷ [] }

abbrev no_waiters : WaitQueue
no_waiters = record { id = λ i. 0; head = 0; n = 0 }

-- One message, in the last slot.
abbrev mailbox : Mailbox
mailbox = record {
  slot = λ i. message i;
  head = 7;
  count = 1;
  wait_send = no_waiters;
  wait_recv = no_waiters;
}

run_refines_ring_example :
    Mailbox.run mailbox (put (message 30) ∷ get ∷ get ∷ get ∷ [])
    ≡ Fifo.run queue_slots (message 7 ∷ []) (put (message 30) ∷ get ∷ get ∷ get ∷ [])
run_refines_ring_example = run_refines_ring (put (message 30) ∷ get ∷ get ∷ get ∷ []) (omega arith)

abbrev traffic : Delivery.System
traffic = record { mailbox = mailbox; sched = running; accepted = []; received = [] }

abbrev exchange : List Delivery.Event
exchange = send (message 31) ∷ recv ∷ send (message 32) ∷ recv ∷ []

run-delivers_example :
    (Delivery.run layout exchange traffic).received
      ++ Mailbox.Refine.contents (Delivery.run layout exchange traffic).mailbox
    ≡ (message 7 ∷ []) ++ (Delivery.run layout exchange traffic).accepted
run-delivers_example = run-delivers layout exchange traffic (omega arith) refl refl

abbrev mutex : Mutex
mutex = record { owner = 0; depth = 0; wait = no_waiters }

abbrev contest : List Exclusion.Event
contest = lock ∷ lock ∷ release ∷ []

held-contest : (from_init layout mutex running contest).held 1 ≡ 1
unfolding Exclusion.run Exclusion.step Mutex.lock_round Mutex.unlock Mutex.init WaitQueue.init self
held-contest = refl

abbrev locker : ℕ
locker = 1

mutual_exclusion_example :
    (locker ≡ locker)
    × (locker ≡ (from_init layout mutex running contest).mutex.owner)
    × ((from_init layout mutex running contest).held 1
        ≡ (from_init layout mutex running contest).mutex.depth)
mutual_exclusion_example =
    mutual_exclusion layout contest mutex running locker locker (omega arith)
      (omega (arith, held-contest)) (omega (arith, held-contest))
