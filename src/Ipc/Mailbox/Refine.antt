-- ===== src/Ipc/Mailbox/Refine.antt =====
-- A mailbox ring is the FIFO of the messages that it holds, at most eight, oldest first.
use trait_os.Base.{◌≤◌, ◌<◌, ◌≡◌, refl, ap₂, List, [], ◌∷◌, arith}
use trait_os.Base.Ring.{window, window_pos, window-update, length-window}
use trait_os.Ipc.Fifo
use trait_os.Ipc.Fifo.{Op, put, get, stored, fetched}
use trait_os.Base.{◌∙◌, ap}
use trait_os.Ipc.Mailbox.{Msg, Mailbox, queue_slots, init, push, pop, run}

pub record RingValid (mb : Mailbox) : Type 0 where
  pub head_in : mb.head < queue_slots
  pub count_in : mb.count ≤ queue_slots

abbrev pub contents : Mailbox → List Msg
contents mb = window queue_slots mb.slot mb.head mb.count

pub init-RingValid : (mb : Mailbox) → RingValid (init mb)
unfolding init
init-RingValid mb = omega arith

pub push-RingValid : {mb : Mailbox} (m : Msg) → RingValid mb → RingValid (push mb m).1
unfolding push
push-RingValid m v = ground arith

pub pop-RingValid : {mb : Mailbox} → RingValid mb → RingValid (pop mb).1
unfolding pop
pop-RingValid v = ground arith

pub push_refines :
    {mb : Mailbox} (m : Msg)
    → RingValid mb
    → let (rc, mb') = push mb m in (rc, contents mb') ≡ Fifo.push queue_slots (contents mb) m
unfolding push Fifo.push
push_refines {mb} m v = ground (
  arith,
  length-window queue_slots mb.slot mb.head mb.count,
  window-update queue_slots mb.slot m mb.count mb.head,
)

pub pop_refines :
    {mb : Mailbox}
    → RingValid mb
    → let (out, mb') = pop mb in (out, contents mb') ≡ Fifo.pop (contents mb)
unfolding pop Fifo.pop
pop_refines {mb} v = ground (arith, window_pos queue_slots mb.slot mb.head mb.count)

-- For every sequence of pushes and pops on a mailbox whose head and count are in range, each call
-- returns what the bounded FIFO of the messages in the ring returns: -1 exactly when eight
-- messages are stored or none is, and otherwise the oldest message.
pub run_refines_ring :
    (ops : List (Op Msg)) {mb : Mailbox}
    → RingValid mb
    → run mb ops ≡ Fifo.run queue_slots (contents mb) ops
unfolding run Fifo.run
run_refines_ring [] v = refl
run_refines_ring (put m ∷ ops) {mb} v =
    ap₂ (λ rc r. stored rc ∷ r) (ap (λ p. p.0) (push_refines m v))
      (run_refines_ring ops (push-RingValid m v)
        ∙ ap (λ q. Fifo.run queue_slots q ops) (ap (λ p. p.1) (push_refines m v)))
run_refines_ring (get ∷ ops) {mb} v =
    ap₂ (λ out r. fetched out ∷ r) (ap (λ p. p.0) (pop_refines v))
      (run_refines_ring ops (pop-RingValid v)
        ∙ ap (λ q. Fifo.run queue_slots q ops) (ap (λ p. p.1) (pop_refines v)))
