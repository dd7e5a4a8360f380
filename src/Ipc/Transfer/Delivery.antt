-- ===== src/Ipc/Transfer/Delivery.antt =====
-- Messages are delivered in the order in which they were accepted, none lost and none twice,
-- however the rounds of senders and receivers and the scheduler's operations interleave.
use mathlib.Core.List.{append_assoc, append-nil}
use trait_os.Base.{◌≡◌, refl, sym, ap, ◌∙◌, arith, Option, none, some, List, []}
use trait_os.Task.Ops.{self, self_none}
use trait_os.Base.{if_ind, ◌==◌}
use trait_os.Base.{◌∷◌, ◌++◌}
use trait_os.Ipc.Fifo
use trait_os.Ipc.Fifo.{on_rc, on_rc_ind, Rc, ok, fail}
use trait_os.Ipc.WaitQueue
use trait_os.Ipc.Mailbox
use trait_os.Ipc.Mailbox.{Msg, Mailbox, queue_slots}
use trait_os.Ipc.Mailbox.Refine.{RingValid, contents, push_refines, pop_refines}
use trait_os.Ipc.Mailbox.Refine.{push-RingValid, pop-RingValid}
use trait_os.Ipc.Transfer.{Outcome, returns, waits, send_begin, park_sender, send_round}
use trait_os.Ipc.Transfer.{park_receiver, recv_end, recv_round}
use trait_os.Task.Table.{Sched, Layout}
use trait_os.Task.Run.{Op, apply}

-- A mailbox and the scheduler, with the messages whose send has returned 0 and those that receives
-- have handed out, oldest first.
pub record System : Type 0 where
  pub mailbox : Mailbox
  pub sched : Sched
  pub accepted : List Msg
  pub received : List Msg

abbrev log_popped : Option Msg → List Msg → List Msg
log_popped none ms = ms
log_popped (some m) ms = m ∷ ms

-- What the current task does: a round of a send or of a receive on the mailbox, or else an
-- operation of the scheduler.
pub data Event : Type 0 where
  send : Msg → Event
  recv : Event
  other : Op → Event

abbrev log_accepted : Outcome → Msg → List Msg → List Msg
log_accepted (returns ok) m ms = ms ++ (m ∷ [])
log_accepted _ m ms = ms

abbrev log_received : Option Msg → List Msg → List Msg
log_received none ms = ms
log_received (some m) ms = ms ++ (m ∷ [])

push-ring :
    {mb : Mailbox} (m : Msg)
    → RingValid mb
    → contents (Mailbox.push mb m).1
      ≡ on_rc (Mailbox.push mb m).0 (contents mb ++ (m ∷ [])) (contents mb)
unfolding Fifo.push
push-ring {mb} m v = ground (arith, push_refines m v)

pop-ring :
    {mb : Mailbox}
    → RingValid mb
    → log_popped (Mailbox.pop mb).0 (contents (Mailbox.pop mb).1) ≡ contents mb
pop-ring {mb} v = ap (λ p. log_popped p.0 p.1) (pop_refines v) ∙ rejoin (contents mb)
  where
    rejoin : (ms : List Msg) → log_popped (Fifo.pop ms).0 (Fifo.pop ms).1 ≡ ms
    rejoin [] = unfold Fifo.pop in refl
    rejoin (m ∷ ms) = unfold Fifo.pop in refl

module _ (l : Layout) where
  -- What a round that parks does to the ring (nothing) and to the log of accepted messages.
  record Parks (mb : Mailbox) (m : Msg) (r : Outcome × Mailbox × Sched) : Type 0 where
    same_ring : contents r.1 ≡ contents mb
    ring : RingValid r.1
    not_taken : (ms : List Msg) → log_accepted r.0 m ms ≡ ms

  park_sender-Parks :
      (mb : Mailbox) (m : Msg) (s : Sched) → RingValid mb → Parks mb m (park_sender l mb s)
  unfolding park_sender
  park_sender-Parks mb m s v =
      on_rc_ind (Parks mb m) (WaitQueue.push mb.wait_send (self s)).0
        (λ _. record {
          same_ring = refl;
          ring = record { head_in = v.head_in; count_in = v.count_in };
          not_taken = λ ms. refl;
        })
        (λ _. record { same_ring = refl; ring = v; not_taken = λ ms. refl })

  park_receiver-ring :
      (mb : Mailbox) (s : Sched)
      → RingValid mb
      → (contents (park_receiver l mb s).1 ≡ contents mb) × RingValid (park_receiver l mb s).1
  unfolding park_receiver
  park_receiver-ring mb s v =
      on_rc_ind (λ (r : Outcome × Mailbox × Sched). (contents r.1 ≡ contents mb) × RingValid r.1)
        (WaitQueue.push mb.wait_recv (self s)).0
        (λ _. (refl, record { head_in = v.head_in; count_in = v.count_in })) (λ _. (refl, v))

  -- What a round of a send does: the ring gains the message exactly if the round takes it.
  record Sends (mb : Mailbox) (m : Msg) (r : Outcome × Mailbox × Sched) : Type 0 where
    ring : RingValid r.1
    taken : contents r.1 ≡ log_accepted r.0 m (contents mb)

  send_round-Sends :
      (mb : Mailbox) (m : Msg) (s : Sched) → RingValid mb → Sends mb m (send_round l mb m s)
  unfolding send_round
  send_round-Sends mb m s v =
      on_rc_ind (Sends mb m) (Mailbox.push mb m).0
        (λ e.
          let u = push-RingValid m v in
          record {
            ring = record { head_in = u.head_in; count_in = u.count_in };
            taken = push-ring m v ∙ ap (λ rc. on_rc rc (contents mb ++ (m ∷ [])) (contents mb)) e;
          })
        (λ e.
          let p = park_sender-Parks (Mailbox.push mb m).1 m s (push-RingValid m v) in
          record {
            ring = p.ring;
            taken =
                p.same_ring
                ∙ push-ring m v
                ∙ ap (λ rc. on_rc rc (contents mb ++ (m ∷ [])) (contents mb)) e
                ∙ sym (p.not_taken (contents mb));
          })

  -- What a round of a receive does: the ring loses its oldest message exactly if it is handed out.
  record Receives (mb : Mailbox) (r : Option Msg × Outcome × Mailbox × Sched) : Type 0 where
    ring : RingValid r.2
    handed : log_popped r.0 (contents r.2) ≡ contents mb

  recv_end-Receives :
      (mb : Mailbox) (s : Sched) (o : Option Msg) (mb' : Mailbox)
      → RingValid mb'
      → log_popped o (contents mb') ≡ contents mb
      → Receives mb (recv_end l o mb' s)
  unfolding recv_end
  recv_end-Receives mb s none mb' v e =
      let (same, ring) = park_receiver-ring mb' s v in record { ring = ring; handed = same ∙ e }
  recv_end-Receives mb s (some m) mb' v e = record {
    ring = record { head_in = v.head_in; count_in = v.count_in };
    handed = e;
  }

  recv_round-Receives : (mb : Mailbox) (s : Sched) → RingValid mb → Receives mb (recv_round l mb s)
  unfolding recv_round
  recv_round-Receives mb s v =
      if_ind (Receives mb) (self s == self_none) (λ _. record { ring = v; handed = refl })
        (λ _.
          recv_end-Receives mb s (Mailbox.pop mb).0 (Mailbox.pop mb).1 (pop-RingValid v)
            (pop-ring v))

  unfoldable pub send_step : Option Msg → System → System
  send_step none y = y
  send_step (some m) y =
      let (o, mb, s) = send_round l y.mailbox m y.sched in
      record y { mailbox = mb; sched = s; accepted = log_accepted o m y.accepted }

  unfoldable pub recv_step : System → System
  recv_step y =
      let (out, o, mb, s) = recv_round l y.mailbox y.sched in
      record y { mailbox = mb; sched = s; received = log_received out y.received }

  unfoldable pub step : Event → System → System
  step (send m) y = send_step (send_begin y.sched m) y
  step recv y = recv_step y
  step (other op) y = record y { sched = apply l op y.sched }

  unfoldable pub run : List Event → System → System
  run [] y = y
  run (e ∷ es) y = run es (step e y)

  -- With `before` the messages that the mailbox held at first.
  record InOrder (before : List Msg) (y : System) : Type 0 where
    ring : RingValid y.mailbox
    order : y.received ++ contents y.mailbox ≡ before ++ y.accepted

  -- A message taken into the log is taken at its end.
  log_accepted-append :
      (o : Outcome) (m : Msg) (xs ys : List Msg)
      → log_accepted o m (xs ++ ys) ≡ xs ++ log_accepted o m ys
  log_accepted-append (returns ok) m xs ys = append_assoc xs ys (m ∷ [])
  log_accepted-append (returns fail) m xs ys = refl
  log_accepted-append (waits b) m xs ys = refl

  log_received-append :
      (o : Option Msg) (xs ys : List Msg) → log_received o xs ++ ys ≡ xs ++ log_popped o ys
  log_received-append none xs ys = refl
  log_received-append (some m) xs ys = append_assoc xs (m ∷ []) ys

  send_step-InOrder :
      (before : List Msg) (o : Option Msg) (y : System)
      → InOrder before y
      → InOrder before (send_step o y)
  unfolding send_step
  send_step-InOrder before none y v = v
  send_step-InOrder before (some m) y v =
      let r = send_round l y.mailbox m y.sched in
      let d = send_round-Sends y.mailbox m y.sched v.ring in
      record {
        ring = d.ring;
        order =
            ap (λ ms. y.received ++ ms) d.taken
            ∙ sym (log_accepted-append r.0 m y.received (contents y.mailbox))
            ∙ ap (log_accepted r.0 m) v.order
            ∙ log_accepted-append r.0 m before y.accepted;
      }

  recv_step-InOrder :
      (before : List Msg) (y : System) → InOrder before y → InOrder before (recv_step y)
  unfolding recv_step
  recv_step-InOrder before y v =
      let r = recv_round l y.mailbox y.sched in
      let d = recv_round-Receives y.mailbox y.sched v.ring in
      record {
        ring = d.ring;
        order =
            log_received-append r.0 y.received (contents r.2)
            ∙ ap (λ ms. y.received ++ ms) d.handed
            ∙ v.order;
      }

  step-InOrder :
      (before : List Msg) (e : Event) (y : System) → InOrder before y → InOrder before (step e y)
  unfolding step
  step-InOrder before (send m) y v = send_step-InOrder before (send_begin y.sched m) y v
  step-InOrder before recv y v = recv_step-InOrder before y v
  step-InOrder before (other op) y v = record { ring = v.ring; order = v.order }

  run-InOrder :
      (before : List Msg) (es : List Event) (y : System)
      → InOrder before y
      → InOrder before (run es y)
  unfolding run
  run-InOrder before [] y v = v
  run-InOrder before (e ∷ es) y v = run-InOrder before es (step e y) (step-InOrder before e y v)

  -- From a mailbox in range with empty logs, after any interleaving of rounds of sends and receives
  -- by any tasks with ticks, yields, blocks, wakes, exits, creations and priority changes: the
  -- messages that receives have handed out, followed by those still in the ring, are the messages
  -- that were in the ring at first followed by those whose sends returned 0, in that order.
  pub run-delivers :
      (es : List Event) (y : System)
      → RingValid y.mailbox
      → y.accepted ≡ []
      → y.received ≡ []
      → (run es y).received ++ contents (run es y).mailbox
        ≡ contents y.mailbox ++ (run es y).accepted
  run-delivers es y v a r =
      (run-InOrder (contents y.mailbox) es y (record {
        ring = v;
        order =
            ap (λ ms. ms ++ contents y.mailbox) r
            ∙ sym (ap (λ ms. contents y.mailbox ++ ms) a ∙ append-nil (contents y.mailbox));
      })).order
