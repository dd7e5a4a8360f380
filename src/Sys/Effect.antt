-- ===== src/Sys/Effect.antt =====
-- src/tsys.c: which entries of the table of IPC objects a call changes, and what it puts there.
use trait_os.Base.{ℕ, ◌+◌, ◌%◌, ◌≡◌, ◌⊎◌, inl, inr, refl, sym, ap, ◌∙◌, subst}
use trait_os.Base.{Option, none, some, leb, ◌==◌, if_ind}
use trait_os.Base.Update.{update, update_self, update_ne}
use native.Mathlib.Decide.{ℕ_discrete}
use trait_os.Ipc.Fifo.{Rc, on_rc_ind}
use trait_os.Ipc.Mailbox.{Msg, Mailbox}
use trait_os.Ipc.Mailbox
use trait_os.Ipc.WaitQueue
use trait_os.Ipc.WaitQueue.{no_task}
use trait_os.Ipc.Mutex.{mutex_init, lock_round, unlock}
use trait_os.Ipc.Transfer.{
  Outcome, mailbox_init, recv_round, send_round, park_sender, park_receiver, recv_end, send_begin,
}
use trait_os.Ipc.Transfer as Transfer
use trait_os.Keyboard.{getchar}
use trait_os.Task.Table.{Layout, Sched}
use trait_os.Task.Ops.{self, self_none}
use trait_os.Sys.State.{
  max_obj, obj_free, obj_mb, obj_mutex, Entry, Kernel, Wait, sending, receiving, locking, Step,
  returns, after,
}
use trait_os.Sys.Calls.{
  mb_init, mutex_init_at, put_mb, put_mtx, round_end, deliver, send_on, recv_on, lock_on, unlock_on,
  early, sleep_on, take_key, read_on,
}
use trait_os.Sys.Objects.{Found}

-- The slots of a mailbox hold what they held, or a message of the task `who`.
abbrev pub SlotsFrom : ℕ → Mailbox → Mailbox → Type 0
SlotsFrom who mb mb' = (s : ℕ) → (mb'.slot s ≡ mb.slot s) ⊎ ((mb'.slot s).sender ≡ who)

-- A round changes no entry, or one, where it puts a new object if the entry was free, or keeps the
-- entry's type if the call names it.
abbrev pub Effect : ℕ → ℕ → Kernel → Step → Type 0
Effect target who k s =
    ((after s).table ≡ k.table)
    ⊎ ((i : ℕ) × (e : Entry) × ((after s).table ≡ update k.table i e)
        × (((k.table i).type ≡ obj_free) ⊎ ((i ≡ target) × (e.type ≡ (k.table i).type)))
        × SlotsFrom who (k.table i).mb e.mb)

round_end_table : (w : Wait) (o : Outcome) (k : Kernel) → (after (round_end w o k)).table ≡ k.table
unfolding round_end
round_end_table w (Transfer.returns rc) k = refl
round_end_table w (Transfer.waits b) k = refl

deliver_table : (a : ℕ) (o : Option Msg) (k : Kernel) → (deliver a o k).table ≡ k.table
unfolding deliver
deliver_table a none k = refl
deliver_table a (some m) k = refl

-- What was put in the ring of `mb`, a message of the task `who`.
push_slots :
    (who : ℕ) (mb : Mailbox) (m : Msg) → m.sender ≡ who → SlotsFrom who mb (Mailbox.push mb m).1
unfolding Mailbox.push
push_slots who mb m e =
    if_ind (λ (x : Rc × Mailbox). SlotsFrom who mb x.1) (leb 8 mb.count) (λ t s. inl refl)
      λ t s.
        let at = (mb.head + mb.count) % 8 in
        elim (ℕ_discrete at s) [
          | yes p ↦ inr (
              subst (λ j. (update mb.slot at m j).sender ≡ who) p
                (ap (λ (x : Msg). x.sender) (update_self mb.slot at m) ∙ e))
          | no p ↦ inl (update_ne mb.slot m p)
        ]

module _ (l : Layout) where
  park_sender_slot : (mb : Mailbox) (s : Sched) → (park_sender l mb s).1.slot ≡ mb.slot
  unfolding park_sender
  park_sender_slot mb s =
      on_rc_ind (λ (x : Outcome × Mailbox × Sched). x.1.slot ≡ mb.slot)
        (WaitQueue.push mb.wait_send (self s)).0 (λ e. refl) (λ e. refl)

  park_receiver_slot : (mb : Mailbox) (s : Sched) → (park_receiver l mb s).1.slot ≡ mb.slot
  unfolding park_receiver
  park_receiver_slot mb s =
      on_rc_ind (λ (x : Outcome × Mailbox × Sched). x.1.slot ≡ mb.slot)
        (WaitQueue.push mb.wait_recv (self s)).0 (λ e. refl) (λ e. refl)

  send_round_slot :
      (mb : Mailbox) (m : Msg) (s : Sched)
      → (send_round l mb m s).1.slot ≡ (Mailbox.push mb m).1.slot
  unfolding send_round
  send_round_slot mb m s =
      on_rc_ind (λ (x : Outcome × Mailbox × Sched). x.1.slot ≡ (Mailbox.push mb m).1.slot)
        (Mailbox.push mb m).0 (λ e. refl) (λ e. park_sender_slot (Mailbox.push mb m).1 s)

  pop_slot : (mb : Mailbox) → (Mailbox.pop mb).1.slot ≡ mb.slot
  unfolding Mailbox.pop
  pop_slot mb =
      if_ind (λ (x : Option Msg × Mailbox). x.1.slot ≡ mb.slot) (mb.count == 0) (λ e. refl)
        (λ e. refl)

  recv_end_slot : (o : Option Msg) (mb : Mailbox) (s : Sched) → (recv_end l o mb s).2.slot ≡ mb.slot
  unfolding recv_end
  recv_end_slot none mb s = park_receiver_slot mb s
  recv_end_slot (some m) mb s = refl

  recv_round_slot : (mb : Mailbox) (s : Sched) → (recv_round l mb s).2.slot ≡ mb.slot
  unfolding recv_round
  recv_round_slot mb s =
      if_ind (λ (x : Option Msg × Outcome × Mailbox × Sched). x.2.slot ≡ mb.slot)
        (self s == self_none) (λ e. refl)
        λ e. recv_end_slot (Mailbox.pop mb).0 (Mailbox.pop mb).1 s ∙ pop_slot mb

  module _ (target who : ℕ) (k : Kernel) where
    still : (s : Step) → (after s).table ≡ k.table → Effect target who k s
    still s e = inl e

    pub send-Effect : (m : Msg) → m.sender ≡ who → Effect target who k (send_on l target m k)
    unfolding send_on
    send-Effect m e =
        let mb = (k.table target).mb in
        let out = send_round l mb m k.sched in
        inr (
          target,
          record (k.table target) { mb = out.1 },
          round_end_table (sending target m) out.0 (put_mb k target out.1 out.2),
          inr (refl, refl),
          λ s.
              subst (λ f. (f s ≡ mb.slot s) ⊎ ((f s).sender ≡ who))
                (sym (send_round_slot mb m k.sched)) (push_slots who mb m e s),
        )

    pub recv-Effect : (a : ℕ) → Effect target who k (recv_on l target a k)
    unfolding recv_on
    recv-Effect a =
        let mb = (k.table target).mb in
        let out = recv_round l mb k.sched in
        let k' = put_mb k target out.2 out.3 in
        inr (
          target,
          record (k.table target) { mb = out.2 },
          round_end_table (receiving target a) out.1 (deliver a out.0 k')
              ∙ deliver_table a out.0 k',
          inr (refl, refl),
          λ s. inl (ap (λ (f : ℕ → Msg). f s) (recv_round_slot mb k.sched)),
        )

    pub lock-Effect : Effect target who k (lock_on l target k)
    unfolding lock_on
    lock-Effect =
        let out = lock_round l (k.table target).mtx k.sched in
        inr (
          target,
          record (k.table target) { mtx = out.1 },
          round_end_table (locking target) out.0 (put_mtx k target out.1 out.2),
          inr (refl, refl),
          λ s. inl refl,
        )

    pub unlock-Effect : Effect target who k (unlock_on l target k)
    unfolding unlock_on
    unlock-Effect =
        let out = unlock (k.table target).mtx k.sched in
        inr (target, record (k.table target) { mtx = out.1 }, refl, inr (refl, refl), λ s. inl refl)

    pub mb_init-Effect :
        (o : Option ℕ) → Found k.table max_obj 0 o → Effect target who k (mb_init o k)
    unfolding mb_init mailbox_init Mailbox.init
    mb_init-Effect none f = inl refl
    mb_init-Effect (some i) f = inr (
      i,
      record (k.table i) { type = obj_mb; mb = (mailbox_init (k.table i).mb).1 },
      refl,
      inl f.2,
      λ s. inl refl,
    )

    pub mutex_init-Effect :
        (o : Option ℕ) → Found k.table max_obj 0 o → Effect target who k (mutex_init_at o k)
    unfolding mutex_init_at mutex_init
    mutex_init-Effect none f = inl refl
    mutex_init-Effect (some i) f = inr (
      i,
      record (k.table i) { type = obj_mutex; mtx = (mutex_init (k.table i).mtx).1 },
      refl,
      inl f.2,
      λ s. inl refl,
    )

    pub sleep-Effect : (until : ℕ) → Effect target who k (sleep_on l until k)
    unfolding sleep_on
    sleep-Effect until =
        if_ind (Effect target who k) (early until k.ticks) {y = returns 0 k} (λ e. inl refl)
          λ e. inl refl

    key-Effect :
        (a : ℕ) (o : Option ℕ) (k' : Kernel)
        → k'.table ≡ k.table
        → Effect target who k (take_key l a o k')
    unfolding take_key
    key-Effect a none k' e = inl e
    key-Effect a (some ch) k' e =
        if_ind (Effect target who k) (leb 128 ch) {x = returns 0 k'} (λ t. inl e) (λ t. inl e)

    pub read-Effect : (a : ℕ) → Effect target who k (read_on l a k)
    unfolding read_on
    read-Effect a =
        key-Effect a (getchar k.keyboard).0 (record k { keyboard = (getchar k.keyboard).1 }) refl
