-- ===== src/Sys/Entries.antt =====
-- src/tsys.c: what `syscall_handler` and the rounds after it do to the IPC objects of others.
use trait_os.Base.{ℕ, ◌+◌, ◌%◌, ◌^◌, ◌≡◌, ◌≢◌, inl, inr, refl, sym, ap, ◌∙◌, subst}
use trait_os.Base.{Option, none, some, if_ind}
use trait_os.Base.{arith}
use trait_os.Base.Update.{update_self, update_ne}
use native.Mathlib.Decide.{ℕ_discrete}
use trait_os.Ipc.Mailbox.{Msg}
use trait_os.Ipc.Transfer.{send_begin}
use trait_os.Task.Table.{Layout, Sched}
use trait_os.Task.Ops.{self, self_none}
use trait_os.Sys.State.{
  max_obj, obj_free, Entry, Kernel, Registers, failure, negative, Wait, sending, receiving, locking,
  sleeping, reading, Step, returns, after, msg_at,
}
use trait_os.Sys.Calls.{
  first_free, go_on, stamped, sys_write, sys_sleep, sys_mb_send, sys_mb_recv, sys_mutex_lock,
  sys_mutex_unlock, sys_read, write_refused, read_refused, mb_refused, mutex_refused, handler,
}
use trait_os.Sys.Cases.{Calls, handler_cases}
use trait_os.Sys.Objects.{first_free-Found}
use trait_os.Sys.Effect.{
  SlotsFrom, Effect, send-Effect, recv-Effect, lock-Effect, unlock-Effect, mb_init-Effect,
  mutex_init-Effect, sleep-Effect, read-Effect,
}

send_begin_sender : (s : Sched) (m m' : Msg) → send_begin s m ≡ some m' → m'.sender ≡ self s
unfolding send_begin
send_begin_sender s m m' h = ground arith

module _ (l : Layout) (r : Registers) (k : Kernel) where
  abbrev Does : Step → Type 0
  Does s = Effect r.rdi (self k.sched) k s

  refuses : Does (returns failure k)
  refuses = inl refl

  stamps :
      (o : Option Msg)
      → ((m : Msg) → o ≡ some m → m.sender ≡ self k.sched)
      → Does (stamped l o r.rdi k)
  unfolding stamped
  stamps none f = refuses
  stamps (some m) f = send-Effect l r.rdi (self k.sched) k m (f m refl)

  sends : Does (sys_mb_send l r k)
  unfolding sys_mb_send
  sends =
      if_ind Does (mb_refused r k) (λ _. refuses)
        λ _.
          let read = record (msg_at k.user r.rsi) { sender = self k.sched } in
          stamps (send_begin k.sched read) (send_begin_sender k.sched read)

  Calls-Do : Calls Does l r k
  unfolding sys_write sys_sleep sys_mb_recv sys_mutex_lock sys_mutex_unlock sys_read
  Calls-Do =
      let who = self k.sched in
      let found = first_free-Found k.table max_obj 0 in
      record {
        quiet = λ v. inl refl;
        on_write = λ e. if_ind Does (write_refused r k) (λ _. refuses) (λ _. inl refl);
        on_exit = λ e. inl refl;
        on_yield = λ e. inl refl;
        on_sleep = λ e.
            if_ind Does (negative r.rdi) (λ _. refuses)
              (λ _. sleep-Effect l r.rdi who k ((k.ticks + r.rdi) % 2 ^ 64));
        on_mb_init = λ e. mb_init-Effect l r.rdi who k (first_free k.table max_obj 0) found;
        on_mb_send = λ e. sends;
        on_mb_recv =
            λ e. if_ind Does (mb_refused r k) (λ _. refuses) (λ _. recv-Effect l r.rdi who k r.rsi);
        on_mutex_init = λ e. mutex_init-Effect l r.rdi who k (first_free k.table max_obj 0) found;
        on_mutex_lock =
            λ e. if_ind Does (mutex_refused r k) (λ _. refuses) (λ _. lock-Effect l r.rdi who k);
        on_mutex_unlock =
            λ e. if_ind Does (mutex_refused r k) (λ _. refuses) (λ _. unlock-Effect l r.rdi who k);
        on_read = λ e.
            if_ind Does (read_refused r k) (λ _. refuses) (λ _. read-Effect l r.rdi who k r.rsi);
      }

  handler-Effect : Effect r.rdi (self k.sched) k (handler l r k)
  handler-Effect = handler_cases Does l r k Calls-Do

-- An entry in use keeps its type, and stays as it is unless it is the one that the call names. Every
-- slot of a mailbox holds what it held, or a message of the task `who`.
abbrev pub Keeps : ℕ → ℕ → Kernel → Kernel → Type 0
Keeps target who k k' =
    ((j : ℕ)
      → (k.table j).type ≢ obj_free
      → ((k'.table j).type ≡ (k.table j).type) × (j ≢ target → k'.table j ≡ k.table j))
    × ((j : ℕ) → SlotsFrom who (k.table j).mb (k'.table j).mb)

Effect-Keeps :
    (target who : ℕ) (k : Kernel) (s : Step) → Effect target who k s → Keeps target who k (after s)
Effect-Keeps target who k s (inl e) = (
  (λ j used. (ap (λ (t : ℕ → Entry). (t j).type) e, λ ne. ap (λ (t : ℕ → Entry). t j) e)),
  (λ j n. inl (ap (λ (t : ℕ → Entry). (t j).mb.slot n) e)),
)
Effect-Keeps target who k s (inr (i, x, e, cause, slots)) = (types, filled)
  where
    there : (after s).table i ≡ x
    there = ap (λ (t : ℕ → Entry). t i) e ∙ update_self k.table i x

    at_entry :
        (k.table i).type ≢ obj_free
        → (((after s).table i).type ≡ (k.table i).type)
          × (i ≢ target → (after s).table i ≡ k.table i)
    at_entry used = elim cause [
      | inl free ↦ absurd (used free)
      | inr named ↦ (ap (λ (y : Entry). y.type) there ∙ named.1, λ ne. absurd (ne named.0))
    ]

    types :
        (j : ℕ)
        → (k.table j).type ≢ obj_free
        → (((after s).table j).type ≡ (k.table j).type)
          × (j ≢ target → (after s).table j ≡ k.table j)
    types j used = elim (ℕ_discrete i j) [
      | yes p ↦
          subst
            (λ q.
              (k.table q).type ≢ obj_free
              → (((after s).table q).type ≡ (k.table q).type)
                × (q ≢ target → (after s).table q ≡ k.table q))
            p at_entry used
      | no p ↦
          let old : (after s).table j ≡ k.table j =
            ap (λ (t : ℕ → Entry). t j) e ∙ update_ne k.table x p in
          (ap (λ (y : Entry). y.type) old, λ ne. old)
    ]

    filled : (j : ℕ) → SlotsFrom who (k.table j).mb ((after s).table j).mb
    filled j = elim (ℕ_discrete i j) [
      | yes p ↦
          subst (λ q. SlotsFrom who (k.table q).mb ((after s).table q).mb) p
            (subst (λ (y : Entry). SlotsFrom who (k.table i).mb y.mb) (sym there) slots)
      | no p ↦ λ n. inl (
          ap (λ (t : ℕ → Entry). (t j).mb.slot n) e
          ∙ ap (λ (y : Entry). y.mb.slot n) (update_ne k.table x p))
    ]

-- Whatever the registers hold, at the end of the first round of a call: an IPC object that was in use
-- keeps its type, and stays exactly as it was unless its number is the call's first argument; and
-- every slot of every mailbox holds the message it held or one whose sender is the calling task.
pub handler-Keeps :
    (l : Layout) (r : Registers) (k : Kernel) → Keeps r.rdi (self k.sched) k (after (handler l r k))
handler-Keeps l r k = Effect-Keeps r.rdi (self k.sched) k (handler l r k) (handler-Effect l r k)

-- The object that a waiting call works on, and the sender of the message that it holds.
abbrev pub object_of : Wait → ℕ
object_of (sending i m) = i
object_of (receiving i a) = i
object_of (locking i) = i
object_of _ = max_obj

abbrev pub sender_of : Wait → ℕ
sender_of (sending i m) = m.sender
sender_of _ = self_none

go_on-Effect :
    (l : Layout) (w : Wait) (k : Kernel) → Effect (object_of w) (sender_of w) k (go_on l w k)
unfolding go_on
go_on-Effect l (sending i m) k = send-Effect l i m.sender k m refl
go_on-Effect l (receiving i a) k = recv-Effect l i self_none k a
go_on-Effect l (locking i) k = lock-Effect l i self_none k
go_on-Effect l (sleeping t) k = sleep-Effect l max_obj self_none k t
go_on-Effect l (reading a) k = read-Effect l max_obj self_none k a

-- A further round of a waiting call keeps the types of the objects in use and all objects but the one
-- that the call works on; a new message in a slot has the sender of the message that the call holds.
pub go_on-Keeps :
    (l : Layout) (w : Wait) (k : Kernel) → Keeps (object_of w) (sender_of w) k (after (go_on l w k))
go_on-Keeps l w k = Effect-Keeps (object_of w) (sender_of w) k (go_on l w k) (go_on-Effect l w k)
