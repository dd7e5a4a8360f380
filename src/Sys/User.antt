-- ===== src/Sys/User.antt =====
-- src/tsys.c: which bytes of a task's memory a system call may write.
use trait_os.Base.{ℕ, ◌+◌, ◌^◌, ◌%◌, ◌≤◌, ◌<◌, ◌≡◌, ◌≢◌, ◌⊎◌, inl, inr, refl, ap}
use trait_os.Base.{Bool, true, false, Option, none, some}
use trait_os.Base.{leb, ◌==◌, not, ◌||◌, if_ind, arith}
use native.Mathlib.Decide.{dec_lt, dec_le, ℕ_discrete}
use trait_os.Ipc.Mailbox.{Msg}
use trait_os.Task.Table.{Layout}
use trait_os.Vmm.Space.{range_user}
use trait_os.Sys.State.{
  max_obj, Kernel, Registers, failure, negative, Wait, Step, returns, after, msg_size, is_mb,
  sending, receiving, locking, sleeping, reading,
}
use trait_os.Sys.Calls.{
  first_free, mb_init, mutex_init_at, send_on, lock_on, unlock_on, sleep_on, go_on, stamped,
  sys_write, sys_sleep, sys_mb_send, sys_mb_recv, write_refused, read_refused, mb_refused,
  mutex_refused, sys_mutex_lock, sys_mutex_unlock, sys_read, handler,
}
use trait_os.Sys.Cases.{Calls, handler_cases}
use trait_os.Sys.Memory.{
  mb_init_user, mutex_init_user, send_user, lock_user, sleep_user, recv_user, read_user,
}

-- A byte of the calling task's memory that a call changed: it lies in the buffer of a receive of 64
-- bytes, which was checked to be the task's, or it is the first of the buffer of a read, which was
-- checked to be the task's and writable.
abbrev pub MayChange : Registers → Kernel → ℕ → Type 0
MayChange r k x =
    ((r.rax ≡ 8)
      × (range_user r.rsi msg_size false k.vm ≡ true)
      × (r.rsi ≤ x)
      × (x < r.rsi + msg_size))
    ⊎ ((r.rax ≡ 13) × (range_user r.rsi r.rdx true k.vm ≡ true) × (x ≡ r.rsi))

-- What changes if it is not between two bounds stays is between them.
inside_of : (a b x : ℕ) {v w : ℕ} → ((a ≤ x → x < b → ⊥) → v ≡ w) → v ≢ w → (a ≤ x) × (x < b)
inside_of a b x keeps ne = elim (dec_le a x) [
  | yes p ↦ elim (dec_lt x b) [ yes q ↦ (p, q) | no q ↦ absurd (ne (keeps (λ p' q'. q q'))) ]
  | no p ↦ absurd (ne (keeps (λ p' q'. p p')))
]

last_passed : (a b c : Bool) → (a || b || not c) ≡ false → c ≡ true
last_passed a b c h = ground arith

mb_passed :
    (r : Registers) (k : Kernel)
    → mb_refused r k ≡ false
    → range_user r.rsi msg_size false k.vm ≡ true
unfolding mb_refused
mb_passed r k h =
    last_passed (leb max_obj r.rdi) (not (is_mb (k.table r.rdi).type))
      (range_user r.rsi msg_size false k.vm) h

read_passed :
    (r : Registers) (k : Kernel)
    → read_refused r k ≡ false
    → range_user r.rsi r.rdx true k.vm ≡ true
unfolding read_refused
read_passed r k h =
    last_passed (not (r.rdi == 0)) (r.rdx == 0 || negative r.rdx) (range_user r.rsi r.rdx true k.vm)
      h

module _ (l : Layout) (r : Registers) (k : Kernel) (x : ℕ) where
  abbrev Allowed : Step → Type 0
  Allowed s = (after s).user x ≢ k.user x → MayChange r k x

  calm : (s : Step) → (after s).user ≡ k.user → Allowed s
  calm s e ne = absurd (ne (ap (λ (u : ℕ → ℕ). u x) e))

  refused : Allowed (returns failure k)
  refused = calm (returns failure k) refl

  stamped_calm : (o : Option Msg) → Allowed (stamped l o r.rdi k)
  unfolding stamped
  stamped_calm none = refused
  stamped_calm (some m) = calm (send_on l r.rdi m k) (send_user k l r.rdi m)

  writes : Allowed (sys_write l r k)
  unfolding sys_write
  writes = if_ind Allowed (write_refused r k) (λ _. refused) λ _. λ ne. absurd (ne refl)

  sleeps : Allowed (sys_sleep l r k)
  unfolding sys_sleep
  sleeps =
      if_ind Allowed (negative r.rdi) (λ _. refused)
        λ _.
          let until = (k.ticks + r.rdi) % 2 ^ 64 in calm (sleep_on l until k) (sleep_user k l until)

  sends : Allowed (sys_mb_send l r k)
  unfolding sys_mb_send
  sends = if_ind Allowed (mb_refused r k) (λ _. refused) λ _. stamped_calm _

  -- Where the checks pass, a byte outside the buffer stays.
  receives : r.rax ≡ 8 → Allowed (sys_mb_recv l r k)
  unfolding sys_mb_recv
  receives e =
      if_ind Allowed (mb_refused r k) (λ _. refused)
        λ passed ne.
          let ours = mb_passed r k passed in
          let keeps = recv_user k l r.rdi r.rsi x in
          let inside = inside_of r.rsi (r.rsi + msg_size) x keeps ne in
          inl (e, ours, inside.0, inside.1)

  reads : r.rax ≡ 13 → Allowed (sys_read l r k)
  unfolding sys_read
  reads e =
      if_ind Allowed (read_refused r k) (λ _. refused)
        λ passed ne.
          let ours = read_passed r k passed in
          elim (ℕ_discrete x r.rsi) [
            | yes p ↦ inr (e, ours, p)
            | no p ↦ absurd (ne (read_user k l r.rsi x p))
          ]

  locks : Allowed (sys_mutex_lock l r k)
  unfolding sys_mutex_lock
  locks =
      if_ind Allowed (mutex_refused r k) (λ _. refused)
        λ _. calm (lock_on l r.rdi k) (lock_user k l r.rdi)

  unlocks : Allowed (sys_mutex_unlock l r k)
  unfolding sys_mutex_unlock unlock_on
  unlocks = if_ind Allowed (mutex_refused r k) (λ _. refused) λ _ ne. absurd (ne refl)

  all-Calls : Calls Allowed l r k
  all-Calls = record {
    quiet = λ v. calm (returns v k) refl;
    on_write = λ e. writes;
    on_exit = λ e ne. absurd (ne refl);
    on_yield = λ e ne. absurd (ne refl);
    on_sleep = λ e. sleeps;
    on_mb_init =
        λ e. let free = first_free k.table max_obj 0 in calm (mb_init free k) (mb_init_user k free);
    on_mb_send = λ e. sends;
    on_mb_recv = receives;
    on_mutex_init = λ e.
        let free = first_free k.table max_obj 0 in
        calm (mutex_init_at free k) (mutex_init_user k free);
    on_mutex_lock = λ e. locks;
    on_mutex_unlock = λ e. unlocks;
    on_read = reads;
  }

  -- Whatever the registers hold: a byte of the calling task's memory that `syscall_handler` changes up
  -- to the end of the call's first round is in the 64 bytes of a receive's buffer, which
  -- `vmm_range_user` found to be the task's, or is the first byte of a read's buffer, which it found to
  -- be the task's and writable.
  pub handler-MayChange : (after (handler l r k)).user x ≢ k.user x → MayChange r k x
  handler-MayChange = handler_cases Allowed l r k all-Calls

-- What a round of a call may write, by what the call holds on to.
abbrev pub InBuffer : Wait → ℕ → Type 0
InBuffer (receiving i a) x = (a ≤ x) × (x < a + msg_size)
InBuffer (reading a) x = x ≡ a
InBuffer _ x = ⊥

-- A byte of the calling task's memory that another round of a waiting call changes is in the buffer
-- that the call holds on to: 64 bytes of a receive, one of a read, none of the other calls.
pub go_on-InBuffer :
    (l : Layout) (w : Wait) (k : Kernel) (x : ℕ)
    → (after (go_on l w k)).user x ≢ k.user x
    → InBuffer w x
unfolding go_on
go_on-InBuffer l (sending i m) k x ne = ne (ap (λ (u : ℕ → ℕ). u x) (send_user k l i m))
go_on-InBuffer l (locking i) k x ne = ne (ap (λ (u : ℕ → ℕ). u x) (lock_user k l i))
go_on-InBuffer l (sleeping t) k x ne = ne (ap (λ (u : ℕ → ℕ). u x) (sleep_user k l t))
go_on-InBuffer l (receiving i a) k x ne = inside_of a (a + msg_size) x (recv_user k l i a x) ne
go_on-InBuffer l (reading a) k x ne = elim (ℕ_discrete x a) [
  | yes p ↦ p
  | no p ↦ absurd (ne (read_user k l a x p))
]
