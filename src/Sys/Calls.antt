-- ===== src/Sys/Calls.antt =====
-- src/tsys.c: `syscall_handler`. A call that waits for another task or for a key is a function of
-- its rounds, as in Ipc/Transfer.antt; `handler` is the call up to the end of its first round.
use trait_os.Base.{ℕ, zero, suc, ◌+◌, ◌-◌, ◌%◌, ◌^◌, ◌++◌, Bool, true, false}
use trait_os.Base.{Option, none, some, leb, ◌==◌, if◌then◌else◌, not, ◌||◌}
use trait_os.Base.Update.{update}
use trait_os.Ipc.Fifo.{Rc, ok, fail, on_rc}
use trait_os.Ipc.Mailbox.{Mailbox, Msg}
use trait_os.Ipc.Mutex.{Mutex, mutex_init, lock_round, unlock}
use trait_os.Ipc.Transfer.{Outcome, mailbox_init, send_begin, send_round, recv_round}
use trait_os.Ipc.Transfer as Transfer
use trait_os.Keyboard.{getchar}
use trait_os.Task.Table.{Sched, Layout}
use trait_os.Task.Ops.{self, yield_cpu, exit}
use trait_os.Vmm.Space.{range_user}
use trait_os.Sys.State.{
  max_obj, obj_mb, obj_mutex, is_free, is_mb, is_mutex, Entry, Kernel, Registers, negative, failure,
  Wait, sending, receiving, locking, sleeping, reading, Step, returns, waits, ended, bytes_at,
  put_bytes, msg_size, msg_at, msg_bytes,
}

-- `(long)` of a result 0 or -1
abbrev pub word_of : Rc → ℕ
word_of ok = 0
word_of fail = failure

-- The first free entry from `i` on, of the `n` that are left.
unfoldable pub first_free : (ℕ → Entry) → ℕ → ℕ → Option ℕ
first_free table zero i = none
first_free table (suc n) i = if is_free (table i).type then some i else first_free table n (i + 1)

-- What `TSYS_MB_INIT` and `TSYS_MUTEX_INIT` do with the entry they find.
unfoldable pub mb_init : Option ℕ → Kernel → Step
mb_init none k = returns failure k
mb_init (some i) k =
    let (rc, mb) = mailbox_init (k.table i).mb in
    on_rc rc
      (returns i
        (record k { table = update k.table i (record (k.table i) { type = obj_mb; mb = mb }) }))
      (returns failure (record k { table = update k.table i (record (k.table i) { mb = mb }) }))

unfoldable pub mutex_init_at : Option ℕ → Kernel → Step
mutex_init_at none k = returns failure k
mutex_init_at (some i) k =
    let (rc, m) = mutex_init (k.table i).mtx in
    on_rc rc
      (returns i
        (record k { table = update k.table i (record (k.table i) { type = obj_mutex; mtx = m }) }))
      (returns failure (record k { table = update k.table i (record (k.table i) { mtx = m }) }))

abbrev pub put_mb : Kernel → ℕ → Mailbox → Sched → Kernel
put_mb k i mb s = record k { table = update k.table i (record (k.table i) { mb = mb }); sched = s }

abbrev pub put_mtx : Kernel → ℕ → Mutex → Sched → Kernel
put_mtx k i m s = record k { table = update k.table i (record (k.table i) { mtx = m }); sched = s }

-- The end of a round of a call on an IPC object, `w` being the call.
unfoldable pub round_end : Wait → Outcome → Kernel → Step
round_end w (Transfer.returns rc) k = returns (word_of rc) k
round_end w (Transfer.waits b) k = waits w k

-- The message goes to the buffer at `a` when the receive returns 0.
unfoldable pub deliver : ℕ → Option Msg → Kernel → Kernel
deliver a none k = k
deliver a (some m) k = record k { user = put_bytes k.user a (msg_bytes m) }

-- `(int64_t)((uint64_t)timer_ticks() - until) < 0`
unfoldable pub early : ℕ → ℕ → Bool
early until ticks = negative ((ticks + 2 ^ 64 - until) % 2 ^ 64)

-- The tests that refuse a call: of a write, a read, and a call on a mailbox or on a mutex.
unfoldable pub write_refused : Registers → Kernel → Bool
write_refused r k =
    not (r.rdi == 1) || (r.rdx == 0 || negative r.rdx) || not (range_user r.rsi r.rdx false k.vm)

unfoldable pub read_refused : Registers → Kernel → Bool
read_refused r k =
    not (r.rdi == 0) || (r.rdx == 0 || negative r.rdx) || not (range_user r.rsi r.rdx true k.vm)

unfoldable pub mb_refused : Registers → Kernel → Bool
mb_refused r k =
    leb max_obj r.rdi
    || not (is_mb (k.table r.rdi).type)
    || not (range_user r.rsi msg_size false k.vm)

unfoldable pub mutex_refused : Registers → Kernel → Bool
mutex_refused r k = leb max_obj r.rdi || not (is_mutex (k.table r.rdi).type)

module _ (l : Layout) where
  unfoldable pub send_on : ℕ → Msg → Kernel → Step
  send_on i m k =
      let (o, mb, s) = send_round l (k.table i).mb m k.sched in
      round_end (sending i m) o (put_mb k i mb s)

  unfoldable pub recv_on : ℕ → ℕ → Kernel → Step
  recv_on i a k =
      let (out, o, mb, s) = recv_round l (k.table i).mb k.sched in
      round_end (receiving i a) o (deliver a out (put_mb k i mb s))

  unfoldable pub lock_on : ℕ → Kernel → Step
  lock_on i k =
      let (o, m, s) = lock_round l (k.table i).mtx k.sched in
      round_end (locking i) o (put_mtx k i m s)

  unfoldable pub unlock_on : ℕ → Kernel → Step
  unlock_on i k =
      let (rc, m, s) = unlock (k.table i).mtx k.sched in returns (word_of rc) (put_mtx k i m s)

  -- A round of `while (... < 0) ttask_yield();`
  unfoldable pub sleep_on : ℕ → Kernel → Step
  sleep_on until k =
      if early until k.ticks
      then waits (sleeping until) (record k { sched = yield_cpu l k.sched })
      else returns 0 k

  -- A key that was read: a special one is below zero as a `char`.
  unfoldable pub take_key : ℕ → Option ℕ → Kernel → Step
  take_key a none k = waits (reading a) (record k { sched = yield_cpu l k.sched })
  take_key a (some ch) k =
      if leb 128 ch then returns 0 k else returns 1 (record k { user = update k.user a ch })

  unfoldable pub read_on : ℕ → Kernel → Step
  read_on a k = let (ch, kb) = getchar k.keyboard in take_key a ch (record k { keyboard = kb })

  -- Another round of a call that waits.
  unfoldable pub go_on : Wait → Kernel → Step
  go_on (sending i m) k = send_on i m k
  go_on (receiving i a) k = recv_on i a k
  go_on (locking i) k = lock_on i k
  go_on (sleeping until) k = sleep_on until k
  go_on (reading a) k = read_on a k

  -- `TSYS_MB_SEND` past its checks: the sender is stamped here and again by `tipc_send`.
  unfoldable pub stamped : Option Msg → ℕ → Kernel → Step
  stamped none i k = returns failure k
  stamped (some m) i k = send_on i m k

  -- The calls, by their numbers.
  unfoldable pub sys_write : Registers → Kernel → Step
  sys_write r k =
      if write_refused r k
      then returns failure k
      else returns r.rdx (record k { console = k.console ++ bytes_at k.user r.rsi r.rdx })

  unfoldable pub sys_sleep : Registers → Kernel → Step
  sys_sleep r k =
      if negative r.rdi then returns failure k else sleep_on ((k.ticks + r.rdi) % 2 ^ 64) k

  unfoldable pub sys_mb_send : Registers → Kernel → Step
  sys_mb_send r k =
      if mb_refused r k
      then returns failure k
      else stamped (send_begin k.sched (record (msg_at k.user r.rsi) { sender = self k.sched }))
          r.rdi k

  unfoldable pub sys_mb_recv : Registers → Kernel → Step
  sys_mb_recv r k = if mb_refused r k then returns failure k else recv_on r.rdi r.rsi k

  unfoldable pub sys_mutex_lock : Registers → Kernel → Step
  sys_mutex_lock r k = if mutex_refused r k then returns failure k else lock_on r.rdi k

  unfoldable pub sys_mutex_unlock : Registers → Kernel → Step
  sys_mutex_unlock r k = if mutex_refused r k then returns failure k else unlock_on r.rdi k

  unfoldable pub sys_read : Registers → Kernel → Step
  sys_read r k = if read_refused r k then returns failure k else read_on r.rsi k

  -- The `switch` over the call's number, `TSYS_WRITE` to `TSYS_READ`.
  unfoldable pub dispatch : ℕ → Registers → Kernel → Step
  dispatch nr r k =
      if nr == 1
      then sys_write r k
      else if nr == 2
      then ended (record k { sched = exit l k.sched })
      else if nr == 3
      then returns (self k.sched) k
      else if nr == 4
      then returns 0 (record k { sched = yield_cpu l k.sched })
      else if nr == 5
      then sys_sleep r k
      else if nr == 6
      then mb_init (first_free k.table max_obj 0) k
      else if nr == 7
      then sys_mb_send r k
      else if nr == 8
      then sys_mb_recv r k
      else if nr == 9
      then mutex_init_at (first_free k.table max_obj 0) k
      else if nr == 10
      then sys_mutex_lock r k
      else if nr == 11
      then sys_mutex_unlock r k
      else if nr == 12
      then returns k.ticks k
      else if nr == 13
      then sys_read r k
      else returns failure k

  unfoldable pub handler : Registers → Kernel → Step
  handler r k = if r.cs % 4 == 0 then returns failure k else dispatch r.rax r k
