-- ===== src/Ipc/Transfer.antt =====
-- src/tipc.c: `tipc_send` and `tipc_recv`. Each is a loop whose rounds run with interrupts off; a
-- round is one function here, and `waits` sends its caller into the next one. The pointers of the
-- calls are not null.
pub mod Delivery
use trait_os.Base.{ℕ, ◌==◌, if◌then◌else◌, Bool, Option, none, some, List, [], ◌∷◌, ◌++◌}
use trait_os.Ipc.Fifo.{on_rc, Rc, ok, fail}
use trait_os.Ipc.WaitQueue
use trait_os.Ipc.WaitQueue.{WaitQueue, no_task}
use trait_os.Ipc.Mailbox
use trait_os.Ipc.Mailbox.{Msg, Mailbox}
use trait_os.Task.Table.{Sched, Layout}
use trait_os.Task.Ops.{Blocked, self, self_none, wake, block}

-- The end of one round: the function returns, or goes round again after `ttask_block`.
pub data Outcome : Type 0 where
  returns : Rc → Outcome
  waits : Blocked → Outcome

-- Waking the task that a wait queue handed out, if it did.
abbrev pub wake_popped : ℕ → Sched → Sched
wake_popped w s = if w == no_task then s else wake s w

-- `tipc_mailbox_init`
unfoldable pub mailbox_init : Mailbox → Rc × Mailbox
mailbox_init mb = (ok, Mailbox.init mb)

-- `tipc_send` up to its loop: the message stamped with its sender.
unfoldable pub send_begin : Sched → Msg → Option Msg
send_begin s m = if self s == self_none then none else some (record m { sender = self s })

module _ (l : Layout) where
  -- A full mailbox: register in its queue of senders and block.
  unfoldable pub park_sender : Mailbox → Sched → Outcome × Mailbox × Sched
  park_sender mb s =
      let (rc, q) = WaitQueue.push mb.wait_send (self s) in
      let (b, s') = block l s in
      on_rc rc (waits b, record mb { wait_send = q }, s') (returns fail, mb, s)

  unfoldable pub send_round : Mailbox → Msg → Sched → Outcome × Mailbox × Sched
  send_round mb m s =
      let (rc, mb') = Mailbox.push mb m in
      let (w, q) = WaitQueue.pop mb'.wait_recv in
      on_rc rc (returns ok, record mb' { wait_recv = q }, wake_popped w s) (park_sender mb' s)

  -- An empty mailbox: register in its queue of receivers and block.
  unfoldable pub park_receiver : Mailbox → Sched → Outcome × Mailbox × Sched
  park_receiver mb s =
      let (rc, q) = WaitQueue.push mb.wait_recv (self s) in
      let (b, s') = block l s in
      on_rc rc (waits b, record mb { wait_recv = q }, s') (returns fail, mb, s)

  -- The rest of a receive's round, for what `tipc_core_mb_pop` gave.
  unfoldable pub recv_end : Option Msg → Mailbox → Sched → Option Msg × Outcome × Mailbox × Sched
  recv_end none mb s = let (o, mb', s') = park_receiver mb s in (none, o, mb', s')
  recv_end (some m) mb s =
      let (w, q) = WaitQueue.pop mb.wait_send in
      (some m, returns ok, record mb { wait_send = q }, wake_popped w s)

  -- The option is the message written through `out`.
  unfoldable pub recv_round : Mailbox → Sched → Option Msg × Outcome × Mailbox × Sched
  unfolding recv_end
  recv_round mb s =
      let (out, mb') = Mailbox.pop mb in
      if self s == self_none then (none, returns fail, mb, s) else recv_end out mb' s
