-- ===== src/Ipc/Mailbox.antt =====
-- src/tipc_core.h: `tipc_msg_t` and `tipc_mailbox_t`, the bounded ring of messages with the wait
-- queues of its senders and receivers, and their functions.
pub mod Refine
use trait_os.Base.{ℕ, ◌+◌, ◌-◌, ◌%◌, ◌^◌, leb, ◌==◌, if◌then◌else◌, Option, none, some, Bool}
use trait_os.Base.{List, [], ◌∷◌}
use trait_os.Base.Update.{update}
use trait_os.Ipc.Fifo.{Rc, ok, fail, Op, put, get, Reply, stored, fetched}
use trait_os.Ipc.WaitQueue
use trait_os.Ipc.WaitQueue.{WaitQueue}

abbrev pub queue_slots : ℕ
queue_slots = 8

-- `tipc_msg_t`; the payload's 56 bytes are moved whole.
pub record Msg : Type 0 where
  pub sender : ℕ
  pub len : ℕ
  pub payload : List ℕ

pub record Mailbox : Type 0 where
  pub slot : ℕ → Msg
  pub head : ℕ
  pub count : ℕ
  pub wait_send : WaitQueue
  pub wait_recv : WaitQueue

unfoldable pub init : Mailbox → Mailbox
init mb = record mb {
  head = 0;
  count = 0;
  wait_send = WaitQueue.init mb.wait_send;
  wait_recv = WaitQueue.init mb.wait_recv;
}

abbrev pub full : Mailbox → Bool
full mb = leb queue_slots mb.count

abbrev pub empty : Mailbox → Bool
empty mb = mb.count == 0

unfoldable pub push : Mailbox → Msg → Rc × Mailbox
push mb m = if full mb then (fail, mb) else (
  ok,
  record mb {
    slot = update mb.slot ((mb.head + mb.count) % queue_slots) m;
    count = (mb.count + 1) % 2 ^ 8;
  },
)

-- The option is what is written through `out`; `none` stands for the result -1.
-- `mb->count--` runs only at `count != 0`.
unfoldable pub pop : Mailbox → Option Msg × Mailbox
pop mb = if empty mb then (none, mb) else (
  some (mb.slot mb.head),
  record mb { head = (mb.head + 1) % queue_slots % 2 ^ 8; count = mb.count - 1 },
)

-- A client's calls in order, with what each returns.
unfoldable pub run : Mailbox → List (Op Msg) → List (Reply Msg)
run mb [] = []
run mb (put m ∷ ops) = let (rc, mb') = push mb m in stored rc ∷ run mb' ops
run mb (get ∷ ops) = let (out, mb') = pop mb in fetched out ∷ run mb' ops
