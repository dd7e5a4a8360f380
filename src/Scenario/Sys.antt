-- ===== src/Scenario/Sys.antt =====
-- src/tsys.c: a user task that receives a message, opens a mutex and sleeps.
use trait_os.Base.{ℕ, ◌+◌, ◌≡◌, ◌≢◌, refl, List, [], ◌∷◌, true, false}
use trait_os.Base.{◌==◌, if◌then◌else◌, ltb, arith, replicate, get_or, ap}
use trait_os.Ipc.Mailbox.{Msg}
use trait_os.Ipc.Mutex.{Mutex}
use trait_os.Ipc.WaitQueue.{WaitQueue, no_task}
use trait_os.Vmm.State.{Vm, page_has, page_flags, find_pd, find_pt, table_lookup, entry_has}
use trait_os.Vmm.Entry.{grants, addr_of, huge, present, pml4_index, pdpt_index, pd_index, pt_index}
use trait_os.Vmm.Space.{range_user, pages_have, need_of}
use trait_os.Task.Ops.{self, yield_cpu}
use trait_os.Scenario.Task.{layout, running}
use trait_os.Sys.State.{
  Entry, Kernel, Registers, obj_free, obj_mb, msg_size, after, msg_bytes, bytes_at, Step, returns,
  waits, sleeping, word_bytes,
}
use trait_os.Sys.Calls.{handler, sleep_on}
use trait_os.Sys.Entries.{Keeps, handler-Keeps}
use trait_os.Sys.User.{MayChange, handler-MayChange}
use trait_os.Sys.Objects.{Opens, IsNewMailbox, IsNewMutex, handler-Opens}
use trait_os.Sys.Deliver.{handler_receives}
use trait_os.Sys.Sleep.{sleep_on_lem}

abbrev no_waiters : WaitQueue
no_waiters = record { id = λ i. 0; head = 0; n = 0 }

abbrev letter : Msg
letter = record { sender = 2; len = 1; payload = 65 ∷ replicate 55 0 }

abbrev nobodys : Mutex
nobodys = record { owner = no_task; depth = 0; wait = no_waiters }

-- Entry 0 is a mailbox with one message, the others are free.
abbrev entries : ℕ → Entry
entries i = record {
  type = if i == 0 then obj_mb else obj_free;
  mb = record {
    slot = λ s. letter;
    head = 0;
    count = 1;
    wait_send = no_waiters;
    wait_recv = no_waiters;
  };
  mtx = nobodys;
}

-- One table whose entries all lead to it, present, writable and the user's.
abbrev one_table : Vm
one_table = record {
  tables = λ t i. 0x1007;
  frames = record { bitmap = λ i. 0; total_frames = 32; free_frames = 0; first_free_hint = 0 };
  kernel = 0x1000;
  current = 0x1000;
}

abbrev kernel : Kernel
kernel = record {
  table = entries;
  sched = running;
  vm = one_table;
  keyboard = record {
    key_buffer = λ i. 0;
    key_head = 0;
    key_tail = 0;
    modes = record { e0_pending = false; shift_pressed = false; caps_on = false };
  };
  console = [];
  ticks = 100;
  user = λ a. 0;
}

-- From ring 3: a receive from mailbox 0 to a buffer of the task, and the opening of a mutex.
abbrev buffer : ℕ
buffer = 0x0000008000000100

abbrev receive : Registers
receive = record { rax = 8; rdi = 0; rsi = buffer; rdx = 0; cs = 0x1b }

abbrev open_mutex : Registers
open_mutex = record { rax = 9; rdi = 0; rsi = 0; rdx = 0; cs = 0x1b }

buffer_ok : range_user buffer msg_size false one_table ≡ true
unfolding range_user pages_have page_has page_flags find_pd find_pt table_lookup entry_has grants
    addr_of huge present pml4_index pdpt_index pd_index pt_index need_of
buffer_ok = refl

is_task : self running ≡ 1
unfolding self
is_task = refl

handler_receives_example :
    (k' : Kernel) × (handler layout receive kernel ≡ returns 0 k')
    × (bytes_at k'.user buffer msg_size ≡ msg_bytes letter)
    × ((k'.table 0).mb.count + 1 ≡ 1)
handler_receives_example =
    handler_receives layout receive kernel letter (omega arith) refl (omega arith) refl buffer_ok
      (omega (arith, is_task)) (omega arith) refl refl

handler-Opens_example :
    (open_mutex.rax ≡ 6 → Opens IsNewMailbox kernel (handler layout open_mutex kernel))
    × (open_mutex.rax ≡ 9 → Opens IsNewMutex kernel (handler layout open_mutex kernel))
handler-Opens_example = handler-Opens layout open_mutex kernel (omega arith)

handler-Keeps_example : Keeps 0 (self running) kernel (after (handler layout receive kernel))
handler-Keeps_example = handler-Keeps layout receive kernel

buffer_changes : (after (handler layout receive kernel)).user buffer ≢ 0
unfolding bytes_at msg_bytes word_bytes
buffer_changes z =
    let (k', e, b, c) = handler_receives_example in
    let first : k'.user buffer ≡ 2 = ap (λ (l : List ℕ). get_or l 0 0) b in
    let same : (after (handler layout receive kernel)).user buffer ≡ k'.user buffer =
      ap (λ (s : Step). (after s).user buffer) e in
    absurd (omega (arith, first, same, z))

handler-MayChange_example : MayChange receive kernel buffer
handler-MayChange_example = handler-MayChange layout receive kernel buffer buffer_changes

sleep_on_lem_example : sleep_on layout 150 kernel ≡ (
    if ltb 100 150
    then waits (sleeping 150) (record kernel { sched = yield_cpu layout running })
    else returns 0 kernel)
sleep_on_lem_example = sleep_on_lem layout 150 kernel (omega arith) (omega arith)
