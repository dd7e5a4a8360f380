-- ===== src/Sys/State.antt =====
-- src/tsys.c and src/tsys.h: what a system call works on: the table of IPC objects, the parts of the
-- kernel that it calls, the saved registers, and the bytes of the calling task's address space.
use trait_os.Base.{
  ℕ, zero, suc, ◌+◌, ◌-◌, ◌*◌, ◌/◌, ◌%◌, ◌^◌, List, [], ◌∷◌, ◌++◌, Bool, true, false,
}
use trait_os.Base.{leb, take}
use trait_os.Base.Update.{update}
use trait_os.Ipc.Mailbox.{Mailbox, Msg}
use trait_os.Ipc.Mutex.{Mutex}
use trait_os.Keyboard.{Keyboard}
use trait_os.Task.Table.{Sched}
use trait_os.Vmm.State.{Vm}

abbrev pub max_obj : ℕ
max_obj = 32

-- `enum tipc_obj_type`
pub data ObjType : Type 0 where
  obj_free obj_mb obj_mutex : ObjType

abbrev pub is_free : ObjType → Bool
is_free obj_free = true
is_free _ = false

abbrev pub is_mb : ObjType → Bool
is_mb obj_mb = true
is_mb _ = false

abbrev pub is_mutex : ObjType → Bool
is_mutex obj_mutex = true
is_mutex _ = false

-- An entry of `tipc_table`. The members of its union are two fields: only the one of the entry's
-- type is ever read, and a type that is not free stays.
pub record Entry : Type 0 where
  pub type : ObjType
  pub mb : Mailbox
  pub mtx : Mutex

-- `console` is what went to the screen and to the serial port, in order; `user` are the bytes at the
-- addresses of the calling task; `ticks` is the count of the timer.
pub record Kernel : Type 0 where
  pub table : ℕ → Entry
  pub sched : Sched
  pub vm : Vm
  pub keyboard : Keyboard
  pub console : List ℕ
  pub ticks : ℕ
  pub user : ℕ → ℕ

-- The registers that the handler reads, as 64-bit words.
pub record Registers : Type 0 where
  pub rax : ℕ
  pub rdi : ℕ
  pub rsi : ℕ
  pub rdx : ℕ
  pub cs : ℕ

-- A word read as a `long` is below zero; the word of -1.
abbrev pub negative : ℕ → Bool
negative a = leb (2 ^ 63) a

abbrev pub failure : ℕ
failure = 2 ^ 64 - 1

-- A call that goes on in another round: what it holds on to.
pub data Wait : Type 0 where
  sending : ℕ → Msg → Wait
  receiving : ℕ → ℕ → Wait
  locking : ℕ → Wait
  sleeping : ℕ → Wait
  reading : ℕ → Wait

-- The end of a round: the value of `rax`, another round, or a task that is over.
pub data Step : Type 0 where
  returns : ℕ → Kernel → Step
  waits : Wait → Kernel → Step
  ended : Kernel → Step

abbrev pub after : Step → Kernel
after (returns rax k) = k
after (waits w k) = k
after (ended k) = k

-- The bytes from `a` on, `n` of them.
unfoldable pub bytes_at : (ℕ → ℕ) → ℕ → ℕ → List ℕ
bytes_at user a zero = []
bytes_at user a (suc n) = user a ∷ bytes_at user (a + 1) n

-- `__builtin_memcpy` to the address `a`
unfoldable pub put_bytes : (ℕ → ℕ) → ℕ → List ℕ → ℕ → ℕ
put_bytes user a [] = user
put_bytes user a (b ∷ bs) = put_bytes (update user a b) (a + 1) bs

-- A `uint32_t` in memory, its low byte first.
unfoldable pub word_at : (ℕ → ℕ) → ℕ → ℕ
word_at user a = user a + 2 ^ 8 * user (a + 1) + 2 ^ 16 * user (a + 2) + 2 ^ 24 * user (a + 3)

unfoldable pub word_bytes : ℕ → List ℕ
word_bytes n = n % 256 ∷ n / 2 ^ 8 % 256 ∷ n / 2 ^ 16 % 256 ∷ n / 2 ^ 24 % 256 ∷ []

-- `sizeof(tipc_msg_t)`, and a message read from memory and as it is written there.
abbrev pub msg_size : ℕ
msg_size = 64

unfoldable pub msg_at : (ℕ → ℕ) → ℕ → Msg
msg_at user a = record {
  sender = word_at user a;
  len = word_at user (a + 4);
  payload = bytes_at user (a + 8) 56;
}

-- Of the payload, the 56 bytes that it has.
unfoldable pub msg_bytes : Msg → List ℕ
msg_bytes m = word_bytes m.sender ++ (word_bytes m.len ++ take 56 m.payload)
