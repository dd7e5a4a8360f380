-- ===== src/Sys/Objects.antt =====
-- src/tsys.c: what the system calls do to the table of IPC objects.
use trait_os.Base.{
  ℕ, zero, suc, ◌+◌, ◌%◌, ◌≤◌, ◌<◌, ◌≡◌, ◌≢◌, ◌⊎◌, inl, inr, refl, sym, ap, ◌∙◌, subst,
}
use trait_os.Base.{true, false, Option, none, some, ◌==◌, if◌then◌else◌, if_ind}
use trait_os.Base.{arith}
use trait_os.Base.Update.{update}
use native.Mathlib.Decide.{ℕ_discrete}
use trait_os.Ipc.Mailbox.{Msg, Mailbox}
use trait_os.Ipc.Mailbox
use trait_os.Ipc.WaitQueue
use trait_os.Ipc.WaitQueue.{no_task}
use trait_os.Ipc.Mutex
use trait_os.Ipc.Mutex.{Mutex, mutex_init, lock_round, unlock}
use trait_os.Ipc.Transfer.{mailbox_init}
use trait_os.Task.Table.{Layout}
use trait_os.Sys.State.{
  max_obj, ObjType, obj_free, obj_mb, obj_mutex, is_free, Entry, Kernel, Registers, failure, Step,
  returns,
}
use trait_os.Sys.Calls.{first_free, mb_init, mutex_init_at, dispatch, handler}

-- What the search for a free entry found.
abbrev pub Found : (ℕ → Entry) → ℕ → ℕ → Option ℕ → Type 0
Found table n i none = (j : ℕ) → i ≤ j → j < i + n → (table j).type ≢ obj_free
Found table n i (some j) = (i ≤ j) × (j < i + n) × ((table j).type ≡ obj_free)

free_type : (t : ObjType) → is_free t ≡ true → t ≡ obj_free
free_type obj_free h = refl
free_type obj_mb h = cc
free_type obj_mutex h = cc

used_type : (t : ObjType) → is_free t ≡ false → t ≢ obj_free
used_type obj_free h = cc
used_type obj_mb h = λ e. cc
used_type obj_mutex h = λ e. cc

pub first_free-Found : (table : ℕ → Entry) (n i : ℕ) → Found table n i (first_free table n i)
unfolding first_free
first_free-Found table zero i = λ j a b. absurd (omega arith)
first_free-Found table (suc n) i =
    if_ind (Found table (suc n) i) (is_free (table i).type)
      (λ e. (omega arith, omega arith, free_type (table i).type e))
      λ e. wider (first_free table n (i + 1)) e (first_free-Found table n (i + 1))
  where
    wider :
        (o : Option ℕ)
        → is_free (table i).type ≡ false
        → Found table n (i + 1) o
        → Found table (suc n) i o
    wider none e f = λ j a b. elim (ℕ_discrete i j) [
      | yes p ↦ subst (λ x. (table x).type ≢ obj_free) p (used_type (table i).type e)
      | no p ↦ f j (omega arith) (omega arith)
    ]
    wider (some j) e f = (omega (arith, f.0), omega (arith, f.1), f.2)

-- An entry with an empty mailbox that no task waits for; an entry with a mutex that is nobody's.
abbrev pub IsNewMailbox : Entry → Type 0
IsNewMailbox e =
    (e.type ≡ obj_mb) × (e.mb.count ≡ 0) × (e.mb.wait_send.n ≡ 0) × (e.mb.wait_recv.n ≡ 0)

abbrev pub IsNewMutex : Entry → Type 0
IsNewMutex e =
    (e.type ≡ obj_mutex) × (e.mtx.owner ≡ no_task) × (e.mtx.depth ≡ 0) × (e.mtx.wait.n ≡ 0)

-- The call returned the number of an entry that was free and now satisfies `P`, and nothing else has
-- changed; or every entry is in use, the call returned -1 and nothing has changed.
abbrev pub Opens : (Entry → Type 0) → Kernel → Step → Type 0
Opens P k s =
    ((id : ℕ) × (e : Entry) × (id < max_obj)
      × ((k.table id).type ≡ obj_free)
      × P e
      × (s ≡ returns id (record k { table = update k.table id e })))
    ⊎ (((j : ℕ) → j < max_obj → (k.table j).type ≢ obj_free) × (s ≡ returns failure k))

mb_init-Opens :
    (k : Kernel) (o : Option ℕ) → Found k.table max_obj 0 o → Opens IsNewMailbox k (mb_init o k)
unfolding mb_init mailbox_init Mailbox.init WaitQueue.init
mb_init-Opens k none f = inr (λ j a. f j (omega arith) (omega arith), refl)
mb_init-Opens k (some i) f = inl (
  i,
  record (k.table i) { type = obj_mb; mb = (mailbox_init (k.table i).mb).1 },
  omega (arith, f.1),
  f.2,
  (refl, refl, refl, refl),
  refl,
)

mutex_init-Opens :
    (k : Kernel) (o : Option ℕ) → Found k.table max_obj 0 o → Opens IsNewMutex k (mutex_init_at o k)
unfolding mutex_init_at mutex_init Mutex.init WaitQueue.init
mutex_init-Opens k none f = inr (λ j a. f j (omega arith) (omega arith), refl)
mutex_init-Opens k (some i) f = inl (
  i,
  record (k.table i) { type = obj_mutex; mtx = (mutex_init (k.table i).mtx).1 },
  omega (arith, f.1),
  f.2,
  (refl, refl, refl, refl),
  refl,
)

pub handler_at :
    (l : Layout) (r : Registers) (k : Kernel) (n : ℕ)
    → r.cs % 4 ≢ 0
    → r.rax ≡ n
    → handler l r k ≡ dispatch l n r k
unfolding handler
handler_at l r k n user e =
    let test : (r.cs % 4 == 0) ≡ false = ground arith in
    ap (λ b. if b then returns failure k else dispatch l r.rax r k) test
    ∙ ap (λ nr. dispatch l nr r k) e

-- From ring 3: TSYS_MB_INIT and TSYS_MUTEX_INIT return the number of an entry below 32 that was free
-- and now holds an empty mailbox, or a mutex that is nobody's, with nobody waiting and nothing else
-- changed; or all 32 entries are in use, they return -1 and change nothing.
pub handler-Opens :
    (l : Layout) (r : Registers) (k : Kernel)
    → r.cs % 4 ≢ 0
    → (r.rax ≡ 6 → Opens IsNewMailbox k (handler l r k))
      × (r.rax ≡ 9 → Opens IsNewMutex k (handler l r k))
unfolding dispatch
handler-Opens l r k user =
    let found = first_free-Found k.table max_obj 0 in
    (
      (λ e.
          subst (Opens IsNewMailbox k) (sym (handler_at l r k 6 user e))
            (mb_init-Opens k (first_free k.table max_obj 0) found)),
      (λ e.
          subst (Opens IsNewMutex k) (sym (handler_at l r k 9 user e))
            (mutex_init-Opens k (first_free k.table max_obj 0) found)),
    )
