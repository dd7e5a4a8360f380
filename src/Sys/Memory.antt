-- ===== src/Sys/Memory.antt =====
-- src/tsys.c: what the rounds of the system calls do to the memory of the task.
use trait_os.Base.{ℕ, zero, suc, ◌+◌, ◌≤◌, ◌<◌, ◌≡◌, ◌≢◌, refl, ap, ◌∙◌}
use trait_os.Base.{List, [], ◌∷◌, Option, none, some, length, take}
use trait_os.Base.{leb, if_ind, arith}
use trait_os.Base.Update.{update}
use trait_os.Ipc.Fifo.{on_rc_ind}
use trait_os.Ipc.Mailbox.{Msg}
use trait_os.Ipc.Transfer.{Outcome, mailbox_init, recv_round}
use trait_os.Ipc.Transfer as Transfer
use trait_os.Ipc.Mutex.{mutex_init}
use trait_os.Task.Table.{Layout}
use trait_os.Sys.State.{
  Kernel, Wait, Step, returns, after, put_bytes, msg_size, msg_bytes, word_bytes,
}
use trait_os.Sys.Calls.{
  mb_init, mutex_init_at, round_end, deliver, send_on, recv_on, lock_on, early, sleep_on, take_key,
  read_on,
}

pub put_bytes_off :
    (user : ℕ → ℕ) (a : ℕ) (bs : List ℕ) (x : ℕ)
    → (a ≤ x → x < a + length bs → ⊥)
    → put_bytes user a bs x ≡ user x
unfolding put_bytes
put_bytes_off user a [] x off = refl
put_bytes_off user a (b ∷ bs) x off =
    put_bytes_off (update user a b) (a + 1) bs x (λ p q. off (omega arith) (omega arith))
    ∙ ground (arith, off)

take_short : (n : ℕ) (xs : List ℕ) → length (take n xs) ≤ n
take_short zero xs = omega arith
take_short (suc n) [] = omega arith
take_short (suc n) (x ∷ xs) = omega (arith, take_short n xs)

msg_bytes_short : (m : Msg) → length (msg_bytes m) ≤ msg_size
unfolding msg_bytes word_bytes
msg_bytes_short m = omega (arith, take_short 56 m.payload)

deliver_user :
    (a : ℕ) (o : Option Msg) (k : Kernel) (x : ℕ)
    → (a ≤ x → x < a + msg_size → ⊥)
    → (deliver a o k).user x ≡ k.user x
unfolding deliver
deliver_user a none k x off = refl
deliver_user a (some m) k x off =
    put_bytes_off k.user a (msg_bytes m) x λ p q. off p (omega (arith, msg_bytes_short m))

after-round_end : (w : Wait) (o : Outcome) (k : Kernel) → after (round_end w o k) ≡ k
unfolding round_end
after-round_end w (Transfer.returns rc) k = refl
after-round_end w (Transfer.waits b) k = refl

module _ (k : Kernel) where
  -- The step leaves the task's memory as it is.
  abbrev Untouched : Step → Type 0
  Untouched s = (after s).user ≡ k.user

  pub mb_init_user : (o : Option ℕ) → Untouched (mb_init o k)
  unfolding mb_init
  mb_init_user none = refl
  mb_init_user (some i) =
      on_rc_ind Untouched (mailbox_init (k.table i).mb).0 (λ e. refl) (λ e. refl)

  pub mutex_init_user : (o : Option ℕ) → Untouched (mutex_init_at o k)
  unfolding mutex_init_at
  mutex_init_user none = refl
  mutex_init_user (some i) =
      on_rc_ind Untouched (mutex_init (k.table i).mtx).0 (λ e. refl) (λ e. refl)

  module _ (l : Layout) where
    pub send_user : (i : ℕ) (m : Msg) → Untouched (send_on l i m k)
    unfolding send_on
    send_user i m = ap (λ (x : Kernel). x.user) (after-round_end _ _ _)

    pub lock_user : (i : ℕ) → Untouched (lock_on l i k)
    unfolding lock_on
    lock_user i = ap (λ (x : Kernel). x.user) (after-round_end _ _ _)

    pub sleep_user : (until : ℕ) → Untouched (sleep_on l until k)
    unfolding sleep_on
    sleep_user until =
        if_ind Untouched (early until k.ticks) {y = returns 0 k} (λ e. refl) (λ e. refl)

    pub recv_user :
        (i a x : ℕ) → (a ≤ x → x < a + msg_size → ⊥) → (after (recv_on l i a k)).user x ≡ k.user x
    unfolding recv_on
    recv_user i a x off =
        ap (λ (y : Kernel). y.user x) (after-round_end _ _ _) ∙ deliver_user a _ _ x off

    key_user :
        (a : ℕ) (o : Option ℕ) (k' : Kernel) (x : ℕ)
        → x ≢ a
        → (after (take_key l a o k')).user x ≡ k'.user x
    unfolding take_key
    key_user a none k' x ne = refl
    key_user a (some ch) k' x ne =
        if_ind (λ s. (after s).user x ≡ k'.user x) (leb 128 ch) (λ e. refl) (λ e. ground arith)

    pub read_user : (a x : ℕ) → x ≢ a → (after (read_on l a k)).user x ≡ k.user x
    unfolding read_on
    read_user a x ne = key_user a _ _ x ne
