-- ===== src/Sys/Deliver.antt =====
-- src/tsys.c: the message that `TSYS_MB_RECV` writes to the caller's buffer.
use trait_os.Base.{ℕ, zero, suc, ◌+◌, ◌%◌, ◌<◌, ◌≡◌, ◌≢◌, refl, sym, ap, ◌∙◌}
use trait_os.Base.{List, [], ◌∷◌, Bool, true, false, Option, some, length, take}
use trait_os.Base.{leb, ◌==◌, not, ◌||◌, if◌then◌else◌, arith}
use trait_os.Base.Update.{update, update_self}
use trait_os.Ipc.Mailbox.{Msg, Mailbox}
use trait_os.Ipc.Mailbox
use trait_os.Ipc.WaitQueue
use trait_os.Ipc.Transfer.{Outcome, recv_round, recv_end, wake_popped}
use trait_os.Task.Table.{Layout, Sched}
use trait_os.Task.Ops.{self, self_none}
use trait_os.Vmm.Space.{range_user}
use trait_os.Sys.State.{
  max_obj, Entry, receiving, is_mb, obj_mb, Kernel, Registers, failure, returns, put_bytes,
  bytes_at, msg_size, msg_bytes, word_bytes,
}
use trait_os.Sys.Calls.{
  round_end, deliver, recv_on, mb_refused, sys_mb_recv, dispatch, handler, put_mb,
}
use trait_os.Sys.Objects.{handler_at}
use trait_os.Sys.Memory.{put_bytes_off}

-- What was written is read.
bytes_at-put_bytes :
    (user : ℕ → ℕ) (a : ℕ) (bs : List ℕ) → bytes_at (put_bytes user a bs) a (length bs) ≡ bs
unfolding bytes_at put_bytes
bytes_at-put_bytes user a [] = refl
bytes_at-put_bytes user a (b ∷ bs) =
    let first : put_bytes (update user a b) (a + 1) bs a ≡ b =
      put_bytes_off (update user a b) (a + 1) bs a (λ p q. absurd (omega arith))
      ∙ update_self user a b in
    rw (first, bytes_at-put_bytes (update user a b) (a + 1) bs) refl

take_all : (xs : List ℕ) (n : ℕ) → length xs ≡ n → length (take n xs) ≡ n
take_all [] zero h = refl
take_all [] (suc n) h = h
take_all (x ∷ xs) zero h = absurd (omega (arith, h))
take_all (x ∷ xs) (suc n) h = omega (arith, take_all xs n (omega (arith, h)))

length-msg_bytes : (m : Msg) → length m.payload ≡ 56 → length (msg_bytes m) ≡ msg_size
unfolding msg_bytes word_bytes
length-msg_bytes m h = omega (arith, take_all m.payload 56 h)

recv_round-some :
    (l : Layout) (k : Kernel) (mb : Mailbox)
    → self k.sched ≢ self_none
    → mb.count ≢ 0
    → recv_round l mb k.sched ≡ recv_end l (some (mb.slot mb.head)) (Mailbox.pop mb).1 k.sched
unfolding recv_round Mailbox.pop
recv_round-some l k mb up some_left =
    let here : (self k.sched == self_none) ≡ false = ground arith in
    let filled : (mb.count == 0) ≡ false = ground arith in rw (here, filled) refl

-- The mailbox once its oldest message is out, and the scheduler with a waiting sender woken.
abbrev taken : Mailbox → Mailbox
taken mb =
    let rest = (Mailbox.pop mb).1 in record rest { wait_send = (WaitQueue.pop rest.wait_send).1 }

abbrev woken : Mailbox → Sched → Sched
woken mb s = wake_popped (WaitQueue.pop (Mailbox.pop mb).1.wait_send).0 s

recv_on-some :
    (l : Layout) (i a : ℕ) (k : Kernel)
    → self k.sched ≢ self_none
    → (k.table i).mb.count ≢ 0
    → recv_on l i a k ≡ (
        let mb = (k.table i).mb in
        returns 0 (deliver a (some (mb.slot mb.head)) (put_mb k i (taken mb) (woken mb k.sched))))
unfolding recv_on recv_end round_end
recv_on-some l i a k up left =
    ap
      (λ (x : Option Msg × Outcome × Mailbox × Sched).
        round_end (receiving i a) x.1 (deliver a x.0 (put_mb k i x.2 x.3)))
      (recv_round-some l k (k.table i).mb up left)

accepted : (a b c : Bool) → a ≡ false → b ≡ true → c ≡ true → (a || not b || not c) ≡ false
accepted a b c h i j = ground arith

mb_accepted :
    (r : Registers) (k : Kernel)
    → r.rdi < max_obj
    → (k.table r.rdi).type ≡ obj_mb
    → range_user r.rsi msg_size false k.vm ≡ true
    → mb_refused r k ≡ false
unfolding mb_refused
mb_accepted r k id mb ours =
    accepted (leb max_obj r.rdi) (is_mb (k.table r.rdi).type) (range_user r.rsi msg_size false k.vm)
      (ground arith) (ap is_mb mb) ours

taken_count : (mb : Mailbox) → mb.count ≢ 0 → (taken mb).count + 1 ≡ mb.count
unfolding Mailbox.pop
taken_count mb left = ground arith

delivered_bytes :
    (a : ℕ) (m : Msg) (k : Kernel)
    → length m.payload ≡ 56
    → bytes_at (deliver a (some m) k).user a msg_size ≡ msg_bytes m
unfolding deliver
delivered_bytes a m k sized =
    ap (bytes_at (put_bytes k.user a (msg_bytes m)) a) (sym (length-msg_bytes m sized))
    ∙ bytes_at-put_bytes k.user a (msg_bytes m)

-- From ring 3, on a mailbox of the table, with a buffer that `vmm_range_user` accepts, a caller that
-- is a task, and a message in the mailbox whose payload has its 56 bytes: TSYS_MB_RECV returns 0, the
-- 64 bytes of the buffer are those of the oldest message, and the mailbox holds one message less.
pub handler_receives :
    (l : Layout) (r : Registers) (k : Kernel) (m : Msg)
    → r.cs % 4 ≢ 0
    → r.rax ≡ 8
    → r.rdi < max_obj
    → (k.table r.rdi).type ≡ obj_mb
    → range_user r.rsi msg_size false k.vm ≡ true
    → self k.sched ≢ self_none
    → (k.table r.rdi).mb.count ≢ 0
    → (k.table r.rdi).mb.slot (k.table r.rdi).mb.head ≡ m
    → length m.payload ≡ 56
    → (k' : Kernel) × (handler l r k ≡ returns 0 k')
      × (bytes_at k'.user r.rsi msg_size ≡ msg_bytes m)
      × ((k'.table r.rdi).mb.count + 1 ≡ (k.table r.rdi).mb.count)
unfolding dispatch sys_mb_recv deliver
handler_receives l r k m user nr id type ours up left oldest sized =
    let mb = (k.table r.rdi).mb in
    let k' = put_mb k r.rdi (taken mb) (woken mb k.sched) in
    (
      deliver r.rsi (some m) k',
      handler_at l r k 8 user nr
          ∙ ap (λ b. if b then returns failure k else recv_on l r.rdi r.rsi k)
              (mb_accepted r k id type ours)
          ∙ recv_on-some l r.rdi r.rsi k up left
          ∙ ap (λ x. returns 0 (deliver r.rsi (some x) k')) oldest,
      delivered_bytes r.rsi m k' sized,
      ap (λ (e : Entry). e.mb.count + 1)
            (update_self k.table r.rdi (record (k.table r.rdi) { mb = taken mb }))
          ∙ taken_count mb left,
    )
