-- ===== src/Keyboard/Refine.antt =====
-- The ring of pending keys is a queue of at most 255 keys.
use trait_os.Base.{
  ℕ, ◌+◌, ◌-◌, ◌%◌, ◌<◌, ◌≡◌, ◌≢◌, refl, sym, suc, ap, ap₂, ◌∙◌, arith, Option, none, some,
}
use trait_os.Base.{List, [], ◌∷◌, ◌++◌, length, ◌==◌, if_ind}
use trait_os.Base.Ring.{window, window_pos, window-update, length-window}
use trait_os.Ipc.Fifo
use trait_os.Keyboard.{
  Modes, Keyboard, key_buffer_size, key_buffer_push, decode, push_some, callback,
}
use trait_os.Keyboard.{getchar, Event, scan, read, run}
use trait_os.Base.Update.{update}

pub record IsValid (k : Keyboard) : Type 0 where
  pub head_in : k.key_head < key_buffer_size
  pub tail_in : k.key_tail < key_buffer_size

-- How many keys are pending; one slot of the ring stays empty.
abbrev pub pending : Keyboard → ℕ
pending k = (k.key_tail + key_buffer_size - k.key_head) % key_buffer_size

abbrev pub contents : Keyboard → List ℕ
contents k = window key_buffer_size k.key_buffer k.key_head (pending k)

-- Typing into a queue: a key is dropped when 255 keys are pending.
abbrev pub queue_some : Option ℕ → List ℕ → List ℕ
queue_some none q = q
queue_some (some c) q = (Fifo.push 255 q c).1

-- The keyboard with a plain queue in place of the ring.
abbrev pub run_queue : Modes → List ℕ → List Event → List (Option ℕ)
run_queue m q [] = []
run_queue m q (scan code ∷ es) = let (m', key) = decode m code in run_queue m' (queue_some key q) es
run_queue m q (read ∷ es) = let (c, q') = Fifo.pop q in c ∷ run_queue m q' es

push_full : (q : List ℕ) (c : ℕ) → length q ≡ 255 → (Fifo.push 255 q c).1 ≡ q
unfolding Fifo.push
push_full q c h = ground arith

push_room : (q : List ℕ) (c : ℕ) → length q < 255 → (Fifo.push 255 q c).1 ≡ q ++ (c ∷ [])
unfolding Fifo.push
push_room q c h = ground arith

push_refines :
    (c : ℕ) (k : Keyboard)
    → IsValid k
    → (contents (key_buffer_push c k) ≡ (Fifo.push 255 (contents k) c).1)
      × IsValid (key_buffer_push c k)
unfolding key_buffer_push
push_refines c k v =
    if_ind (λ k'. (contents k' ≡ (Fifo.push 255 (contents k) c).1) × IsValid k')
      ((k.key_tail + 1) % key_buffer_size == k.key_head)
      (λ full. (sym (push_full (contents k) c (len ∙ ground arith)), v))
      (λ room. (
        grown (ground arith) ∙ sym (push_room (contents k) c (rw len (ground arith))),
        record { head_in = v.head_in; tail_in = omega arith },
      ))
  where
    len : length (contents k) ≡ pending k
    len = length-window key_buffer_size k.key_buffer k.key_head (pending k)

    grown :
        (k.key_tail + 1) % key_buffer_size ≢ k.key_head
        → window key_buffer_size
            (update k.key_buffer k.key_tail c)
            k.key_head
            (((k.key_tail + 1) % key_buffer_size + key_buffer_size - k.key_head) % key_buffer_size)
          ≡ contents k ++ (c ∷ [])
    grown ne =
        let more : ((k.key_tail + 1) % key_buffer_size + key_buffer_size - k.key_head)
              % key_buffer_size
            ≡ suc (pending k) =
          omega (arith, v.head_in, v.tail_in) in
        let at_tail : (k.key_head + pending k) % key_buffer_size ≡ k.key_tail =
          omega (arith, v.head_in, v.tail_in) in
        ap (λ n. window key_buffer_size (update k.key_buffer k.key_tail c) k.key_head n) more
        ∙ ap (λ t. window key_buffer_size (update k.key_buffer t c) k.key_head (suc (pending k)))
            (sym at_tail)
        ∙ window-update key_buffer_size k.key_buffer c (pending k) k.key_head v.head_in
            (omega (arith, v.head_in, v.tail_in))

none_pending : (k : Keyboard) → IsValid k → k.key_head ≡ k.key_tail → contents k ≡ []
none_pending k v e =
    let none_left : pending k ≡ 0 = omega (arith, v.tail_in, e) in
    ap (λ n. window key_buffer_size k.key_buffer k.key_head n) none_left

oldest_pending :
    (k : Keyboard)
    → IsValid k
    → k.key_head ≢ k.key_tail
    → contents k
      ≡ k.key_buffer k.key_head
        ∷ contents (record k { key_head = (k.key_head + 1) % key_buffer_size })
oldest_pending k v ne =
    let some_left : pending k ≢ 0 = omega (arith, v.head_in, v.tail_in, ne) in
    let less : pending k - 1
        ≡ (k.key_tail + key_buffer_size - (k.key_head + 1) % key_buffer_size) % key_buffer_size =
      omega (arith, v.head_in, v.tail_in, ne) in
    window_pos key_buffer_size k.key_buffer k.key_head (pending k) some_left
    ∙ ap
        (λ n.
          k.key_buffer k.key_head
          ∷ window key_buffer_size k.key_buffer ((k.key_head + 1) % key_buffer_size) n)
        less

pop_refines :
    (k : Keyboard)
    → IsValid k
    → ((getchar k).0 ≡ (Fifo.pop (contents k)).0)
      × (contents (getchar k).1 ≡ (Fifo.pop (contents k)).1)
      × IsValid (getchar k).1
unfolding getchar Fifo.pop
pop_refines k v =
    if_ind
      (λ (r : Option ℕ × Keyboard).
        (r.0 ≡ (Fifo.pop (contents k)).0)
        × (contents r.1 ≡ (Fifo.pop (contents k)).1)
        × IsValid r.1)
      (k.key_head == k.key_tail)
      (λ y.
        let e = none_pending k v (ground arith) in
        (sym (ap (λ q. (Fifo.pop q).0) e), e ∙ sym (ap (λ q. (Fifo.pop q).1) e), v))
      (λ n.
        let e = oldest_pending k v (ground arith) in
        (
          sym (ap (λ q. (Fifo.pop q).0) e),
          sym (ap (λ q. (Fifo.pop q).1) e),
          record { head_in = omega arith; tail_in = v.tail_in },
        ))

push_some_refines :
    (o : Option ℕ) (k : Keyboard)
    → IsValid k
    → (contents (push_some o k) ≡ queue_some o (contents k)) × IsValid (push_some o k)
push_some_refines none k v = (refl, v)
push_some_refines (some c) k v = push_refines c k v

push_some-modes : (o : Option ℕ) (k : Keyboard) → (push_some o k).modes ≡ k.modes
unfolding key_buffer_push
push_some-modes none k = refl
push_some-modes (some c) k = ground arith

getchar-modes : (k : Keyboard) → (getchar k).1.modes ≡ k.modes
unfolding getchar
getchar-modes k = ground arith

-- For every sequence of interrupts and reads, from a keyboard whose head and tail are indices of
-- the ring: each read returns what it returns with a plain queue in place of the ring, to which the
-- keys that the handler decodes are added in order, and which drops a key when 255 are pending.
pub run_refines_queue :
    (es : List Event) (k : Keyboard) → IsValid k → run k es ≡ run_queue k.modes (contents k) es
unfolding run callback
run_refines_queue [] k v = refl
run_refines_queue (scan code ∷ es) k v =
    let d = decode k.modes code in
    let k' = record k { modes = d.0 } in
    let r = push_some_refines d.1 k' (record { head_in = v.head_in; tail_in = v.tail_in }) in
    run_refines_queue es (push_some d.1 k') r.1
    ∙ ap₂ (λ m q. run_queue m q es) (push_some-modes d.1 k') r.0
run_refines_queue (read ∷ es) k v =
    let r = pop_refines k v in
    ap₂ ◌∷◌ r.0
      (run_refines_queue es (getchar k).1 r.2 ∙ ap₂ (λ m q. run_queue m q es) (getchar-modes k) r.1)
