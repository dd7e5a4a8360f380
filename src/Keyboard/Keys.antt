-- ===== src/Keyboard/Keys.antt =====
-- Which keys the handler stores.
use trait_os.Base.{
  ℕ, ◌<◌, ◌≡◌, refl, arith, Option, none, some, List, [], ◌∷◌, ◌++◌, get_or, length,
}
use trait_os.Base.{
  zero, suc, ltb, ◌==◌, if◌then◌else◌, if_ind, leb, ◌&&◌, ◌||◌, ◌-◌, ◌+◌, Bool, true,
}
use trait_os.Ipc.Fifo
use trait_os.Keyboard.{Modes, Keyboard, scancode_lower, scancode_shifted, extended, plain, decode}
use trait_os.Keyboard.{Event, scan, read, run}
use trait_os.Keyboard.Refine.{IsValid, contents, queue_some, run_queue, run_refines_queue}

-- A key byte that the shell cannot take for "no key" (`KEY_NONE`, the byte 255) or the end of a
-- string.
abbrev pub IsKey : ℕ → Type 0
IsKey c = (0 < c) × (c < 255)

abbrev pub Yields : Option ℕ → Type 0
Yields none = Unit {0}
Yields (some c) = IsKey c

all_ascii : List ℕ → Bool
all_ascii [] = true
all_ascii (c ∷ cs) = ltb c 128 && all_ascii cs

get_or-ascii : (t : List ℕ) (i : ℕ) → all_ascii t ≡ true → get_or t i 0 < 128
unfolding all_ascii
get_or-ascii [] i h = omega arith
get_or-ascii (c ∷ cs) zero h = ground arith
get_or-ascii (c ∷ cs) (suc i) h = get_or-ascii cs i (ground arith)

lower-ascii : all_ascii scancode_lower ≡ true
unfolding all_ascii
lower-ascii = refl

shifted-ascii : all_ascii scancode_shifted ≡ true
unfolding all_ascii
shifted-ascii = refl

extended-Yields : (code : ℕ) → Yields (extended code)
unfolding extended
extended-Yields code =
    if_ind Yields (code == 0x48) (λ _. omega arith)
      (λ _.
        if_ind Yields (code == 0x50) (λ _. omega arith)
          (λ _.
            if_ind Yields (code == 0x4b) (λ _. omega arith)
              (λ _.
                if_ind Yields (code == 0x4d) (λ _. omega arith)
                  (λ _.
                    if_ind Yields (code == 0x47) (λ _. omega arith)
                      (λ _.
                        if_ind Yields (code == 0x4f) (λ _. omega arith)
                          (λ _.
                            if_ind Yields (code == 0x52) (λ _. omega arith)
                              (λ _. if_ind Yields (code == 0x53) (λ _. omega arith) (λ _. tt))))))))

stored-Yields : (c : ℕ) (drop : Bool) → c < 128 → Yields (if drop || c == 0 then none else some c)
stored-Yields c drop h = if_ind Yields (drop || c == 0) (λ _. tt) (λ n. (ground arith, omega arith))

plain-Yields : (m : Modes) (code : ℕ) → Yields (plain m code)
unfolding plain
plain-Yields m code = stored-Yields _ (leb 128 code) (upper small)
  where
    small : get_or (if m.shift_pressed then scancode_shifted else scancode_lower) code 0 < 128
    small =
        if_ind (λ t. get_or t code 0 < 128) m.shift_pressed
          (λ _. get_or-ascii scancode_shifted code shifted-ascii)
          (λ _. get_or-ascii scancode_lower code lower-ascii)

    upper :
        {c : ℕ}
        → c < 128
        → (if leb b'a' c && leb c b'z' && m.caps_on then c - b'a' + b'A' else c) < 128
    upper h = ground arith

-- Whatever its flags, the handler stores for a scan code at most one key, and none that is 0 or the
-- byte of `KEY_NONE`.
decode-Yields : (m : Modes) (code : ℕ) → Yields (decode m code).1
unfolding decode
decode-Yields m code =
    if_ind P (code == 0xe0) (λ _. tt)
      (λ _.
        if_ind P (leb 0x80 code) (λ _. tt)
          (λ _.
            if_ind P m.e0_pending (λ _. extended-Yields code)
              (λ _.
                if_ind P (code == 0x2a || code == 0x36) (λ _. tt)
                  (λ _. if_ind P (code == 0x3a) (λ _. tt) (λ _. plain-Yields m code)))))
  where
    P : Modes × Option ℕ → Type 0
    P r = Yields r.1

abbrev pub AllKeys : List ℕ → Type 0
AllKeys [] = Unit {0}
AllKeys (c ∷ cs) = IsKey c × AllKeys cs

abbrev pub AllYield : List (Option ℕ) → Type 0
AllYield [] = Unit {0}
AllYield (o ∷ os) = Yields o × AllYield os

push-AllKeys : (q : List ℕ) (c : ℕ) → AllKeys q → IsKey c → AllKeys (Fifo.push 255 q c).1
unfolding Fifo.push
push-AllKeys q c h hc =
    if_ind (λ (r : Fifo.Rc × List ℕ). AllKeys r.1) (ltb (length q) 255) (λ _. appended q h) (λ _. h)
  where
    appended : (q : List ℕ) → AllKeys q → AllKeys (q ++ (c ∷ []))
    appended [] h = (hc, tt)
    appended (x ∷ q) h = (h.0, appended q h.1)

queue_some-AllKeys : (o : Option ℕ) (q : List ℕ) → Yields o → AllKeys q → AllKeys (queue_some o q)
queue_some-AllKeys none q y h = h
queue_some-AllKeys (some c) q y h = push-AllKeys q c h y

pop-AllKeys : (q : List ℕ) → AllKeys q → Yields (Fifo.pop q).0 × AllKeys (Fifo.pop q).1
unfolding Fifo.pop
pop-AllKeys [] h = (tt, tt)
pop-AllKeys (c ∷ q) h = (h.0, h.1)

queue-AllYield :
    (es : List Event) (m : Modes) (q : List ℕ) → AllKeys q → AllYield (run_queue m q es)
queue-AllYield [] m q h = tt
queue-AllYield (scan code ∷ es) m q h =
    let d = decode m code in
    queue-AllYield es d.0 (queue_some d.1 q) (queue_some-AllKeys d.1 q (decode-Yields m code) h)
queue-AllYield (read ∷ es) m q h =
    let p = pop-AllKeys q h in (p.0, queue-AllYield es m (Fifo.pop q).1 p.1)

-- For every sequence of interrupts and reads, from a keyboard whose head and tail are in range and
-- whose pending keys are none of them 0 or 255: no read hands out a key that is 0 or 255, so
-- `KEY_NONE` (-1, the byte 255) is returned only when no key is pending.
pub run-AllYield :
    (es : List Event) (k : Keyboard) → IsValid k → AllKeys (contents k) → AllYield (run k es)
run-AllYield es k v h = rw (run_refines_queue es k v) (queue-AllYield es k.modes (contents k) h)
