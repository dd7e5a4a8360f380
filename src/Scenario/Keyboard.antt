-- ===== src/Scenario/Keyboard.antt =====
-- Typing at the keyboard of src/keyboard.c.
use trait_os.Base.{◌≡◌, refl, arith, none, some, List, [], ◌∷◌, false}
use trait_os.Keyboard.{Keyboard, Event, scan, read, run, callback, decode, plain, getchar}
use trait_os.Keyboard.{key_buffer_push, released, extended}
use trait_os.Keyboard.Refine.{run_queue, run_refines_queue}

-- The key "z" is pending, in the last slot of the ring.
abbrev keyboard : Keyboard
keyboard = record {
  key_buffer = λ i. b'z';
  key_head = 255;
  key_tail = 0;
  modes = record { e0_pending = false; shift_pressed = false; caps_on = false };
}

-- Shift down, "q", shift up, "w", the arrow up.
abbrev typing : List Event
typing =
    scan 0x2a
    ∷ scan 0x10
    ∷ scan 0x90
    ∷ scan 0xaa
    ∷ scan 0x11
    ∷ scan 0xe0
    ∷ scan 0x48
    ∷ read
    ∷ read
    ∷ read
    ∷ read
    ∷ read
    ∷ []

run-typing : run keyboard typing ≡ some b'z' ∷ some b'Q' ∷ some b'w' ∷ some 254 ∷ none ∷ []
unfolding run callback decode plain getchar key_buffer_push released extended
run-typing = refl

run_refines_queue_example : run keyboard typing ≡ run_queue keyboard.modes (b'z' ∷ []) typing
run_refines_queue_example = run_refines_queue typing keyboard (omega arith)
