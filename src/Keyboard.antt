-- ===== src/Keyboard.antt =====
-- src/keyboard.c: the keyboard's interrupt handler and its ring of pending keys. The ports are not
-- modelled: the handler takes the scan code that it reads from one. A `char` is the byte that it
-- stores; -2 is the byte 254.
pub mod Keys
pub mod Refine
use trait_os.Base.{
  ℕ, ◌+◌, ◌-◌, ◌%◌, ltb, leb, ◌==◌, if◌then◌else◌, Bool, true, false, not, ◌&&◌, ◌||◌,
}
use trait_os.Base.{Option, none, some, List, [], ◌∷◌, get_or}
use trait_os.Base.Update.{update}

abbrev pub key_buffer_size : ℕ
key_buffer_size = 256

-- The entries beyond the space bar are 0, and are left off.
abbrev pub scancode_lower : List ℕ
scancode_lower =
    0 ∷ 27 ∷ b'1' ∷ b'2' ∷ b'3' ∷ b'4' ∷ b'5' ∷ b'6' ∷ b'7' ∷ b'8' ∷ b'9' ∷ b'0' ∷ b'-' ∷ b'=' ∷ 8
    ∷ 9 ∷ b'q' ∷ b'w' ∷ b'e' ∷ b'r' ∷ b't' ∷ b'y' ∷ b'u' ∷ b'i' ∷ b'o' ∷ b'p' ∷ b'[' ∷ b']' ∷ 10 ∷ 0
    ∷ b'a' ∷ b's' ∷ b'd' ∷ b'f' ∷ b'g' ∷ b'h' ∷ b'j' ∷ b'k' ∷ b'l' ∷ b';' ∷ 39 ∷ b'`' ∷ 0 ∷ 92
    ∷ b'z' ∷ b'x' ∷ b'c' ∷ b'v' ∷ b'b' ∷ b'n' ∷ b'm' ∷ b',' ∷ b'.' ∷ b'/' ∷ 0 ∷ b'*' ∷ 0 ∷ 32 ∷ []

abbrev pub scancode_shifted : List ℕ
scancode_shifted =
    0 ∷ 27 ∷ b'!' ∷ b'@' ∷ b'#' ∷ b'$' ∷ b'%' ∷ b'^' ∷ b'&' ∷ b'*' ∷ b'(' ∷ b')' ∷ b'_' ∷ b'+' ∷ 8
    ∷ 9 ∷ b'Q' ∷ b'W' ∷ b'E' ∷ b'R' ∷ b'T' ∷ b'Y' ∷ b'U' ∷ b'I' ∷ b'O' ∷ b'P' ∷ b'{' ∷ b'}' ∷ 10 ∷ 0
    ∷ b'A' ∷ b'S' ∷ b'D' ∷ b'F' ∷ b'G' ∷ b'H' ∷ b'J' ∷ b'K' ∷ b'L' ∷ b':' ∷ b'"' ∷ b'~' ∷ 0 ∷ b'|'
    ∷ b'Z' ∷ b'X' ∷ b'C' ∷ b'V' ∷ b'B' ∷ b'N' ∷ b'M' ∷ b'<' ∷ b'>' ∷ b'?' ∷ 0 ∷ b'*' ∷ 0 ∷ 32 ∷ []

-- The three flags of the handler.
pub record Modes : Type 0 where
  pub e0_pending : Bool
  pub shift_pressed : Bool
  pub caps_on : Bool

pub record Keyboard : Type 0 where
  pub key_buffer : ℕ → ℕ
  pub key_head : ℕ
  pub key_tail : ℕ
  pub modes : Modes

unfoldable pub key_buffer_push : ℕ → Keyboard → Keyboard
key_buffer_push c k =
    let next = (k.key_tail + 1) % key_buffer_size in
    if next == k.key_head
    then k
    else record k { key_buffer = update k.key_buffer k.key_tail c; key_tail = next }

-- The key of an extended scan code, `KEY_UP` (-2) to `KEY_INS` (-9).
unfoldable pub extended : ℕ → Option ℕ
extended code =
    if code == 0x48
    then some 254
    else if code == 0x50
    then some 253
    else if code == 0x4b
    then some 252
    else if code == 0x4d
    then some 251
    else if code == 0x47
    then some 250
    else if code == 0x4f
    then some 249
    else if code == 0x52
    then some 247
    else if code == 0x53
    then some 248
    else none

-- The character of a plain scan code, with shift and caps lock.
unfoldable pub plain : Modes → ℕ → Option ℕ
plain m code =
    let c = get_or (if m.shift_pressed then scancode_shifted else scancode_lower) code 0 in
    let c' = if leb b'a' c && leb c b'z' && m.caps_on then c - b'a' + b'A' else c in
    if leb 128 code || c' == 0 then none else some c'

abbrev is_shift : ℕ → Bool
is_shift code = code == 0x2a || code == 0x36

-- What a break code (a key's release) does.
unfoldable pub released : Modes → ℕ → Modes
released m code =
    if m.e0_pending
    then record m { e0_pending = false }
    else if is_shift (code % 0x80)
    then record m { shift_pressed = false }
    else m

-- The handler up to its call of `key_buffer_push`: the new flags, and the key to store if any.
unfoldable pub decode : Modes → ℕ → Modes × Option ℕ
decode m code =
    if code == 0xe0
    then (record m { e0_pending = true }, none)
    else if leb 0x80 code
    then (released m code, none)
    else if m.e0_pending
    then (record m { e0_pending = false }, extended code)
    else if is_shift code
    then (record m { shift_pressed = true }, none)
    else if code == 0x3a
    then (record m { caps_on = not m.caps_on }, none)
    else (m, plain m code)

abbrev pub push_some : Option ℕ → Keyboard → Keyboard
push_some none k = k
push_some (some c) k = key_buffer_push c k

-- `keyboard_callback`, on a scan code that is a byte.
unfoldable pub callback : ℕ → Keyboard → Keyboard
callback code k = let (m, key) = decode k.modes code in push_some key (record k { modes = m })

-- `none` stands for `KEY_NONE`.
unfoldable pub getchar : Keyboard → Option ℕ × Keyboard
getchar k = if k.key_head == k.key_tail then (none, k) else (
  some (k.key_buffer k.key_head),
  record k { key_head = (k.key_head + 1) % key_buffer_size },
)

-- What happens at the keyboard: an interrupt with a scan code, or a read by the shell.
pub data Event : Type 0 where
  scan : ℕ → Event
  read : Event

-- The results of the reads, in order.
unfoldable pub run : Keyboard → List Event → List (Option ℕ)
run k [] = []
run k (scan code ∷ es) = run (callback code k) es
run k (read ∷ es) = let (c, k') = getchar k in c ∷ run k' es
