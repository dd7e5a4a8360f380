-- ===== src/Str/Number.antt =====
-- src/tstring.c: numbers as text, and the bounded buffer that `tsprintf` prints to.
use trait_os.Base.{
  ℕ, zero, suc, ◌+◌, ◌/◌, ◌%◌, ltb, ◌==◌, if◌then◌else◌, List, [], ◌∷◌, get_or, map, ◌^◌, Option,
  none, some, length,
}
use trait_os.Base.Update.{update}
use trait_os.Str.Memory.{Memory}

-- The digits of `u`, most significant first: the loop pushes them on `tmp`, last digit first, and
-- they are popped again. With `fuel` at least `u` the loop runs to its end.
unfoldable pub push_digits : ℕ → ℕ → ℕ → List ℕ → List ℕ
push_digits base zero u tmp = tmp
push_digits base (suc fuel) u tmp =
    let rest = push_digits base fuel (u / base) (u % base ∷ tmp) in if u == 0 then tmp else rest

-- A 32-bit number is never long enough for `tmp` in bases 10 and 16, which are all that `buf_putu` and
-- `buf_putx` use; `itoa` has the array's bound for the other bases.
unfoldable pub number_digits : ℕ → ℕ → List ℕ
number_digits base u = if u == 0 then 0 ∷ [] else push_digits base u u []

-- "0123456789abcdef"
abbrev pub digit_chars : List ℕ
digit_chars =
    b'0' ∷ b'1' ∷ b'2' ∷ b'3' ∷ b'4' ∷ b'5' ∷ b'6' ∷ b'7' ∷ b'8' ∷ b'9' ∷ b'a' ∷ b'b' ∷ b'c' ∷ b'd'
    ∷ b'e' ∷ b'f' ∷ []

abbrev pub digit_char : ℕ → ℕ
digit_char d = get_or digit_chars d 0

-- The last loop of `titoa`, which writes from index `n` on and then the terminator.
unfoldable pub write_text : ℕ → ℕ → List ℕ → Memory → Memory
write_text buf n [] mem = update mem (buf + n) 0
write_text buf n (c ∷ cs) mem = write_text buf (n + 1) cs (update mem (buf + n) c)

-- `none` is a write past the end of `tmp`, which has 16 bytes; `base` is from 2 to 16.
unfoldable pub itoa : ℕ → ℕ → ℕ → Memory → Option Memory
itoa val buf base mem =
    let digits = number_digits base (val % 2 ^ 32) in
    if ltb 16 (length digits) then none else some (write_text buf 0 (map digit_char digits) mem)

-- `buf_put`: the index counts every character, also those that do not fit.
unfoldable pub buf_put : ℕ → ℕ → ℕ → ℕ → Memory → Memory
buf_put buf cap i c mem = if ltb (i + 1) cap then update mem (buf + i) c else mem

unfoldable pub buf_put_all : ℕ → ℕ → ℕ → List ℕ → Memory → ℕ × Memory
buf_put_all buf cap i [] mem = (i, mem)
buf_put_all buf cap i (c ∷ cs) mem = buf_put_all buf cap (i + 1) cs (buf_put buf cap i c mem)

unfoldable pub buf_putu : ℕ → ℕ → ℕ → ℕ → Memory → ℕ × Memory
buf_putu buf cap i u mem =
    buf_put_all buf cap i (map (λ d. b'0' + d) (number_digits 10 (u % 2 ^ 32))) mem

unfoldable pub buf_putx : ℕ → ℕ → ℕ → ℕ → Memory → ℕ × Memory
buf_putx buf cap i u mem =
    buf_put_all buf cap i (map digit_char (number_digits 16 (u % 2 ^ 32))) mem
