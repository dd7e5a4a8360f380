-- ===== src/Scenario/Str.antt =====
-- Runs of the memory and number routines of src/tstring.c.
use trait_os.Base.{ℕ}
use trait_os.Str.Number.{buf_put_all}
use trait_os.Base.{◌∷◌, [], List, length}
use trait_os.Base.{min, none, some, Option, ◌%◌, ◌^◌, ◌-◌}
use trait_os.Str.Format.{sprintf, formatted, conversion, sprintf-bounded}
use trait_os.Base.{◌+◌, ◌≡◌, inr, refl, arith}
use trait_os.Str.Memory.{Memory, memmove, copy_down}
use trait_os.Str.Number.{number_digits, push_digits, itoa, write_text}

-- Byte 100 + a at address a.
abbrev memory : Memory
memory a = 100 + a

abbrev option_byte : Option Memory → ℕ → Option ℕ
option_byte none a = none
option_byte (some mem) a = some (mem a)

-- Four bytes moved up by two, over themselves.
memmove-overlap : (memmove 12 10 4 memory 12 ≡ 110) × (memmove 12 10 4 memory 15 ≡ 113)
unfolding memmove copy_down
memmove-overlap = (refl, refl)

-- 255 in base 16, and a number of 32 digits in base 2, for which `tmp` is too short.
itoa-runs :
    (option_byte (itoa 255 0 16 memory) 0 ≡ some b'f')
    × (option_byte (itoa 255 0 16 memory) 2 ≡ some 0)
    × (option_byte (itoa (2 ^ 32 - 1) 0 2 memory) 0 ≡ none)
unfolding itoa write_text number_digits push_digits
itoa-runs = (refl, refl, refl)

sprintf-bounded_example :
    let r = sprintf (λ k. 1024) (λ k. none) 20 4 (b'%' ∷ b'd' ∷ b'!' ∷ []) memory in
    let n = length (formatted (λ k. 1024) (λ k. none) (b'%' ∷ b'd' ∷ b'!' ∷ []) 0) in
    (r.1 24 ≡ 124) × (r.1 (20 + min n 3) ≡ 0) × (r.0 ≡ n % 2 ^ 32)
sprintf-bounded_example =
    sprintf-bounded (λ k. 1024) (λ k. none) 20 4 (b'%' ∷ b'd' ∷ b'!' ∷ []) memory 24 (omega arith)
      (inr (omega arith))

sprintf-text : (sprintf (λ k. 1024) (λ k. none) 20 4 (b'%' ∷ b'd' ∷ b'!' ∷ []) memory).0 ≡ 5
unfolding sprintf formatted conversion number_digits push_digits buf_put_all
sprintf-text = refl

abbrev first : List ℕ
first = 1 ∷ 2 ∷ []

abbrev second : List ℕ
second = 1 ∷ 3 ∷ []

abbrev start : List ℕ
start = 1 ∷ []
