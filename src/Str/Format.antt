-- ===== src/Str/Format.antt =====
-- src/tstring.c: `tsprintf`. The k-th variadic argument is `ints k` read as a number, and `texts k`
-- read as a string, `none` for the null pointer.
use trait_os.Base.{ℕ, ◌+◌, ◌-◌, ◌%◌, ◌^◌, ◌≤◌, ◌<◌, ◌≡◌, ◌⊎◌, inl, inr, ◌∙◌, ap, subst, arith, min}
use trait_os.Base.{
  ltb, leb, ◌==◌, if◌then◌else◌, Option, none, some, List, [], ◌∷◌, ◌++◌, map, length,
}
use trait_os.Base.Update.{update}
use trait_os.Str.Memory.{Memory}
use trait_os.Str.Number.{number_digits, digit_char, buf_put_all}
use trait_os.Str.Digits.{Outside, buf_put_all-Outside}

abbrev pub decimal : ℕ → List ℕ
decimal u = map (λ d. b'0' + d) (number_digits 10 u)

abbrev pub hexadecimal : ℕ → List ℕ
hexadecimal u = map digit_char (number_digits 16 u)

-- An `int` in two's complement; -2^31 is its own negation.
abbrev pub signed : ℕ → List ℕ
signed v = if leb (2 ^ 31) v then b'-' ∷ decimal (2 ^ 32 - v) else decimal v

abbrev pub text_or_null : Option (List ℕ) → List ℕ
text_or_null none = b'(' ∷ b'n' ∷ b'u' ∷ b'l' ∷ b'l' ∷ b')' ∷ []
text_or_null (some t) = t

-- What a conversion letter prints, and how many arguments it takes; `none` for any other letter.
unfoldable pub conversion : (ℕ → ℕ) → (ℕ → Option (List ℕ)) → ℕ → ℕ → Option (List ℕ × ℕ)
conversion ints texts c k =
    if c == b'%'
    then some (b'%' ∷ [], 0)
    else if c == b's'
    then some (text_or_null (texts k), 1)
    else if c == b'd'
    then some (signed (ints k % 2 ^ 32), 1)
    else if c == b'u'
    then some (decimal (ints k % 2 ^ 32), 1)
    else if c == b'x'
    then some (hexadecimal (ints k % 2 ^ 32), 1)
    else if c == b'p'
    then some (b'0' ∷ b'x' ∷ hexadecimal (ints k % 2 ^ 32), 1)
    else if c == b'c'
    then some (ints k % 2 ^ 8 ∷ [], 1)
    else none

-- The characters that the loop puts, in order, from argument `k` on. A letter that is no
-- conversion is left in the format, behind the `%` that is printed.
unfoldable pub formatted : (ℕ → ℕ) → (ℕ → Option (List ℕ)) → List ℕ → ℕ → List ℕ
formatted ints texts [] k = []
formatted ints texts (c ∷ []) k = c ∷ []
formatted ints texts (c ∷ d ∷ fmt) k =
    let plain = formatted ints texts (d ∷ fmt) k in
    let converted : List ℕ = elim (conversion ints texts d k) [
      | none ↦ c ∷ formatted ints texts (d ∷ fmt) k
      | some t ↦ t.0 ++ formatted ints texts fmt (k + t.1)
    ] in
    if c == b'%' then converted else c ∷ plain

-- The terminator, for the index that the loop ends with.
unfoldable pub terminate : ℕ → ℕ → ℕ → Memory → Memory
terminate buf cap i mem =
    if ltb i cap
    then update mem (buf + i) 0
    else if ltb 0 cap
    then update mem (buf + (cap - 1)) 0
    else mem

-- The index is returned as an `int`, here by its 32 bits.
unfoldable pub sprintf : (ℕ → ℕ) → (ℕ → Option (List ℕ)) → ℕ → ℕ → List ℕ → Memory → ℕ × Memory
sprintf ints texts buf cap fmt mem =
    let (i, mem') = buf_put_all buf cap 0 (formatted ints texts fmt 0) mem in
    (i % 2 ^ 32, terminate buf cap i mem')

terminate-kept :
    (buf cap i : ℕ) (mem : Memory) (a : ℕ)
    → (a < buf) ⊎ (buf + cap ≤ a)
    → terminate buf cap i mem a ≡ mem a
unfolding terminate
terminate-kept buf cap i mem a out = grind (arith, out)

terminate-zero :
    (buf cap i : ℕ) (mem : Memory) → 0 < cap → terminate buf cap i mem (buf + min i (cap - 1)) ≡ 0
unfolding terminate
terminate-zero buf cap i mem pos = grind arith

-- For every format, all arguments and a buffer of `cap` bytes, at least one: `tsprintf` writes nothing
-- outside of the buffer; it leaves a terminator in it, behind the text or, when the text does not
-- fit, in the last byte; and it returns the length of the whole text modulo 2^32, also when that did
-- not fit.
pub sprintf-bounded :
    (ints : ℕ → ℕ) (texts : ℕ → Option (List ℕ)) (buf cap : ℕ) (fmt : List ℕ) (mem : Memory) (a : ℕ)
    → 0 < cap
    → (a < buf) ⊎ (buf + cap ≤ a)
    → let (n, mem') = sprintf ints texts buf cap fmt mem in
      (mem' a ≡ mem a)
      × (mem' (buf + min (length (formatted ints texts fmt 0)) (cap - 1)) ≡ 0)
      × (n ≡ length (formatted ints texts fmt 0) % 2 ^ 32)
unfolding sprintf
sprintf-bounded ints texts buf cap fmt mem a pos out =
    let t = formatted ints texts fmt 0 in
    let r = buf_put_all-Outside buf cap 0 t mem a (farther out) in
    let e : (buf_put_all buf cap 0 t mem).0 ≡ length t = omega (arith, r.0) in
    let zero_at =
      terminate-zero buf cap (buf_put_all buf cap 0 t mem).0 (buf_put_all buf cap 0 t mem).1 pos in
    (
      terminate-kept buf cap _ _ a out ∙ r.1,
      subst
          (λ i.
            terminate buf cap (buf_put_all buf cap 0 t mem).0 (buf_put_all buf cap 0 t mem).1
              (buf + min i (cap - 1))
            ≡ 0)
          e zero_at,
      ap (λ i. i % 2 ^ 32) e,
    )
  where
    farther : (a < buf) ⊎ (buf + cap ≤ a) → Outside buf cap a
    farther (inl lt) = inl lt
    farther (inr le) = inr (omega arith)
