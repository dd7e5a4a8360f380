-- ===== src/Shell/Expand.antt =====
-- src/tsh.c: history references, `!!` and `!n`. A number is below 2^31, so that its `int` does not
-- overflow.
use trait_os.Base.{ℕ, zero, suc, ◌+◌, ◌-◌, ◌*◌, ◌/◌, ◌%◌, ◌<◌, ◌≡◌, ◌≢◌, refl, ap, ◌∙◌, arith}
use trait_os.Base.{
  leb, ◌==◌, ◌&&◌, if◌then◌else◌, if_ind, Option, none, some, List, [], ◌∷◌, map, get_elem?, length,
}
use trait_os.Str.Number.{number_digits, push_digits}
use trait_os.Str.Digits.{push_digits-read, read_digits, number_digits-read}
use trait_os.Str.Format.{decimal}
use trait_os.Shell.{Text, History}

unfoldable pub parse_from : ℕ → Text → Option ℕ
parse_from v [] = some v
parse_from v (c ∷ s) =
    let rest = parse_from (v * 10 + (c - b'0')) s in if leb b'0' c && leb c b'9' then rest else none

unfoldable pub parse_num : Text → Option ℕ
parse_num [] = none
parse_num (c ∷ s) = parse_from 0 (c ∷ s)

-- The results 0, -1 and 1, the last with the line written to `out`.
pub data Expansion : Type 0 where
  no_reference missing : Expansion
  expanded : Text → Expansion

abbrev pub line_or_missing : Option Text → Expansion
line_or_missing none = missing
line_or_missing (some line) = expanded line

abbrev pub nth_line : Option ℕ → History → Expansion
nth_line none h = no_reference
nth_line (some i) h = line_or_missing (get_elem? h i)

abbrev pub last_line : History → Expansion
last_line h = if length h == 0 then missing else line_or_missing (get_elem? h (length h - 1))

unfoldable pub hist_expand : Text → History → Expansion
hist_expand [] h = no_reference
hist_expand (c ∷ []) h = if c == b'!' then nth_line (parse_num []) h else no_reference
hist_expand (c ∷ d ∷ []) h =
    if c == b'!'
    then if d == b'!' then last_line h else nth_line (parse_num (d ∷ [])) h
    else no_reference
hist_expand (c ∷ d ∷ e ∷ s) h =
    if c == b'!' then nth_line (parse_num (d ∷ e ∷ s)) h else no_reference

abbrev AllDigits : List ℕ → Type 0
AllDigits [] = Unit {0}
AllDigits (d ∷ ds) = (d < 10) × AllDigits ds

push_digits-AllDigits :
    (fuel u : ℕ) (tmp : List ℕ) → AllDigits tmp → AllDigits (push_digits 10 fuel u tmp)
unfolding push_digits
push_digits-AllDigits zero u tmp h = h
push_digits-AllDigits (suc fuel) u tmp h =
    if_ind AllDigits (u == 0) (λ _. h)
      (λ _. push_digits-AllDigits fuel (u / 10) (u % 10 ∷ tmp) (omega arith, h))

number_digits-AllDigits : (u : ℕ) → AllDigits (number_digits 10 u)
unfolding number_digits
number_digits-AllDigits u =
    if_ind AllDigits (u == 0) (λ _. (omega arith, tt)) (λ _. push_digits-AllDigits u u [] tt)

parse_from-digits :
    (v : ℕ) (ds : List ℕ)
    → AllDigits ds
    → parse_from v (map (λ d. b'0' + d) ds) ≡ some (read_digits 10 v ds)
unfolding parse_from
parse_from-digits v [] h = refl
parse_from-digits v (d ∷ ds) h =
    let same : b'0' + d - b'0' ≡ d = omega arith in
    if_ind (λ o. o ≡ some (read_digits 10 (v * 10 + d) ds))
      (leb b'0' (b'0' + d) && leb (b'0' + d) b'9')
      (λ _. rw same (parse_from-digits (v * 10 + d) ds h.1)) (λ n. absurd (ground (arith, h.0)))

number_digits-nonempty : (u : ℕ) → number_digits 10 u ≢ []
unfolding number_digits
number_digits-nonempty u =
    if_ind (λ ds. ds ≢ []) (u == 0) (λ _ e. absurd (omega (arith, ap length e)))
      (λ nz e. absurd (
        ground
          (arith, push_digits-read 10 u u [] (omega arith) (omega arith), ap (read_digits 10 0) e)))

-- A reference by `!` and a text of digits is looked up by the number that they make.
expand-digits :
    (ds : List ℕ) (h : History)
    → AllDigits ds
    → ds ≢ []
    → hist_expand (b'!' ∷ map (λ d. b'0' + d) ds) h
      ≡ line_or_missing (get_elem? h (read_digits 10 0 ds))
unfolding hist_expand parse_num
expand-digits [] h a ne = absurd (ne refl)
expand-digits (d ∷ []) h a ne =
    if_ind (λ x. x ≡ line_or_missing (get_elem? h (read_digits 10 0 (d ∷ [])))) (b'0' + d == b'!')
      (λ y. absurd (ground arith)) (λ _. ap (λ o. nth_line o h) (parse_from-digits 0 (d ∷ []) a))
expand-digits (d ∷ e ∷ ds) h a ne = ap (λ o. nth_line o h) (parse_from-digits 0 (d ∷ e ∷ ds) a)

-- A reference `!n`, with `n` printed in decimal, expands to line `n` of the history, counted from
-- the oldest line, and is refused if there is none.
pub hist_expand-decimal :
    (n : ℕ) (h : History) → hist_expand (b'!' ∷ decimal n) h ≡ line_or_missing (get_elem? h n)
hist_expand-decimal n h =
    expand-digits (number_digits 10 n) h (number_digits-AllDigits n) (number_digits-nonempty n)
    ∙ ap (λ i. line_or_missing (get_elem? h i)) (number_digits-read 10 n (omega arith))
