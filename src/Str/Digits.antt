-- ===== src/Str/Digits.antt =====
-- The digits that are printed read back as the number, and printing stays inside the buffer.
use native.Mathlib.Nat.{mod-add-div', div-lt_self}
use trait_os.Base.{◌^◌}
use trait_os.Base.{ℕ, zero, suc, ◌+◌, ◌*◌, ◌/◌, ◌%◌, ◌≤◌, ◌<◌, ◌≡◌, ◌≢◌, ◌⊎◌, refl, ap, ◌∙◌, arith}
use trait_os.Base.{ltb, ◌==◌, if◌then◌else◌, if_ind, List, [], ◌∷◌, length, map}
use trait_os.Base.Update.{update}
use trait_os.Str.Memory.{Memory}
use trait_os.Str.Number.{
  digit_char, push_digits, number_digits, buf_put, buf_put_all, buf_putu, buf_putx,
}

-- Reading digits, most significant first, after a number `n`.
abbrev pub read_digits : ℕ → ℕ → List ℕ → ℕ
read_digits base n [] = n
read_digits base n (d ∷ ds) = read_digits base (n * base + d) ds

halve : (base u fuel : ℕ) → 2 ≤ base → u ≢ 0 → u ≤ suc fuel → u / base ≤ fuel
halve base u fuel b nz h =
    let less : u / base < u = div-lt_self (omega arith) (omega arith) in omega arith

pub push_digits-read :
    (base fuel u : ℕ) (tmp : List ℕ)
    → 2 ≤ base
    → u ≤ fuel
    → read_digits base 0 (push_digits base fuel u tmp) ≡ read_digits base u tmp
unfolding push_digits
push_digits-read base zero u tmp b h = ap (λ n. read_digits base n tmp) (omega arith)
push_digits-read base (suc fuel) u tmp b h =
    if_ind (λ ds. read_digits base 0 ds ≡ read_digits base u tmp) (u == 0)
      (λ z. ap (λ n. read_digits base n tmp) (ground arith))
      (λ nz.
        push_digits-read base fuel (u / base) (u % base ∷ tmp) b
          (halve base u fuel b (ground arith) h)
        ∙ ap (λ n. read_digits base n tmp) (omega (arith, mod-add-div' u base)))

pub number_digits-read : (base u : ℕ) → 2 ≤ base → read_digits base 0 (number_digits base u) ≡ u
unfolding number_digits
number_digits-read base u b =
    if_ind (λ ds. read_digits base 0 ds ≡ u) (u == 0) (λ z. ground arith)
      (λ nz. push_digits-read base u u [] b (omega arith))

-- An address that is not one of the first `cap - 1` of the buffer.
abbrev pub Outside : ℕ → ℕ → ℕ → Type 0
Outside buf cap a = (a < buf) ⊎ (buf + cap ≤ a + 1)

pub buf_put_all-Outside :
    (buf cap i : ℕ) (cs : List ℕ) (mem : Memory) (a : ℕ)
    → Outside buf cap a
    → ((buf_put_all buf cap i cs mem).0 ≡ i + length cs)
      × ((buf_put_all buf cap i cs mem).1 a ≡ mem a)
unfolding buf_put_all buf_put
buf_put_all-Outside buf cap i [] mem a out = (omega arith, refl)
buf_put_all-Outside buf cap i (c ∷ cs) mem a out =
    let mem' : Memory = if ltb (i + 1) cap then update mem (buf + i) c else mem in
    let r = buf_put_all-Outside buf cap (i + 1) cs mem' a out in (omega (arith, r.0), r.1 ∙ kept)
  where
    kept : (if ltb (i + 1) cap then update mem (buf + i) c else mem) a ≡ mem a
    kept =
        if_ind (λ (m : Memory). m a ≡ mem a) (ltb (i + 1) cap) (λ fits. grind (arith, out))
          (λ _. refl)

length-map : (f : ℕ → ℕ) (xs : List ℕ) → length (map f xs) ≡ length xs
length-map f [] = refl
length-map f (x ∷ xs) = ap suc (length-map f xs)

-- Printing a number in decimal or in hexadecimal to a buffer of `cap` bytes writes none but the
-- first `cap - 1` bytes of it, whatever the index, so a place for the terminator is left; and the
-- index moves on by the number of digits, also past the end.
pub buf_putu-Outside :
    (buf cap i u : ℕ) (mem : Memory) (a : ℕ)
    → Outside buf cap a
    → ((buf_putu buf cap i u mem).0 ≡ i + length (number_digits 10 (u % 2 ^ 32)))
      × ((buf_putu buf cap i u mem).1 a ≡ mem a)
      × ((buf_putx buf cap i u mem).0 ≡ i + length (number_digits 16 (u % 2 ^ 32)))
      × ((buf_putx buf cap i u mem).1 a ≡ mem a)
unfolding buf_putu buf_putx
buf_putu-Outside buf cap i u mem a out =
    let d = buf_put_all-Outside buf cap i (map _ (number_digits 10 (u % 2 ^ 32))) mem a out in
    let x = buf_put_all-Outside buf cap i (map _ (number_digits 16 (u % 2 ^ 32))) mem a out in
    (
      omega (arith, d.0, length-map (λ d. b'0' + d) (number_digits 10 (u % 2 ^ 32))),
      d.1,
      omega (arith, x.0, length-map digit_char (number_digits 16 (u % 2 ^ 32))),
      x.1,
    )
