-- ===== src/Str/Moves.antt =====
-- What the copying routines leave in memory.
use trait_os.Base.{
  refl, ℕ, zero, suc, ◌+◌, ◌-◌, ◌≤◌, ◌≡◌, ◌⊎◌, inl, inr, arith, ltb, leb, ◌&&◌, if◌then◌else◌,
  if_ind,
}
use trait_os.Base.{◌∙◌, ap}
use trait_os.Base.Update.{update}
use trait_os.Str.Memory.{Memory, copy_up, copy_down, memcpy, memmove}

-- The byte at `a` once the bytes from `i` up to `n` have been copied.
abbrev moved : ℕ → ℕ → ℕ → ℕ → Memory → ℕ → ℕ
moved dst src i n mem a =
    if leb (dst + i) a && ltb a (dst + n) then mem (src + (a - dst)) else mem a

copy_up-moved :
    (dst src rounds i : ℕ) (mem : Memory) (a : ℕ)
    → (dst ≤ src) ⊎ (src + i + rounds ≤ dst)
    → copy_up dst src rounds i mem a ≡ moved dst src i (i + rounds) mem a
unfolding copy_up
copy_up-moved dst src zero i mem a apart = ground arith
copy_up-moved dst src (suc rounds) i mem a apart =
    copy_up-moved dst src rounds (i + 1) (update mem (dst + i) (mem (src + i))) a
      (apart_after apart)
    ∙ grind (arith, here, apart)
  where
    apart_after :
        (dst ≤ src) ⊎ (src + i + suc rounds ≤ dst) → (dst ≤ src) ⊎ (src + (i + 1) + rounds ≤ dst)
    apart_after (inl le) = inl le
    apart_after (inr le) = inr (omega arith)

    here : dst + i ≡ a → mem (src + i) ≡ mem (src + (a - dst))
    here e = let same : i ≡ a - dst = omega arith in ap (λ k. mem (src + k)) same

copy_down-moved :
    (dst src n : ℕ) (mem : Memory) (a : ℕ)
    → src ≤ dst
    → copy_down dst src n mem a ≡ moved dst src 0 n mem a
unfolding copy_down
copy_down-moved dst src zero mem a le = ground arith
copy_down-moved dst src (suc n) mem a le =
    copy_down-moved dst src n (update mem (dst + n) (mem (src + n))) a le ∙ grind (arith, here)
  where
    here : dst + n ≡ a → mem (src + n) ≡ mem (src + (a - dst))
    here e = let same : n ≡ a - dst = omega arith in ap (λ k. mem (src + k)) same

-- `tmemmove` leaves in the destination the bytes that the source held before, however the two
-- ranges overlap, and every byte outside the destination as it was.
pub memmove-moved :
    (dst src n : ℕ) (mem : Memory) (a : ℕ)
    → memmove dst src n mem a
      ≡ (if leb dst a && ltb a (dst + n) then mem (src + (a - dst)) else mem a)
unfolding memmove
memmove-moved dst src n mem a =
    if_ind P (ltb dst src)
      (λ up. copy_up-moved dst src n 0 mem a (inl (ground arith)) ∙ ground arith)
      (λ not_up.
        if_ind P (ltb src dst)
          (λ down. copy_down-moved dst src n mem a (ground arith) ∙ ground arith)
          (λ not_down.
            let same : dst ≡ src = ground arith in
            if_ind (λ x. mem a ≡ x) (leb dst a && ltb a (dst + n))
              (λ inside. here same (ground arith)) (λ outside. refl)))
  where
    P : Memory → Type 0
    P mem' = mem' a ≡ (if leb dst a && ltb a (dst + n) then mem (src + (a - dst)) else mem a)

    here : dst ≡ src → dst ≤ a → mem a ≡ mem (src + (a - dst))
    here e le = ap mem (omega arith)

-- `tmemcpy` does the same when the destination does not start inside the source.
pub memcpy-moved :
    (dst src n : ℕ) (mem : Memory) (a : ℕ)
    → (dst ≤ src) ⊎ (src + n ≤ dst)
    → memcpy dst src n mem a
      ≡ (if leb dst a && ltb a (dst + n) then mem (src + (a - dst)) else mem a)
unfolding memcpy
memcpy-moved dst src n mem a apart =
    copy_up-moved dst src n 0 mem a (from_zero apart) ∙ ground arith
  where
    from_zero : (dst ≤ src) ⊎ (src + n ≤ dst) → (dst ≤ src) ⊎ (src + 0 + n ≤ dst)
    from_zero (inl le) = inl le
    from_zero (inr le) = inr (omega arith)
