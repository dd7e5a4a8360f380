-- ===== src/Sec/Slots.antt =====
-- What the choice of a slot in src/tsec.c promises.
use trait_os.Base.{
  ℕ, zero, suc, ◌+◌, ◌-◌, ◌*◌, ◌/◌, ◌%◌, ◌≤◌, ◌<◌, ◌≡◌, sym, ap, ◌∙◌, arith, if_ind, true, false,
  ◌⊎◌,
}
use trait_os.Base.{Option, none, some}
use native.Mathlib.Decide.{dec_lt}
use trait_os.Pmm.State.{Pmm, page_size, frame_used, frame_of}
use trait_os.Pmm.Valid.{bits}
use trait_os.Sec.Kaslr.{
  kaslr_win_lo, kaslr_win_hi, window_size, slots, Ranges, slot_base, frames_free, suits, pick_base,
  kaslr_base,
}

-- The frames from `f` up to `e` are free.
frames_free-lem :
    (rounds i base : ℕ) (p : Pmm)
    → frames_free rounds i base p ≡ true
    → (k : ℕ) → i ≤ k
    → k < i + rounds
    → frame_used (base + k * page_size) p ≡ 0
unfolding frames_free
frames_free-lem zero i base p h k lo hi = absurd (omega arith)
frames_free-lem (suc rounds) i base p h k lo hi = elim (dec_lt i k) [
  | yes lt ↦ frames_free-lem rounds (i + 1) base p (ground (arith, h)) k (omega arith) (omega arith)
  | no ge ↦
      let same : k ≡ i = omega arith in
      ap (λ n. frame_used (base + n * page_size) p) same ∙ ground (arith, h)
]

-- A slot that may be used: in the window, apart from the image and the module, all of it free.
pub record Usable (r : Ranges) (p : Pmm) (base : ℕ) : Type 0 where
  pub aligned : base % window_size ≡ 0
  pub low : kaslr_win_lo ≤ base
  pub high : base + window_size ≤ kaslr_win_hi
  pub image_apart : (r.image_end ≤ base) ⊎ (base + window_size ≤ r.image)
  pub mod_apart : r.have_mod ≡ true → (r.mod_end ≤ base) ⊎ (base + window_size ≤ r.mod_start)
  pub free : (f : ℕ) → base / page_size ≤ f → f < (base + window_size) / page_size → bits p f ≡ 0

suits-Usable :
    (r : Ranges) (p : Pmm) (slot : ℕ)
    → slot < slots
    → suits r p (slot_base slot) ≡ true
    → Usable r p (slot_base slot)
unfolding suits slot_base frame_used
suits-Usable r p slot lt h = record {
  aligned = omega arith;
  low = omega arith;
  high = omega arith;
  image_apart = ground (arith, h);
  mod_apart = λ m. ground (arith, h, m);
  free = λ f lo hi.
      let place : frame_of (slot_base slot + (f - slot_base slot / page_size) * page_size) ≡ f =
        omega arith in
      ap (bits p) (sym place) ∙ all_free (f - slot_base slot / page_size) (omega arith);
}
  where
    all_free : (k : ℕ) → k < 512 → bits p (frame_of (slot_base slot + k * page_size)) ≡ 0
    all_free k small =
        frames_free-lem (window_size / page_size) 0 (slot_base slot) p (ground (arith, h)) k
          (omega arith) (omega arith)

-- What the loop finds among its rounds.
abbrev PickOk : ℕ → ℕ → ℕ → Ranges → Pmm → Option ℕ → Type 0
PickOk rounds n start r p none =
    (k : ℕ) → n ≤ k → k < n + rounds → suits r p (slot_base ((start + k) % slots)) ≡ false
PickOk rounds n start r p (some base) = Usable r p base

PickOk-later :
    (rounds n start : ℕ) (r : Ranges) (p : Pmm) (o : Option ℕ)
    → suits r p (slot_base ((start + n) % slots)) ≡ false
    → PickOk rounds (n + 1) start r p o
    → PickOk (suc rounds) n start r p o
PickOk-later rounds n start r p (some base) h u = u
PickOk-later rounds n start r p none h later = λ k lo hi. elim (dec_lt n k) [
  | yes lt ↦ later k (omega arith) (omega arith)
  | no ge ↦
      let same : k ≡ n = omega arith in
      ap (λ m. suits r p (slot_base ((start + m) % slots))) same ∙ h
]

pick_base-PickOk :
    (rounds n start : ℕ) (r : Ranges) (p : Pmm)
    → PickOk rounds n start r p (pick_base rounds n start r p)
unfolding pick_base
pick_base-PickOk zero n start r p = λ k lo hi. absurd (omega arith)
pick_base-PickOk (suc rounds) n start r p =
    if_ind (PickOk (suc rounds) n start r p) (suits r p (slot_base ((start + n) % slots)))
      (suits-Usable r p ((start + n) % slots) (omega arith))
      (λ h.
        PickOk-later rounds n start r p (pick_base rounds (n + 1) start r p) h
          (pick_base-PickOk rounds (n + 1) start r p))

-- What the choice gives: a usable slot, or that no slot of the window passes the tests.
abbrev pub Chosen : Ranges → Pmm → Option ℕ → Type 0
Chosen r p none = (slot : ℕ) → slot < slots → suits r p (slot_base slot) ≡ false
Chosen r p (some base) = Usable r p base

-- For every random number, the loop of `sec_kaslr_relocate` goes on with a slot that lies in the window
-- on a 2 MiB boundary, meets neither the image nor the module, and has only free frames; it finds
-- none only if none of the 48 slots passes its tests.
pub kaslr_base-Chosen : (entropy : ℕ) (r : Ranges) (p : Pmm) → Chosen r p (kaslr_base entropy r p)
unfolding kaslr_base
kaslr_base-Chosen entropy r p =
    by_result (pick_base slots 0 (entropy % slots) r p)
      (pick_base-PickOk slots 0 (entropy % slots) r p)
  where
    by_result : (o : Option ℕ) → PickOk slots 0 (entropy % slots) r p o → Chosen r p o
    by_result (some base) u = u
    by_result none all = λ slot lt.
        let round = (slot + 48 - entropy % 48) % 48 in
        let turn : (entropy % slots + round) % slots ≡ slot = omega arith in
        ap (λ s. suits r p (slot_base s)) (sym turn) ∙ all round (omega arith) (omega arith)
