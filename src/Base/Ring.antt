-- ===== src/Base/Ring.antt =====
-- The contents of a ring in an array: `n` elements from index `h` on, going round at `cap`.
use Prim.Native.Nat.{ℕ, zero, suc, ◌+◌, ◌-◌, ◌%◌, ◌<◌, ◌≤◌}
use mathlib.Core.Path.{◌≡◌, refl, ap, ap₂, ◌∙◌}
use mathlib.Core.Logic.{◌≢◌}
use mathlib.Core.List.{List, [], ◌∷◌, ◌++◌}
use native.Mathlib.Nat.{mod-add-mod, mod-eq_of_lt, mod-eq-sub-mod, add-zero}
use native.Mathlib.Decide.{dec_lt}
use native.Mathlib.Omega.{arith}
use trait_os.Base.Lists.{length}
use trait_os.Base.Update.{update, update_self, update_ne}

-- Less than a lap beyond `cap`, the remainder is what is beyond.
lap-sub : (n cap : ℕ) → cap ≤ n → n - cap < cap → n % cap ≡ n - cap
lap-sub n cap le lt = mod-eq-sub-mod le ∙ mod-eq_of_lt lt

-- Fewer than `cap` steps round the ring do not come back to the start.
turn-ne : (cap h k : ℕ) → h < cap → suc k < cap → (h + suc k) % cap ≢ h
turn-ne cap h k hh hk same = elim (dec_lt (h + suc k) cap) [
  | yes inside ↦ absurd (omega (arith, mod-eq_of_lt inside))
  | no beyond ↦ absurd (omega (arith, lap-sub (h + suc k) cap (omega arith) (omega arith)))
]

turn-suc : (cap h n : ℕ) → (h + suc n) % cap ≡ ((h + 1) % cap + n) % cap
turn-suc cap h n = rw mod-add-mod (ap (λ k. k % cap) (omega arith))

module _ {ℓ} {A : Type ℓ} (cap : ℕ) where
  abbrev pub window : (ℕ → A) → ℕ → ℕ → List A
  window buf h zero = []
  window buf h (suc n) = buf h ∷ window buf ((h + 1) % cap) n

  pub length-window : (buf : ℕ → A) (h n : ℕ) → length (window buf h n) ≡ n
  length-window buf h zero = refl
  length-window buf h (suc n) = ap suc (length-window buf ((h + 1) % cap) n)

  -- The code tests `n == 0` where `window` matches on `suc`.
  pub window_pos :
      (buf : ℕ → A) (h n : ℕ) → n ≢ 0 → window buf h n ≡ buf h ∷ window buf ((h + 1) % cap) (n - 1)
  window_pos buf h zero p = absurd (p refl)
  window_pos buf h (suc n) p = ap (λ k. window buf h (suc k)) (omega arith)

  -- A write just behind a window appends the value to it.
  window-update_at :
      (buf : ℕ → A) (x : A) (n h i : ℕ)
      → h < cap
      → n < cap
      → i ≡ (h + n) % cap
      → window (update buf i x) h (suc n) ≡ window buf h n ++ (x ∷ [])
  window-update_at buf x zero h i hh hn e = rw (e, add-zero, mod-eq_of_lt hh, update_self buf h x)
  window-update_at buf x (suc n) h i hh hn e =
      ap₂ ◌∷◌ (update_ne buf x (rw e (turn-ne cap h n hh hn))) (
        window-update_at buf x n ((h + 1) % cap) i (omega arith) (omega arith)
          (e ∙ turn-suc cap h n))

  pub window-update :
      (buf : ℕ → A) (x : A) (n h : ℕ)
      → h < cap
      → n < cap
      → window (update buf ((h + n) % cap) x) h (suc n) ≡ window buf h n ++ (x ∷ [])
  window-update buf x n h hh hn = window-update_at buf x n h ((h + n) % cap) hh hn refl
