-- ===== src/Base/Update.antt =====
-- A C array as the function from its indices to its elements, with a write at one index.
-- Where the code can leave the bounds, the model of that code says what happens.
use Prim.Native.Nat.{ℕ}
use mathlib.Core.Path.{◌≡◌}
use mathlib.Core.Logic.{◌≢◌}
use native.Mathlib.Omega.{arith}
use trait_os.Base.Tests.{◌==◌, if◌then◌else◌}

module _ {ℓ} {A : Type ℓ} where
  abbrev pub update : (ℕ → A) → ℕ → A → ℕ → A
  update f i v j = if i == j then v else f j

  pub update_self : (f : ℕ → A) (i : ℕ) (v : A) → update f i v i ≡ v
  update_self f i v = ground arith

  pub update_ne : (f : ℕ → A) {i j : ℕ} (v : A) → i ≢ j → update f i v j ≡ f j
  update_ne f v h = ground arith
