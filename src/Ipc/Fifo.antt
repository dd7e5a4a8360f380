-- ===== src/Ipc/Fifo.antt =====
-- What the rings of src/tipc_core.h promise: a first-in first-out queue of at most `cap` elements.
use trait_os.Base.{ℕ, Option, none, some, List, [], ◌∷◌, ◌++◌, ltb, length}
use trait_os.Base.{if◌then◌else◌, ◌≡◌, refl, ◌⊎◌, inl, inr}

-- The `int` result of a function that returns 0 or -1.
pub data Rc : Type 0 where
  ok fail : Rc

pub rc_cases : (rc : Rc) → (rc ≡ ok) ⊎ (rc ≡ fail)
rc_cases ok = inl refl
rc_cases fail = inr refl

-- A branch on such a result, `if (f(...) == 0) a; else b;`.
abbrev pub on_rc {ℓ} : {A : Type ℓ} → Rc → A → A → A
on_rc ok a b = a
on_rc fail a b = b

pub on_rc_ind {ℓ κ} :
    {A : Type ℓ} (P : A → Type κ) (rc : Rc) {a b : A}
    → (rc ≡ ok → P a)
    → (rc ≡ fail → P b)
    → P (on_rc rc a b)
on_rc_ind P ok f g = f refl
on_rc_ind P fail f g = g refl

-- A client's calls on a queue, and what it sees of one.
pub data Op {ℓ} (A : Type ℓ) : Type ℓ where
  put : A → Op A
  get : Op A

pub data Reply {ℓ} (A : Type ℓ) : Type ℓ where
  stored : Rc → Reply A
  fetched : Option A → Reply A

module _ {ℓ} {A : Type ℓ} where
  unfoldable pub push : ℕ → List A → A → Rc × List A
  push cap q x = if ltb (length q) cap then (ok, q ++ (x ∷ [])) else (fail, q)

  unfoldable pub pop : List A → Option A × List A
  pop [] = (none, [])
  pop (x ∷ q) = (some x, q)

  unfoldable pub run : ℕ → List A → List (Op A) → List (Reply A)
  run cap q [] = []
  run cap q (put x ∷ ops) = let (rc, q') = push cap q x in stored rc ∷ run cap q' ops
  run cap q (get ∷ ops) = let (out, q') = pop q in fetched out ∷ run cap q' ops
