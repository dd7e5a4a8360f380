-- ===== src/Tfs/Path.antt =====
-- src/tfs.c: how the walks of `resolve_create` and `tfs_lookup` cut a path into segments. A path
-- is the list of its bytes before the terminating zero.
use trait_os.Base.{ℕ, List, [], ◌∷◌, Bool, true, false, ◌&&◌, ◌==◌, if◌then◌else◌}
use trait_os.Base.{◌≡◌, refl, arith}

-- A segment, and whether `*p` is non-zero where the scan of it stops.
pub record Piece : Type 0 where
  pub text : List ℕ
  pub more : Bool

-- A byte before the first segment of the rest.
unfoldable pub extend : ℕ → List Piece → List Piece
extend c [] = record { text = c ∷ []; more = false } ∷ []
extend c (s ∷ ps) = record s { text = c ∷ s.text } ∷ ps

-- The byte `c` of a segment, given what follows it and the segments of that.
unfoldable pub join : ℕ → List ℕ → List Piece → List Piece
join c [] ps = record { text = c ∷ []; more = false } ∷ []
join c (d ∷ p) ps = if d == b'/' then record { text = c ∷ []; more = true } ∷ ps else extend c ps

-- The segments that `while (*p == '/') p++; seg = p; while (*p && *p != '/') p++;` finds in turn.
unfoldable pub pieces : List ℕ → List Piece
pieces [] = []
pieces (c ∷ p) = if c == b'/' then pieces p else join c p (pieces p)

unfoldable pub is_dot : List ℕ → Bool
is_dot (c ∷ []) = c == b'.'
is_dot _ = false

unfoldable pub is_dotdot : List ℕ → Bool
is_dotdot (c ∷ d ∷ []) = (c == b'.') && (d == b'.')
is_dotdot _ = false

unfoldable pub same_name : List ℕ → List ℕ → Bool
same_name [] [] = true
same_name [] (y ∷ ys) = false
same_name (x ∷ xs) [] = false
same_name (x ∷ xs) (y ∷ ys) = (x == y) && same_name xs ys

pub same_name_refl : (xs : List ℕ) → same_name xs xs ≡ true
unfolding same_name
same_name_refl [] = refl
same_name_refl (x ∷ xs) = ground (arith, same_name_refl xs)

pub same_name_sound : (xs ys : List ℕ) → same_name xs ys ≡ true → xs ≡ ys
unfolding same_name
same_name_sound [] [] h = refl
same_name_sound [] (y ∷ ys) h = cc
same_name_sound (x ∷ xs) [] h = cc
same_name_sound (x ∷ xs) (y ∷ ys) h = ground (arith, same_name_sound xs ys)
