-- ===== src/Str/Text.antt =====
-- src/tstring.c: the routines that compare and search strings. A string is the list of its bytes
-- before the terminator, none of them 0.
use trait_os.Base.{ℕ, zero, suc, ◌+◌, ◌≡◌, ◌≢◌, refl, ap₂, sym, arith, ◌↔◌}
use trait_os.Base.{
  ◌==◌, if◌then◌else◌, Bool, true, false, Option, none, some, List, [], ◌∷◌, ◌++◌, Bool-cases, inl,
  inr,
}

unfoldable pub strlen : List ℕ → ℕ
strlen [] = 0
strlen (c ∷ s) = strlen s + 1

-- The two bytes whose difference `tstrcmp` returns.
unfoldable pub strcmp : List ℕ → List ℕ → ℕ × ℕ
strcmp [] [] = (0, 0)
strcmp [] (d ∷ b) = (0, d)
strcmp (c ∷ a) [] = (c, 0)
strcmp (c ∷ a) (d ∷ b) = let rest = strcmp a b in if c == d then rest else (c, d)

-- The same for `tstrncmp`, with 0 and 0 once `n` bytes are equal.
unfoldable pub strncmp : ℕ → List ℕ → List ℕ → ℕ × ℕ
strncmp zero a b = (0, 0)
strncmp (suc n) [] [] = (0, 0)
strncmp (suc n) [] (d ∷ b) = (0, d)
strncmp (suc n) (c ∷ a) [] = (c, 0)
strncmp (suc n) (c ∷ a) (d ∷ b) = let rest = strncmp n a b in if c == d then rest else (c, d)

unfoldable pub startswith : List ℕ → List ℕ → Bool
startswith s [] = true
startswith [] (d ∷ prefix) = false
startswith (c ∷ s) (d ∷ prefix) = let rest = startswith s prefix in if c == d then rest else false

-- The index of the byte that `tstrchr` points at, `none` for the null pointer.
unfoldable pub strchr_from : ℕ → List ℕ → ℕ → Option ℕ
strchr_from i [] c = if c == 0 then some i else none
strchr_from i (d ∷ s) c = let rest = strchr_from (i + 1) s c in if d == c then some i else rest

unfoldable pub strchr : List ℕ → ℕ → Option ℕ
strchr s c = strchr_from 0 s c

-- No byte of the string is the terminator.
abbrev pub AllNonzero : List ℕ → Type 0
AllNonzero [] = Unit {0}
AllNonzero (c ∷ s) = (c ≢ 0) × AllNonzero s

strcmp_self : (a : List ℕ) → (strcmp a a).0 ≡ (strcmp a a).1
unfolding strcmp
strcmp_self [] = refl
strcmp_self (c ∷ a) = grind (arith, strcmp_self a)

strcmp-eq : (a b : List ℕ) → AllNonzero a → AllNonzero b → (strcmp a b).0 ≡ (strcmp a b).1 → a ≡ b
unfolding strcmp
strcmp-eq [] [] p q h = refl
strcmp-eq [] (d ∷ b) p q h = absurd (q.0 (sym h))
strcmp-eq (c ∷ a) [] p q h = absurd (p.0 h)
strcmp-eq (c ∷ a) (d ∷ b) p q h = elim (Bool-cases (c == d)) [
  | inl y ↦ ap₂ ◌∷◌ (ground arith) (strcmp-eq a b p.1 q.1 (ground (arith, h)))
  | inr n ↦ absurd (ground (arith, h))
]

-- `tstrcmp` returns 0 exactly for equal strings.
pub strcmp_iff :
    (a b : List ℕ) → AllNonzero a → AllNonzero b → ((strcmp a b).0 ≡ (strcmp a b).1) ↔ (a ≡ b)
strcmp_iff a b p q = (strcmp-eq a b p q, λ e. rw (← e) (strcmp_self a))

startswith-split :
    (s prefix : List ℕ) → startswith s prefix ≡ true → (rest : List ℕ) × (s ≡ prefix ++ rest)
unfolding startswith
startswith-split s [] h = (s, refl)
startswith-split [] (d ∷ prefix) h = absurd (ground (arith, h))
startswith-split (c ∷ s) (d ∷ prefix) h = elim (Bool-cases (c == d)) [
  | inl y ↦
      let (rest, e) = startswith-split s prefix (ground (arith, h)) in
      (rest, ap₂ ◌∷◌ (ground arith) e)
  | inr n ↦ absurd (ground (arith, h))
]

startswith-append : (prefix rest : List ℕ) → startswith (prefix ++ rest) prefix ≡ true
unfolding startswith
startswith-append [] rest = refl
startswith-append (d ∷ prefix) rest = ground (arith, startswith-append prefix rest)

-- `tstartswith` answers whether the string is the prefix with something behind it.
pub startswith_iff :
    (s prefix : List ℕ) → (startswith s prefix ≡ true) ↔ ((rest : List ℕ) × (s ≡ prefix ++ rest))
startswith_iff s prefix = (startswith-split s prefix, λ r. rw r.1 (startswith-append prefix r.0))
