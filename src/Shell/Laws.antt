-- ===== src/Shell/Laws.antt =====
-- Environment and history: what a write leaves to read.
use trait_os.Base.{◌++◌, ℕ, ◌+◌, ◌≡◌, ◌≢◌, inl, inr, refl, sym, ap, ap₂, ◌∙◌, arith, subst}
use trait_os.Base.{leb, if◌then◌else◌, if_ind, true, false, Bool-cases}
use trait_os.Base.{Option, none, some, List, [], ◌∷◌}
use trait_os.Base.{length, length-append, drop, ltb, ◌⊎◌, ◌≤◌}
use trait_os.Shell.{
  is_last, hist_push, hist_max, History, Text, same_text, env_max, cons_some, env_set_from, env_set,
  env_get,
}

same_text_refl : (a : Text) → same_text a a ≡ true
unfolding same_text
same_text_refl [] = refl
same_text_refl (c ∷ a) = ground (arith, same_text_refl a)

same_text-eq : (a b : Text) → same_text a b ≡ true → a ≡ b
unfolding same_text
same_text-eq [] [] h = refl
same_text-eq [] (d ∷ b) h = ground (arith, h)
same_text-eq (c ∷ a) [] h = ground (arith, h)
same_text-eq (c ∷ a) (d ∷ b) h = ap₂ ◌∷◌ (ground (arith, h)) (same_text-eq a b (ground (arith, h)))

-- What a write that succeeds leaves to read: the value at its key, and every other key as before.
abbrev Reads : Text → Text → List (Text × Text) → Option (List (Text × Text)) → Type 0
Reads key val env none = Unit {0}
Reads key val env (some env') =
    (env_get key env' ≡ some val)
    × ((other : Text) → other ≢ key → env_get other env' ≡ env_get other env)

Reads-cons :
    (key val : Text) (e : Text × Text) (env : List (Text × Text)) (o : Option (List (Text × Text)))
    → same_text e.0 key ≡ false
    → Reads key val env o
    → Reads key val (e ∷ env) (cons_some e o)
unfolding env_get
Reads-cons key val e env none ne h = tt
Reads-cons key val e env (some env') ne h = (
  rw ne h.0,
  λ other d. ap (λ later. if same_text e.0 other then some e.1 else later) (h.1 other d),
)

set-Reads :
    (n : ℕ) (key val : Text) (env : List (Text × Text))
    → Reads key val env (env_set_from n key val env)
unfolding env_set_from env_get
set-Reads n key val [] =
    if_ind (Reads key val []) (leb env_max n) (λ _. tt)
      (λ _. (
        rw (same_text_refl key) refl,
        λ other d. elim (Bool-cases (same_text key other)) [
          | inl y ↦ absurd (d (sym (same_text-eq key other y)))
          | inr differ ↦ rw differ refl
        ],
      ))
set-Reads n key val (e ∷ env) =
    if_ind (Reads key val (e ∷ env)) (same_text e.0 key)
      (λ y. (
        rw y refl,
        λ other d. elim (Bool-cases (same_text e.0 other)) [
          | inl z ↦ absurd (d (sym (same_text-eq e.0 other z) ∙ same_text-eq e.0 key y))
          | inr differ ↦ rw differ refl
        ],
      ))
      (λ ne. Reads-cons key val e env _ ne (set-Reads (n + 1) key val env))

-- After `tsh_env_set` has succeeded, `tsh_env_get` returns the value at that key, and at every other
-- key what it returned before.
pub env_get-set :
    (key val other : Text) (env env' : List (Text × Text))
    → env_set key val env ≡ some env'
    → other ≢ key
    → (env_get key env' ≡ some val) × (env_get other env' ≡ env_get other env)
unfolding env_set
env_get-set key val other env env' e d =
    let r = subst (Reads key val env) e (set-Reads 0 key val env) in (r.0, r.1 other d)

is_last-append : (line : Text) (h : History) → is_last line (h ++ (line ∷ [])) ≡ true
unfolding is_last
is_last-append line [] = same_text_refl line
is_last-append line (e ∷ []) = same_text_refl line
is_last-append line (e ∷ f ∷ h) = is_last-append line (f ∷ h)

-- From a history of at most 32 lines, `tsh_hist_push` leaves the line as the newest of at most 32.
-- It returns 0 exactly if the line was the newest already, and then changes nothing; otherwise it
-- returns 1, and the line is added behind the others, of which the oldest is dropped if there
-- were 32.
pub hist_push-last :
    (line : Text) (h : History)
    → length h ≤ hist_max
    → let (rc, h') = hist_push line h in
      (is_last line h' ≡ true)
      × (length h' ≤ hist_max)
      × (((rc ≡ 0) × (is_last line h ≡ true) × (h' ≡ h))
          ⊎ ((rc ≡ 1)
              × (is_last line h ≡ false)
              × ((h' ≡ h ++ (line ∷ []))
                  ⊎ ((length h ≡ hist_max) × (h' ≡ drop 1 h ++ (line ∷ []))))))
unfolding hist_push
hist_push-last line h n =
    if_ind P (is_last line h) (λ same. (same, n, inl (refl, same, refl)))
      (λ new.
        if_ind P (ltb (length h) hist_max)
          (λ room. (
            is_last-append line h,
            ground (arith, length-append h (line ∷ [])),
            inr (refl, new, inl refl),
          ))
          (λ full. (
            is_last-append line (drop 1 h),
            omega (arith, length-append (drop 1 h) (line ∷ []), length-drop h n),
            inr (refl, new, inr (ground (arith, n), refl)),
          )))
  where
    P : ℕ × History → Type 0
    P r =
        (is_last line r.1 ≡ true)
        × (length r.1 ≤ hist_max)
        × (((r.0 ≡ 0) × (is_last line h ≡ true) × (r.1 ≡ h))
            ⊎ ((r.0 ≡ 1)
                × (is_last line h ≡ false)
                × ((r.1 ≡ h ++ (line ∷ []))
                    ⊎ ((length h ≡ hist_max) × (r.1 ≡ drop 1 h ++ (line ∷ []))))))

    length-drop : (h : History) → length h ≤ hist_max → length (drop 1 h) + 1 ≤ hist_max
    length-drop [] n = omega arith
    length-drop (e ∷ h) n = omega arith
