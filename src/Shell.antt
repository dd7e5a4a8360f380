-- ===== src/Shell.antt =====
-- src/tsh.c: the shell's environment and its command history. A C string is the list of its
-- characters. Keys, values and lines are shorter than the arrays that they are copied to (32, 128
-- and 128 bytes); `tstrncpy` copies such a string whole, with its terminator. The used part of each
-- array is a list, oldest first.
pub mod Laws
pub mod Expand
pub mod Tokens
use trait_os.Base.{
  ℕ, zero, suc, ◌+◌, ◌-◌, ltb, leb, ◌==◌, if◌then◌else◌, Bool, true, false, ◌&&◌, ◌||◌,
}
use trait_os.Base.{Option, none, some, List, [], ◌∷◌, ◌++◌, length, get_elem?, drop}

abbrev pub Text : Type 0
Text = List ℕ

-- `tstrcmp(a, b) == 0`
unfoldable pub same_text : Text → Text → Bool
same_text [] [] = true
same_text [] (d ∷ b) = false
same_text (c ∷ a) [] = false
same_text (c ∷ a) (d ∷ b) = c == d && same_text a b

abbrev pub env_max : ℕ
env_max = 16

-- The loop of `tsh_env_set` over the variables, then the append; `n` variables come before `env`.
-- `none` stands for the result -1, which leaves the table as it is.
abbrev pub cons_some : Text × Text → Option (List (Text × Text)) → Option (List (Text × Text))
cons_some e none = none
cons_some e (some env) = some (e ∷ env)

unfoldable pub env_set_from : ℕ → Text → Text → List (Text × Text) → Option (List (Text × Text))
env_set_from n key val [] = if leb env_max n then none else some ((key, val) ∷ [])
env_set_from n key val (e ∷ env) =
    let later = cons_some e (env_set_from (n + 1) key val env) in
    if same_text e.0 key then some ((e.0, val) ∷ env) else later

unfoldable pub env_set : Text → Text → List (Text × Text) → Option (List (Text × Text))
env_set key val env = env_set_from 0 key val env

unfoldable pub env_get : Text → List (Text × Text) → Option Text
env_get key [] = none
env_get key (e ∷ env) = let later = env_get key env in if same_text e.0 key then some e.1 else later

abbrev pub hist_max : ℕ
hist_max = 32

abbrev pub History : Type 0
History = List Text

-- The last entry, `hist_entries[hist_count - 1]`, if there is one.
unfoldable pub is_last : Text → History → Bool
is_last line [] = false
is_last line (e ∷ []) = same_text e line
is_last line (e ∷ f ∷ h) = is_last line (f ∷ h)

-- The `int` result comes first.
unfoldable pub hist_push : Text → History → ℕ × History
hist_push line h =
    if is_last line h
    then (0, h)
    else if ltb (length h) hist_max
    then (1, h ++ (line ∷ []))
    else (1, drop 1 h ++ (line ∷ []))

unfoldable pub hist_get : ℕ → History → Option Text
hist_get i h = get_elem? h i

unfoldable pub hist_count : History → ℕ
hist_count h = length h
