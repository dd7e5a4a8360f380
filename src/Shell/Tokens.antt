-- ===== src/Shell/Tokens.antt =====
-- src/tsh.c: `tsh_tokenize`, for arguments shorter than `TSH_ARG_MAX`; the environment is a
-- parameter. `skip` characters of the text are passed over first, as `p += used` does.
use trait_os.Base.{
  ℕ, zero, suc, ◌≤◌, arith, leb, ◌==◌, if◌then◌else◌, Bool, true, false, not, ◌&&◌, ◌||◌,
}
use trait_os.Base.{Option, none, some, List, [], ◌∷◌, ◌++◌, length, take}
use trait_os.Shell.{Text, env_get}

abbrev pub is_name_start : ℕ → Bool
is_name_start c = (leb b'a' c && leb c b'z') || (leb b'A' c && leb c b'Z') || c == b'_'

abbrev pub is_name_char : ℕ → Bool
is_name_char c = is_name_start c || (leb b'0' c && leb c b'9')

abbrev is_blank : ℕ → Bool
is_blank c = c == 32 || c == 9

-- The variable name that a text starts with, empty if it does not.
unfoldable pub name_chars : Text → Text
name_chars [] = []
name_chars (c ∷ s) = let rest = name_chars s in if is_name_char c then c ∷ rest else []

unfoldable pub name_of : Text → Text
name_of [] = []
name_of (c ∷ s) = if is_name_start c then c ∷ name_chars s else []

abbrev text_or_empty : Option Text → Text
text_or_empty none = []
text_or_empty (some t) = t

-- The key that is looked up has at most 31 characters.
unfoldable pub variable : List (Text × Text) → Text → Text
variable env s = text_or_empty (env_get (take 31 (name_of s)) env)

abbrev first_of : Text → Text
first_of [] = []
first_of (c ∷ s) = c ∷ []

abbrev pub put_before : Text → Text × Text → Text × Text
put_before t r = (t ++ r.0, r.1)

-- One argument, with the text behind it.
unfoldable pub argument : List (Text × Text) → ℕ → Bool → Text → Text × Text
argument env skip quoted [] = ([], [])
argument env (suc skip) quoted (c ∷ s) = argument env skip quoted s
argument env zero quoted (c ∷ s) =
    let toggled = argument env 0 (not quoted) s in
    let escaped = put_before (first_of s) (argument env 1 quoted s) in
    let replaced = put_before (variable env s) (argument env (length (name_of s)) quoted s) in
    let plain = put_before (c ∷ []) (argument env 0 quoted s) in
    if not quoted && is_blank c
    then ([], c ∷ s)
    else if c == b'"'
    then toggled
    else if c == 92 && not (length s == 0)
    then escaped
    else if c == b'$' && not (length (name_of s) == 0)
    then replaced
    else plain

unfoldable pub skip_blanks : Text → Text
skip_blanks [] = []
skip_blanks (c ∷ s) = let rest = skip_blanks s in if is_blank c then rest else c ∷ s

-- The end of the line, or a comment.
abbrev at_end : Text → Bool
at_end [] = true
at_end (c ∷ s) = c == b'#'

-- With room for `max` arguments in `argv`.
unfoldable pub tokenize : List (Text × Text) → ℕ → Text → List Text
tokenize env zero p = []
tokenize env (suc max) p =
    let q = skip_blanks p in
    let a = argument env 0 false q in
    let later = tokenize env max a.1 in if at_end q then [] else a.0 ∷ later

-- `tsh_tokenize` never hands out more arguments than `argv` has room for.
pub length-tokenize :
    (env : List (Text × Text)) (max : ℕ) (line : Text) → length (tokenize env max line) ≤ max
unfolding tokenize
length-tokenize env zero line = omega arith
length-tokenize env (suc max) line =
    let a = argument env 0 false (skip_blanks line) in ground (arith, length-tokenize env max a.1)
