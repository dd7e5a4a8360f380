-- ===== src/Scenario/Shell.antt =====
-- The shell's environment and history of src/tsh.c.
use trait_os.Shell.Tokens.{tokenize, argument, skip_blanks, variable, name_of, name_chars}
use trait_os.Shell.{History}
use trait_os.Base.{◌≡◌, refl, some, List, [], ◌∷◌}
use trait_os.Shell.{Text, same_text, env_set, env_set_from, env_get}

abbrev user : Text
user = b'U' ∷ b'S' ∷ b'E' ∷ b'R' ∷ []

abbrev home : Text
home = b'H' ∷ b'O' ∷ b'M' ∷ b'E' ∷ []

abbrev root : Text
root = b'/' ∷ []

abbrev environment : List (Text × Text)
environment = (user, root) ∷ (home, root) ∷ []

abbrev changed : List (Text × Text)
changed = (user, user) ∷ (home, root) ∷ []

env_set-user : env_set user user environment ≡ some changed
unfolding env_set env_set_from same_text
env_set-user = refl

abbrev history : History
history = user ∷ home ∷ []

-- echo "a $USER" \# # rest
tokenize-line :
    tokenize
      ((b'U' ∷ [], b'r' ∷ b't' ∷ []) ∷ [])
      8
      (b'e' ∷ 32 ∷ b'"' ∷ b'a' ∷ 32 ∷ b'$' ∷ b'U' ∷ b'"' ∷ 32 ∷ 92 ∷ b'#' ∷ 32 ∷ b'#' ∷ b'x' ∷ [])
    ≡ (b'e' ∷ []) ∷ (b'a' ∷ 32 ∷ b'r' ∷ b't' ∷ []) ∷ (b'#' ∷ []) ∷ []
unfolding tokenize argument skip_blanks variable name_of name_chars env_get same_text
tokenize-line = refl
