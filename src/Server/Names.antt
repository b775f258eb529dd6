-- ===== src/Server/Names.antt =====
-- usernameRE and repoRE (pkg/server/handler_score.go), as functions of the code points.
use devtrace.Bot.{same_codes, codes}
use devtrace.Base.{
  [], length, nat_eq, ◌&&◌, ◌||◌, if◌then◌else◌, false, true, leb, ◌∷◌, Bool, String, ℕ, List,
}

abbrev pub is_alnum : ℕ → Bool
is_alnum c = leb b'a' c && leb c b'z' || leb b'A' c && leb c b'Z' || leb b'0' c && leb c b'9'

-- `([a-zA-Z0-9-]*[a-zA-Z0-9])?`
abbrev pub ends_alnum : List ℕ → Bool
ends_alnum [] = true
ends_alnum (c ∷ []) = is_alnum c
ends_alnum (c ∷ d ∷ s) = (is_alnum c || nat_eq c b'-') && ends_alnum (d ∷ s)

abbrev pub is_login : List ℕ → Bool
is_login [] = false
is_login (c ∷ s) = is_alnum c && ends_alnum s

-- Without a suffix `[bot]`.
abbrev pub without_bot : List ℕ → List ℕ
without_bot [] = []
without_bot (c ∷ s) =
    let rest = without_bot s in if same_codes (c ∷ s) (codes "[bot]") then [] else c ∷ rest

unfoldable pub is_username : String → Bool
is_username username = leb (length (codes username)) 39 && is_login (without_bot (codes username))

-- `[a-zA-Z0-9._-]`
abbrev pub is_name_char : ℕ → Bool
is_name_char c = is_alnum c || nat_eq c b'.' || nat_eq c b'_' || nat_eq c b'-'

abbrev pub is_name : List ℕ → Bool
is_name [] = false
is_name (c ∷ []) = is_name_char c
is_name (c ∷ d ∷ s) = is_name_char c && is_name (d ∷ s)

-- Characters of a name up to a slash, and a name.
abbrev pub is_name_and_name : List ℕ → Bool
is_name_and_name [] = false
is_name_and_name (c ∷ s) =
    let rest = is_name_and_name s in if nat_eq c b'/' then is_name s else is_name_char c && rest

abbrev pub is_owner_and_name : List ℕ → Bool
is_owner_and_name [] = false
is_owner_and_name (c ∷ s) = is_name_char c && is_name_and_name s

unfoldable pub is_repo : String → Bool
is_repo repo = is_owner_and_name (codes repo)
