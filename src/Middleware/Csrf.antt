-- ===== src/Middleware/Csrf.antt =====
-- The CSRF double submit (pkg/middleware/csrf.go). A token is its bytes, the empty one where a cookie
-- or a form field is missing; the random bytes are an argument. ConstantTimeCompare is equality.
use devtrace.Base.{
  ◌*◌, [], ◌-◌, ◌||◌, false, String_eq, length, ◌&&◌, ◌%◌, ◌+◌, ◌==◌, not, nat_eq, true, leb, none,
  ◌/◌, ltb, Bool, some, ◌∷◌, if◌then◌else◌, String, Option, ℕ, List,
}

abbrev pub csrf_token_bytes : ℕ
csrf_token_bytes = 32

-- encoding/hex
abbrev pub hex_digit : ℕ → ℕ
hex_digit n = if ltb n 10 then b'0' + n else b'a' + (n - 10)

abbrev pub hex_encode : List ℕ → List ℕ
hex_encode [] = []
hex_encode (b ∷ bytes) = hex_digit (b / 16) ∷ hex_digit (b % 16) ∷ hex_encode bytes

-- `rand.Read` fails with none.
unfoldable pub generate_csrf_token : Option (List ℕ) → Option (List ℕ)
generate_csrf_token none = none
generate_csrf_token (some bytes) = some (hex_encode bytes)

abbrev pub is_hex : ℕ → Bool
is_hex c = leb b'0' c && leb c b'9' || leb b'a' c && leb c b'f' || leb b'A' c && leb c b'F'

abbrev pub are_hex : List ℕ → Bool
are_hex [] = true
are_hex (c ∷ cs) = is_hex c && are_hex cs

unfoldable pub valid_csrf_token : List ℕ → Bool
valid_csrf_token token = nat_eq (length token) (csrf_token_bytes * 2) && are_hex token

-- What InjectCSRF does with a request: the token in the context of the handler, and the cookie that
-- it sets.
pub data Injected : Type 0 where
  passes : Injected
  internal_error : Injected
  serves_with : List ℕ → Option (List ℕ) → Injected

abbrev pub serve_fresh : Option (List ℕ) → Injected
serve_fresh none = internal_error
serve_fresh (some fresh) = serves_with fresh (some fresh)

unfoldable pub inject_csrf : String → List ℕ → Option (List ℕ) → Injected
inject_csrf method cookie random =
    if not (method == "GET")
    then passes
    else (if not (valid_csrf_token cookie)
        then serve_fresh (generate_csrf_token random)
        else serves_with cookie none)

pub data Verdict : Type 0 where
  allowed missing_token invalid_token : Verdict

abbrev pub is_empty : List ℕ → Bool
is_empty [] = true
is_empty (c ∷ cs) = false

abbrev pub same_token : List ℕ → List ℕ → Bool
same_token [] [] = true
same_token [] (d ∷ ds) = false
same_token (c ∷ cs) [] = false
same_token (c ∷ cs) (d ∷ ds) = nat_eq c d && same_token cs ds

unfoldable pub validate_csrf : String → List ℕ → List ℕ → Verdict
validate_csrf method cookie form =
    if method == "GET" || method == "HEAD" || method == "OPTIONS"
    then allowed
    else (if is_empty cookie || is_empty form
        then missing_token
        else (if same_token cookie form then allowed else invalid_token))
