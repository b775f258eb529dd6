-- ===== src/Middleware/CsrfLaws.antt =====
-- A page's token is accepted with its form, and stays the same over later pages.
use devtrace.Middleware.Csrf.{
  Verdict, validate_csrf, generate_csrf_token, inject_csrf, is_empty, hex_digit, hex_encode, is_hex,
  same_token, are_hex, valid_csrf_token, serves_with, allowed, missing_token, invalid_token,
}
use mathlib.Core.Bool.{true≢false}
use devtrace.Base.{
  ◌∙◌, ap, sym, inr, inl, Bool-cases, if◌then◌else◌, Bool, none, some, Option, true, false, ◌%◌,
  refl, ◌/◌, arith, ◌*◌, true, ◌≡◌, [], length, ◌<◌, ◌∷◌, ℕ, List,
}

abbrev pub AreBytes : List ℕ → Type 0
AreBytes [] = Unit {0}
AreBytes (b ∷ bytes) = (b < 256) × AreBytes bytes

hex_digit-hex : (n : ℕ) → n < 16 → is_hex (hex_digit n) ≡ true
hex_digit-hex n h = ground arith

are_hex-hex_encode : (bytes : List ℕ) → AreBytes bytes → are_hex (hex_encode bytes) ≡ true
are_hex-hex_encode [] h = refl
are_hex-hex_encode (b ∷ bytes) (small, h) =
    rw (hex_digit-hex (b / 16) (omega arith), hex_digit-hex (b % 16) (omega arith))
      (are_hex-hex_encode bytes h)

length-hex_encode : (bytes : List ℕ) → length (hex_encode bytes) ≡ length bytes * 2
length-hex_encode [] = refl
length-hex_encode (b ∷ bytes) = ground (arith, length-hex_encode bytes)

valid_csrf_token-hex_encode :
    (bytes : List ℕ)
    → AreBytes bytes
    → length bytes ≡ 32
    → valid_csrf_token (hex_encode bytes) ≡ true
unfolding valid_csrf_token
valid_csrf_token-hex_encode bytes h e =
    rw (length-hex_encode bytes, e, are_hex-hex_encode bytes h) refl

same_token_self : (cs : List ℕ) → same_token cs cs ≡ true
same_token_self [] = refl
same_token_self (c ∷ cs) = ground (arith, same_token_self cs)

same_token-eq : (cs ds : List ℕ) → same_token cs ds ≡ true → cs ≡ ds
same_token-eq [] [] h = refl
same_token-eq [] (d ∷ ds) h = cc
same_token-eq (c ∷ cs) [] h = cc
same_token-eq (c ∷ cs) (d ∷ ds) h =
    let head : c ≡ d = ground arith in
    let tail : cs ≡ ds = same_token-eq cs ds (ground arith) in rw (head, tail) refl

is_empty-valid : (token : List ℕ) → valid_csrf_token token ≡ true → is_empty token ≡ false
unfolding valid_csrf_token
is_empty-valid [] h = cc
is_empty-valid (c ∷ cs) h = refl

-- A page that is served with fresh random bytes gets their token and the cookie with it. Every
-- later page with that cookie gets the same token and no new cookie, whatever the random source
-- then does; a form of either page is allowed, and a form with any other token, or with none, is
-- not.
pub inject_csrf-round_trip :
    (cookie bytes form : List ℕ) (random : Option (List ℕ))
    → AreBytes bytes
    → length bytes ≡ 32
    → valid_csrf_token cookie ≡ false
    → let token = hex_encode bytes in
      (inject_csrf "GET" cookie (some bytes) ≡ serves_with token (some token))
      × (inject_csrf "GET" token random ≡ serves_with token none)
      × (validate_csrf "POST" token token ≡ allowed)
      × (validate_csrf "POST" token form ≡ allowed → form ≡ token)
unfolding inject_csrf generate_csrf_token validate_csrf
inject_csrf-round_trip cookie bytes form random h e stale =
    let valid = valid_csrf_token-hex_encode bytes h e in
    let full = is_empty-valid (hex_encode bytes) valid in
    (
      rw stale refl,
      rw valid refl,
      rw (full, same_token_self (hex_encode bytes)) refl,
      rw full (allowed-same (hex_encode bytes) form),
    )
  where
    is_allowed : Verdict → Bool
    is_allowed allowed = true
    is_allowed missing_token = false
    is_allowed invalid_token = false

    allowed-same :
        (token form : List ℕ)
        → (if is_empty form
            then missing_token
            else (if same_token token form then allowed else invalid_token))
          ≡ allowed
        → form ≡ token
    allowed-same token form e = elim (Bool-cases (same_token token form)) [
      | inl same ↦ sym (same_token-eq token form same)
      | inr other ↦ absurd (true≢false (sym (ap is_allowed e) ∙ refused token form other))
    ]
      where
        refused :
            (token form : List ℕ)
            → same_token token form ≡ false
            → is_allowed (
                if is_empty form
                then missing_token
                else (if same_token token form then allowed else invalid_token))
              ≡ false
        refused token form other = rw other (elim (Bool-cases (is_empty form)) [
          | inl empty ↦ rw empty refl
          | inr full ↦ rw full refl
        ])
