-- ===== src/Server/Examples.antt =====
-- Tests of the score API and the theorems at concrete inputs.
use devtrace.Server.Samples.{free_tenant}
use devtrace.Plan.Defs.{plan_or_free}
use devtrace.Middleware.Csrf.{hex_encode}
use devtrace.Server.TokenLimit.{create_token_handler-limit}
use devtrace.Tenant.Tokens.{token_prefix, create_api_token}
use devtrace.Server.TokenApi.{created, count_tokens, is_token_name, create_token_handler}
use devtrace.Service.Samples.{grace_outside, empty_cache}
use devtrace.Server.QuotaLaws.{score_handler-quota, IsRefused, IsServed}
use devtrace.Bot.{codes}
use devtrace.Server.Names.{is_repo, is_username}
use devtrace.Score.Fixed.{ℕ_float}
use devtrace.Server.ScoreApi.{score_handler}
use devtrace.Base.{
  ◌&&◌, not, String_eq, ◌++◌, ◌==◌, String, ◌∷◌, ℕ, List, arith, ◌<◌, some, [], refl, ◌≡◌, ◌≤◌,
  true, false,
}

usernames :
    (is_username "ada-l" ≡ true)
    × (is_username "renovate[bot]" ≡ true)
    × (is_username "-ada" ≡ false)
    × (is_username "ada-" ≡ false)
    × (is_username "" ≡ false)
    × (is_username "[bot]" ≡ false)
unfolding is_username
usernames = (refl, refl, refl, refl, refl, refl)

repos :
    (is_repo "thingzio/dev.trace" ≡ true) × (is_repo "thingzio" ≡ false) × (is_repo "a/b/c" ≡ false)
unfolding is_repo
repos = (refl, refl, refl)

score_handler-quota_example :
    (50 ≤ 60
      → IsRefused empty_cache (
          score_handler "1" "grace" "" [] (some free_tenant) (some 60) grace_outside empty_cache 5))
    × (60 < 50
        → is_username "grace" ≡ true
        → let repo : String = "" in
          not (repo == "") && not (is_repo repo) ≡ false
          → IsServed "1" "grace" "" [] free_tenant 60 grace_outside empty_cache 5 (
              score_handler "1" "grace" "" []
                (some free_tenant)
                (some 60)
                grace_outside
                empty_cache
                5))
score_handler-quota_example =
    score_handler-quota "1" "grace" "" [] free_tenant 60 grace_outside empty_cache 5 (omega arith)

abbrev name_hash : List ℕ → String
name_hash s = "h"

token_of_ada :
    (create_token_handler name_hash (some free_tenant) "ci" "k1" true (some (7 ∷ [])) 5 []).0
    ≡ created (token_prefix ++ hex_encode (7 ∷ []))
unfolding create_token_handler create_api_token plan_or_free
token_of_ada = refl

token_names :
    (is_token_name (codes "my key-1.0") ≡ true)
    × (is_token_name (codes "-x") ≡ false)
    × (is_token_name (codes "") ≡ false)
token_names = (refl, refl, refl)

create_token_handler-limit_example :
    (count_tokens "t1"
        (create_token_handler name_hash (some free_tenant) "ci" "k1" true (some (7 ∷ [])) 5 []).1
      ≤ 1)
    × ((free_tenant.id == "t2") ≡ false
        → count_tokens "t2"
            (create_token_handler name_hash
              (some free_tenant)
              "ci"
              "k1"
              true
              (some (7 ∷ []))
              5
              []).1
          ≤ 0)
unfolding plan_or_free
create_token_handler-limit_example =
    create_token_handler-limit name_hash free_tenant "ci" "k1" "t2" true (some (7 ∷ [])) 5 []
      (omega arith) (omega arith)
