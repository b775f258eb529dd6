-- ===== src/Service/Examples.antt =====
-- Tests of the service on numbers in hundredths, and the theorems at concrete inputs.
use devtrace.Service.Samples.{grace_profile, outage, empty_cache, grace_outside, grace_signals}
use devtrace.Bot.{is_bot}
use devtrace.Base.Time.{Time}
use devtrace.Service.RepoLaws.{split_owner_repo-join}
use devtrace.Service.Gate.{enrich_for_plan}
use devtrace.Service.FlowLaws.{score-elsewhere, score-again, is_answered, after_all, Later}
use devtrace.Service.CacheLaws.{IsCache}
use devtrace.Service.Repo.{split_owner_repo}
use devtrace.Service.StackOverflow.{SoProfile}
use devtrace.Model.Response.{ScoreResponse}
use devtrace.Service.Cache.{cache_get, cache_key, cached}
use devtrace.Service.Flow.{with_trusted_orgs, score, answered, full_response, Request}
use devtrace.Model.Enrichment.{CrossVcs, StackOverflow, LinkedAccount}
use devtrace.Service.Narrative.{generate_risk_summary}
use devtrace.Score.Fixed.{ℕ_float}
use devtrace.Service.Lookups.{Fetched, Row, fetched, not_found, fetch_failed}
use devtrace.Service.CrossVcs.{Forge, github, gitlab, codeberg, sourcehut}
use devtrace.Base.{
  arith, String_eq, if◌then◌else◌, String, refl, ◌==◌, ◌≡◌, [], ◌∷◌, some, none, false, true, ℕ,
  List,
}

abbrev from_pro : Request
from_pro = record { username = "grace"; repo = ""; plan_name = "pro"; trusted_orgs = "acme" ∷ [] }

abbrev from_free : Request
from_free = record { username = "grace"; repo = ""; plan_name = "free"; trusted_orgs = [] }

summary_of_new_account :
    generate_risk_summary {W = ℕ} (record grace_signals { age_days = 5 }) 85 true
    ≡ "Well-established contributor with strong activity history. Account was created recently. No merged pull requests on record. Standard review process is sufficient."
unfolding generate_risk_summary
summary_of_new_account = refl

abbrev full_of_grace : ScoreResponse ℕ
full_of_grace = full_response "1" "grace" "" grace_outside grace_signals grace_profile 5

abbrev scorer_row : Row StackOverflow
scorer_row = record { cached = none; fetched_at = 0; failed = false }

abbrev so_account : LinkedAccount
so_account = record {
  platform = "stackoverflow";
  url = "https://stackoverflow.com/users/9";
  source = "bio";
  tier = "T4";
}

abbrev fetch_so : ℕ → Fetched SoProfile
fetch_so id = fetched (record {
  user_id = 9;
  display_name = "Grace";
  reputation = 20;
  badge_bronze = 0;
  badge_silver = 0;
  badge_gold = 0;
  url = "";
  created_at = 1;
  last_access_at = 2;
})

abbrev id_of : Fetched SoProfile → ℕ
id_of (fetched p) = p.user_id
id_of not_found = 0
id_of fetch_failed = 0

abbrev forge_keys : Forge → Fetched (List String)
forge_keys github = fetched ("SHA256:a" ∷ "SHA256:b" ∷ [])
forge_keys gitlab = fetched ("SHA256:b" ∷ "SHA256:c" ∷ [])
forge_keys codeberg = not_found
forge_keys sourcehut = fetch_failed

abbrev forge_row : Row CrossVcs
forge_row = record { cached = none; fetched_at = 0; failed = false }

split_owner_repo-join_example :
    split_owner_repo (b'a' ∷ b'b' ∷ b'/' ∷ b'c' ∷ []) ≡ some (b'a' ∷ b'b' ∷ [], b'c' ∷ [])
split_owner_repo-join_example =
    split_owner_repo-join (b'a' ∷ b'b' ∷ []) (b'c' ∷ [])
      (record { first = refl; last = refl; no_slash = refl })
      (record { first = refl; last = refl; no_slash = refl })

empty_cache-IsCache : IsCache empty_cache
empty_cache-IsCache = record { distinct = tt }

grace-is_human : is_bot "grace" ≡ false
unfolding is_bot
grace-is_human = refl

-- A request of a caller on Free for the same login while GitHub is down.
abbrev meanwhile : List (Later ℕ)
meanwhile = record { request = from_free; outside = outage; at = 20 } ∷ []

grace-misses : cache_get empty_cache "grace" "" 5 ≡ none
unfolding cached devtrace.Base.Maps.get
grace-misses = refl

score-again_example :
    let full =
      full_response "1" "grace" "" grace_outside
        (with_trusted_orgs grace_outside.is_org_member from_pro.trusted_orgs grace_signals)
        grace_profile
        5 in
    let first = score "1" from_pro grace_outside empty_cache 5 in
    let d = after_all "1" first.cache meanwhile in
    (first.answer ≡ answered (enrich_for_plan full "pro" 5))
    × (score "1" from_free outage d 50
        ≡ record { answer = answered (enrich_for_plan full "free" 50); cache = d; asked = false })
score-again_example =
    score-again "1" from_pro from_free grace_outside outage empty_cache 5 50 grace_signals
      grace_profile meanwhile grace-is_human grace-misses refl refl (ground arith, tt) refl refl
      (ground arith)

score-elsewhere_example :
    (is_answered (score "1" from_pro outage empty_cache 5).answer ≡ false
      → (score "1" from_pro outage empty_cache 5).cache ≡ empty_cache)
    × ((key : String) (later : Time)
        → cache_key "grace" "" == key ≡ false
        → cached (score "1" from_pro outage empty_cache 5).cache key later
          ≡ cached empty_cache key later)
score-elsewhere_example = score-elsewhere "1" from_pro outage empty_cache 5
