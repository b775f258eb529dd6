-- ===== src/Service/StackOverflow.antt =====
-- stackOverflowEnrichment, pickStackOverflowLink and materializeSO (pkg/service/score.go).
use devtrace.Service.Lookups.{
  Fetched, Lookup, Row, fetch_failed, fetched, is_fresh, not_found, shows,
}
use devtrace.Base.Time.{is_zero, Duration, Time}
use devtrace.Model.Enrichment.{LinkedAccount, StackOverflow}
use devtrace.Base.{
  false, [], true, ltb, String_eq, not, ◌&&◌, Bool, ◌∷◌, ◌==◌, nat_eq, if◌then◌else◌, none, some,
  String, ℕ, Option, List,
}

abbrev pub materialize_so : Option StackOverflow → Option StackOverflow
materialize_so none = none
materialize_so (some card) = if nat_eq card.user_id 0 then none else some card

-- stackoverflow.Profile
pub record SoProfile : Type 0 where
  pub user_id : ℕ
  pub display_name : String
  pub reputation : ℕ
  pub badge_bronze : ℕ
  pub badge_silver : ℕ
  pub badge_gold : ℕ
  pub url : String
  pub created_at : Time
  pub last_access_at : Time

-- `&model.StackOverflow{}`
abbrev pub no_so : StackOverflow
no_so = record {
  user_id = 0;
  display_name = "";
  reputation = 0;
  badge_bronze = 0;
  badge_silver = 0;
  badge_gold = 0;
  url = "";
  created_at = none;
  last_access_at = none;
}

abbrev pub unless_zero : Time → Option Time
unless_zero t = if is_zero t then none else some t

abbrev pub so_of_profile : SoProfile → String → StackOverflow
so_of_profile prof so_url = record {
  user_id = prof.user_id;
  display_name = prof.display_name;
  reputation = prof.reputation;
  badge_bronze = prof.badge_bronze;
  badge_silver = prof.badge_silver;
  badge_gold = prof.badge_gold;
  url = if prof.url == "" && not (so_url == "") then so_url else prof.url;
  created_at = unless_zero prof.created_at;
  last_access_at = unless_zero prof.last_access_at;
}

-- The first account of Stack Overflow whose URL has a positive id; ExtractUserID is an argument.
unfoldable pub pick_stack_overflow_link : (String → ℕ) → List LinkedAccount → String × ℕ
pick_stack_overflow_link extract [] = ("", 0)
pick_stack_overflow_link extract (a ∷ linked) =
    let rest = pick_stack_overflow_link extract linked in
    if not (a.platform == "stackoverflow")
    then rest
    else (if ltb 0 (extract a.url) then (a.url, extract a.url) else rest)

abbrev pub so_of_fetch : Row StackOverflow → String → Fetched SoProfile → Lookup StackOverflow
so_of_fetch row so_url (fetched prof) =
    let out = so_of_profile prof so_url in
    record { shown = some out; saved = some out; asked = true }
so_of_fetch row so_url not_found = record { shown = none; saved = some no_so; asked = true }
so_of_fetch row so_url fetch_failed = record {
  shown = materialize_so row.cached;
  saved = none;
  asked = true;
}

unfoldable pub stack_overflow_enrichment :
    (String → ℕ)
    → Duration
    → Bool
    → Row StackOverflow
    → Time
    → List LinkedAccount
    → (ℕ → Fetched SoProfile)
    → Lookup StackOverflow
stack_overflow_enrichment extract ttl is_set row now linked fetch =
    let link = pick_stack_overflow_link extract linked in
    if not is_set
    then shows none
    else (if is_fresh row now ttl
        then shows (materialize_so row.cached)
        else (if nat_eq link.1 0
            then record { shown = none; saved = some no_so; asked = false }
            else so_of_fetch row link.0 (fetch link.1)))
