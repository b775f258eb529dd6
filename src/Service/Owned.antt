-- ===== src/Service/Owned.antt =====
-- securityCreditsEnrichment and ownedReposEnrichment (pkg/service/score.go).
use devtrace.Base.Time.{Time, Duration}
use devtrace.Service.Lookups.{Fetched, Row, fetch_failed, fetched, is_fresh, not_found}
use devtrace.Model.Enrichment.{OwnedRepos, SecurityCredits, SecurityCredit}
use devtrace.Base.{
  ◌-◌, ltb, true, false, ◌&&◌, ◌||◌, true, false, some, none, map, not, String_eq, ◌==◌, Bool,
  if◌then◌else◌, Option, List,
}

-- github.SecurityCredit has the fields of model.SecurityCredit.
abbrev pub with_severity : SecurityCredit → SecurityCredit
with_severity c = record c { severity = if c.severity == "" then "unknown" else c.severity }

-- The credits that are saved, beside what is shown: `reread` is the row after the save.
pub record CreditsLookup : Type 0 where
  pub shown : Option SecurityCredits
  pub saved : Option (List SecurityCredit)
  pub asked : Bool

abbrev pub credits_of_fetch :
    Row SecurityCredits
    → (List SecurityCredit → Option SecurityCredits)
    → Fetched (List SecurityCredit)
    → CreditsLookup
credits_of_fetch row reread (fetched credits) =
    let model_credits = map with_severity credits in
    record { shown = reread model_credits; saved = some model_credits; asked = true }
credits_of_fetch row reread not_found = record { shown = row.cached; saved = none; asked = true }
credits_of_fetch row reread fetch_failed = record { shown = row.cached; saved = none; asked = true }

unfoldable pub security_credits_enrichment :
    Duration
    → Bool
    → Bool
    → Row SecurityCredits
    → Time
    → (List SecurityCredit → Option SecurityCredits)
    → Fetched (List SecurityCredit)
    → CreditsLookup
security_credits_enrichment ttl is_set is_enabled row now reread fetch =
    if not is_set
    then record { shown = none; saved = none; asked = false }
    else (if is_fresh row now ttl || not is_enabled
        then record { shown = row.cached; saved = none; asked = false }
        else credits_of_fetch row reread fetch)

-- A saved summary may be nil: the repositories may all be forks.
pub record OwnedLookup (W : Type 0) : Type 0 where
  pub shown : Option (OwnedRepos W)
  pub saved : Option (Option (OwnedRepos W))
  pub asked : Bool

abbrev pub is_present : {A : Type 0} → Option A → Bool
is_present none = false
is_present (some a) = true

-- `err == nil && cached != nil && time.Since(fetchedAt) < ttl`
abbrev pub is_fresh_summary : {W : Type 0} → Row (OwnedRepos W) → Time → Duration → Bool
is_fresh_summary row now ttl =
    not row.failed && is_present row.cached && ltb (now - row.fetched_at) ttl

abbrev pub owned_of_fetch :
    {W : Type 0}
    → {R : Type 0} → (List R → Option (OwnedRepos W))
    → Row (OwnedRepos W)
    → Fetched (List R)
    → OwnedLookup W
owned_of_fetch aggregate row (fetched repos) = record {
  shown = aggregate repos;
  saved = some (aggregate repos);
  asked = true;
}
owned_of_fetch aggregate row not_found = record { shown = row.cached; saved = none; asked = true }
owned_of_fetch aggregate row fetch_failed = record {
  shown = row.cached;
  saved = none;
  asked = true;
}

unfoldable pub owned_repos_enrichment :
    {W : Type 0}
    → {R : Type 0} → (List R → Option (OwnedRepos W))
    → Duration
    → Bool
    → Row (OwnedRepos W)
    → Time
    → Fetched (List R)
    → OwnedLookup W
owned_repos_enrichment aggregate ttl is_set row now fetch =
    if not is_set
    then record { shown = none; saved = none; asked = false }
    else (if is_fresh_summary row now ttl
        then record { shown = row.cached; saved = none; asked = false }
        else owned_of_fetch aggregate row fetch)
