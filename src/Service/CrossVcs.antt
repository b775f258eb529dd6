-- ===== src/Service/CrossVcs.antt =====
-- crossVCSEnrichment and materializeCrossVCS (pkg/service/score.go), and the forges it asks
-- (pkg/forges/client.go). url.PathEscape is an argument.
use devtrace.Score.Curves.{count_if}
use devtrace.Base.Time.{Time, Duration}
use devtrace.Service.Lookups.{
  Fetched, Lookup, Row, fetch_failed, fetched, is_fresh, not_found, shows,
}
use devtrace.Model.Enrichment.{ForgeMatch, CrossVcs}
use Prim.Native.String.{[], String, ◌++◌}
use devtrace.Base.{
  String_eq, [], ◌∷◌, none, some, ◌+◌, ◌==◌, not, true, any, length, nat_eq, Bool, if◌then◌else◌, ℕ,
  Option, List,
}

abbrev pub materialize_cross_vcs : Option CrossVcs → Option CrossVcs
materialize_cross_vcs none = none
materialize_cross_vcs (some card) = if nat_eq (length card.matches) 0 then none else some card

pub data Forge : Type 0 where
  github gitlab codeberg sourcehut : Forge

abbrev pub forge_name : Forge → String
forge_name github = "github"
forge_name gitlab = "gitlab"
forge_name codeberg = "codeberg"
forge_name sourcehut = "sourcehut"

abbrev pub supported_forges : List Forge
supported_forges = gitlab ∷ codeberg ∷ sourcehut ∷ []

abbrev pub profile_url : (String → String) → Forge → String → String
profile_url escape github username = "https://github.com/" ++ escape username
profile_url escape gitlab username = "https://gitlab.com/" ++ escape username
profile_url escape codeberg username = "https://codeberg.org/" ++ escape username
profile_url escape sourcehut username = "https://sr.ht/~" ++ escape username

-- The keys of a forge that are also GitHub's.
abbrev pub count_matched : List String → List String → ℕ
count_matched gh_set [] = 0
count_matched gh_set (fp ∷ fps) = count_if (any (λ g. g == fp) gh_set) + count_matched gh_set fps

abbrev pub match_of :
    (Forge → String) → List String → Forge → Fetched (List String) → Option ForgeMatch
match_of url gh_set forge not_found = none
match_of url gh_set forge fetch_failed = none
match_of url gh_set forge (fetched fps) =
    let matched = count_matched gh_set fps in
    if nat_eq matched 0
    then none
    else some (record {
      forge = forge_name forge;
      url = url forge;
      key_count = length fps;
      matched_keys = matched;
    })

abbrev pub and_match : Option ForgeMatch → List ForgeMatch → List ForgeMatch
and_match none matches = matches
and_match (some m) matches = m ∷ matches

abbrev pub matches_of :
    (Forge → String) → List String → (Forge → Fetched (List String)) → List Forge → List ForgeMatch
matches_of url gh_set fetch [] = []
matches_of url gh_set fetch (forge ∷ forges) =
    and_match (match_of url gh_set forge (fetch forge)) (matches_of url gh_set fetch forges)

abbrev pub no_cross_vcs : CrossVcs
no_cross_vcs = record { matches = []; total_matched = 0 }

abbrev pub compared :
    (Forge → String) → (Forge → Fetched (List String)) → List String → Lookup CrossVcs
compared url fetch gh_set =
    let matches = matches_of url gh_set fetch supported_forges in
    let out : CrossVcs = record { matches = matches; total_matched = length matches } in
    record { shown = materialize_cross_vcs (some out); saved = some out; asked = true }

abbrev pub cross_vcs_of_fetch :
    (Forge → String)
    → Row CrossVcs
    → (Forge → Fetched (List String))
    → Fetched (List String)
    → Lookup CrossVcs
cross_vcs_of_fetch url row fetch not_found = record {
  shown = materialize_cross_vcs row.cached;
  saved = none;
  asked = true;
}
cross_vcs_of_fetch url row fetch fetch_failed = record {
  shown = materialize_cross_vcs row.cached;
  saved = none;
  asked = true;
}
cross_vcs_of_fetch url row fetch (fetched []) = record {
  shown = none;
  saved = some no_cross_vcs;
  asked = true;
}
cross_vcs_of_fetch url row fetch (fetched (fp ∷ fps)) = compared url fetch (fp ∷ fps)

unfoldable pub cross_vcs_enrichment :
    (Forge → String)
    → Duration
    → Bool
    → Row CrossVcs
    → Time
    → (Forge → Fetched (List String))
    → Lookup CrossVcs
cross_vcs_enrichment url ttl is_set row now fetch =
    if not is_set
    then shows none
    else (if is_fresh row now ttl
        then shows (materialize_cross_vcs row.cached)
        else cross_vcs_of_fetch url row fetch (fetch github))
