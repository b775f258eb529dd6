-- ===== src/Github/Credits.antt =====
-- fetchUser and fetchSecurityCredits (pkg/github/fetch.go). What go-github answers, the case of letters and
-- strings.EqualFold are arguments.
use devtrace.Base.{
  any, String_eq, ltb, ◌==◌, [], ◌||◌, ◌∷◌, nat_eq, Bool, if◌then◌else◌, List, ℕ, String,
}
use devtrace.Pool.Client.{Reply, ok, error, CallError}
use devtrace.Service.Narrative.{UserProfile}
use devtrace.Model.Enrichment.{SecurityCredit}
use devtrace.Github.Account.{GhUser, map_user}
use devtrace.Base.Time.{Time}

unfoldable pub fetch_user : Reply GhUser → Reply UserProfile
unfolding map_user
fetch_user (error e) = error e
fetch_user (ok u) = ok (map_user u)

-- The types `identifier` and `creditNode` with its `advisory`.
pub record Identifier : Type 0 where
  pub kind : String
  pub value : String

pub record CreditNode : Type 0 where
  pub kind : String
  pub ghsa_id : String
  pub summary : String
  pub severity : String
  pub published_at : Time
  pub identifiers : List Identifier

abbrev pub max_fetch_security_credits : ℕ
max_fetch_security_credits = 100

abbrev pub capped_credits : ℕ → ℕ
capped_credits n =
    if nat_eq n 0 || ltb max_fetch_security_credits n then max_fetch_security_credits else n

-- The value of the first identifier that is a CVE.
abbrev pub cve_of : (String → Bool) → List Identifier → String
cve_of is_cve [] = ""
cve_of is_cve (i ∷ ids) = if is_cve i.kind then i.value else cve_of is_cve ids

abbrev pub credit_of : (String → String) → (String → Bool) → CreditNode → SecurityCredit
credit_of to_lower is_cve n = record {
  advisory_id = n.ghsa_id;
  credit_type = to_lower n.kind;
  severity = to_lower n.severity;
  cveid = cve_of is_cve n.identifiers;
  summary = n.summary;
  published_at = n.published_at;
}

unfoldable pub credits_of :
    (String → String) → (String → Bool) → List CreditNode → List SecurityCredit
credits_of to_lower is_cve [] = []
credits_of to_lower is_cve (n ∷ nodes) =
    let rest = credits_of to_lower is_cve nodes in
    if n.ghsa_id == "" then rest else credit_of to_lower is_cve n ∷ rest

-- What GraphQL answers: the types of its errors, and the nodes.
pub record GraphqlResp : Type 0 where
  pub nodes : List CreditNode
  pub errors : List String

abbrev pub not_found : String
not_found = "NOT_FOUND"

abbrev pub credits_unless_errors :
    (String → String) → (String → Bool) → GraphqlResp → Reply (List SecurityCredit)
credits_unless_errors to_lower is_cve out = elim out.errors [
  | [] ↦ ok (credits_of to_lower is_cve out.nodes)
  | e ∷ es ↦ if e == not_found || any (λ t. t == not_found) es then ok [] else error CallError.other
]

-- `ask` is the answer for the number of credits asked for.
unfoldable pub fetch_security_credits :
    (String → String) → (String → Bool) → (ℕ → Reply GraphqlResp) → ℕ → Reply (List SecurityCredit)
fetch_security_credits to_lower is_cve ask max_credits = elim (ask (capped_credits max_credits)) [
  | error e ↦ error e
  | ok out ↦ credits_unless_errors to_lower is_cve out
]
