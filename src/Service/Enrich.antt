-- ===== src/Service/Enrich.antt =====
-- buildEnrichment (pkg/service/score.go) and ComputeReciprocity (pkg/model/types.go).
use devtrace.Service.Owned.{is_present}
use devtrace.Model.Enrichment.{
  CrossVcs, StackOverflow, Publisher, OssfScorecard, SecurityCredits, OwnedRepos, LinkedAccount,
  Reciprocity, RepoContribution, Enrichment, LifetimeActivity,
}
use devtrace.Score.Float.{◌⊘◌, of_nat, Float}
use devtrace.Score.Curves.{zero_w}
use devtrace.Base.{
  ltb, nat_eq, none, ◌+◌, [], String, some, true, if◌then◌else◌, ◌||◌, ◌∷◌, false, Bool, Option,
  List,
}

-- What the blocks of an enrichment are built from: an error of the store, and a store or a client
-- that is not set, count as nothing found.
pub record Findings (W : Type 0) : Type 0 where
  pub lifetime : Option LifetimeActivity
  pub top_repos : List RepoContribution
  pub accounts : List LinkedAccount
  pub emails : List String
  pub owned : Option (OwnedRepos W)
  pub credits : Option SecurityCredits
  pub card : Option (OssfScorecard W)
  pub publisher : Option Publisher
  pub stack_overflow : List LinkedAccount → Option StackOverflow
  pub cross_vcs : Option CrossVcs

abbrev pub is_some_entry : {A : Type 0} → List A → Bool
is_some_entry [] = false
is_some_entry (a ∷ l) = true

module _ {W : Type 0} ⦃f : Float W⦄ where
  unfoldable pub compute_reciprocity : Option LifetimeActivity → Option (Reciprocity W)
  compute_reciprocity none = none
  compute_reciprocity (some la) =
      let total = la.issues_closed + la.issues_opened in
      if nat_eq la.prs_opened 0
      then none
      else some (record {
        reviews_per_pr = of_nat la.reviews_given ⊘ of_nat la.prs_opened;
        issue_closing_rate = if ltb 0 total then of_nat la.issues_closed ⊘ of_nat total else zero_w;
        issue_comments_per_pr = of_nat la.issue_comments ⊘ of_nat la.prs_opened;
      })

  abbrev pub is_populated : Findings W → Bool
  is_populated s =
      is_present s.lifetime
      || is_some_entry s.top_repos
      || is_some_entry s.accounts
      || is_some_entry s.emails
      || is_present s.owned
      || is_present s.credits
      || is_present s.card
      || is_present s.publisher
      || is_present (s.stack_overflow s.accounts)
      || is_present s.cross_vcs

  unfoldable pub build_enrichment : Findings W → Option (Enrichment W)
  build_enrichment s =
      let enr : Enrichment W = record {
        lifetime_activity = s.lifetime;
        top_contributed_repos = s.top_repos;
        linked_accounts = s.accounts;
        emails = s.emails;
        reciprocity = compute_reciprocity s.lifetime;
        owned_repos = s.owned;
        security_credits = s.credits;
        ossf_scorecard = s.card;
        publisher = s.publisher;
        stack_overflow = s.stack_overflow s.accounts;
        cross_vcs = s.cross_vcs;
      } in
      if is_populated s then some enr else none
