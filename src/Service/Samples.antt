-- ===== src/Service/Samples.antt =====
-- Sample data for the tests of the service and the server, on numbers in hundredths.
use devtrace.Model.Response.{ScoreResponse}
use devtrace.Service.Cache.{new_score_cache, ScoreCache}
use devtrace.Service.Flow.{Outside}
use devtrace.Service.Enrich.{Findings}
use devtrace.Model.Enrichment.{LifetimeActivity}
use devtrace.Service.Narrative.{UserProfile}
use devtrace.Score.Signals.{InputSignals}
use devtrace.Score.Fixed.{ℕ_float}
use devtrace.Base.{String_eq, ◌∷◌, ◌==◌, [], some, ℕ, none, false, true}

abbrev pub grace_signals : InputSignals
grace_signals = record {
  age_days = 800;
  author_association = "NONE";
  has_bio = true;
  has_company = false;
  has_location = false;
  has_website = false;
  has_public_email = false;
  commits = 4;
  total_commits = 10;
  total_contributors = 2;
  last_commit_days = 3;
  prs_merged = 0;
  prs_closed = 1;
  followers = 8;
  following = 4;
  public_repos = 10;
  recent_pr_repo_count = 2;
  forked_repos = 9;
  unverified_commits = 0;
  suspended = false;
  org_member = false;
  trusted_org_member = false;
  partial = false;
}

abbrev pub grace_profile : UserProfile
grace_profile = record {
  username = "grace";
  name = "Grace";
  email = "";
  avatar_url = "";
  company = "";
  location = "";
  bio = "bio";
  website = "";
  created_at = 1;
  suspended = false;
  followers = 8;
  following = 4;
  public_repos = 10;
}

abbrev pub activity : LifetimeActivity
activity = record {
  prs_opened = 4;
  prs_merged = 1;
  prs_closed = 1;
  reviews_given = 2;
  issue_comments = 3;
  issues_opened = 1;
  issues_closed = 3;
  active_days = 7;
  first_active = none;
  last_active = none;
}

abbrev pub nothing_found : Findings ℕ
nothing_found = record {
  lifetime = some activity;
  top_repos = [];
  accounts = [];
  emails = "grace@example.com" ∷ [];
  owned = none;
  credits = none;
  card = none;
  publisher = none;
  stack_overflow = λ linked. none;
  cross_vcs = none;
}

abbrev pub grace_outside : Outside ℕ
grace_outside = record {
  stored_behavior = none;
  fetch_signals = λ hints. some grace_signals;
  fetch_user = some grace_profile;
  is_org_member = λ org. org == "acme";
  narrative = λ input. none;
  findings = λ p. nothing_found;
}

abbrev pub outage : Outside ℕ
outage = record grace_outside { fetch_signals = λ hints. none }

abbrev pub empty_cache : ScoreCache (ScoreResponse ℕ)
empty_cache = new_score_cache 100
