-- ===== src/Github/Account.antt =====
-- mapUser, and the signals that fetchSignals reads of an account (pkg/github/fetch.go).
use devtrace.Base.{String_eq, true, none, false, ◌==◌, some, Bool, ℕ, not, Option, String}
use devtrace.Service.Narrative.{UserProfile}
use devtrace.Score.Signals.{InputSignals}
use devtrace.Github.Stats.{days_since}
use devtrace.Base.Time.{Time}

-- gh.User, its missing texts and numbers as go-github's getters return them.
pub record GhUser : Type 0 where
  pub login : String
  pub name : String
  pub email : String
  pub avatar_url : String
  pub company : String
  pub location : String
  pub bio : String
  pub blog : String
  pub followers : ℕ
  pub following : ℕ
  pub public_repos : ℕ
  pub suspended_at : Option Time
  pub created_at : Option Time

abbrev pub is_some : Option Time → Bool
is_some none = false
is_some (some t) = true

abbrev pub time_or_zero : Option Time → Time
time_or_zero none = 0
time_or_zero (some t) = t

unfoldable pub map_user : GhUser → UserProfile
map_user u = record {
  username = u.login;
  name = u.name;
  email = u.email;
  avatar_url = u.avatar_url;
  company = u.company;
  location = u.location;
  bio = u.bio;
  website = u.blog;
  created_at = time_or_zero u.created_at;
  suspended = is_some u.suspended_at;
  followers = u.followers;
  following = u.following;
  public_repos = u.public_repos;
}

abbrev pub profile_signals : UserProfile → Time → InputSignals
profile_signals p now = record {
  age_days = days_since p.created_at now;
  author_association = "";
  has_bio = not (p.bio == "");
  has_company = not (p.company == "");
  has_location = not (p.location == "");
  has_website = not (p.website == "");
  has_public_email = not (p.email == "");
  commits = 0;
  total_commits = 0;
  total_contributors = 0;
  last_commit_days = 0;
  prs_merged = 0;
  prs_closed = 0;
  followers = p.followers;
  following = p.following;
  public_repos = p.public_repos;
  recent_pr_repo_count = 0;
  forked_repos = 0;
  unverified_commits = 0;
  suspended = p.suspended;
  org_member = false;
  trusted_org_member = false;
  partial = false;
}
