-- ===== src/Scorer/StaleExamples.antt =====
-- A pass over stale contributors and one scored contributor, on concrete inputs.
use devtrace.Scorer.ContributorLaws.{score_contributor-events, one_for_each, events_of}
use devtrace.Scorer.StaleLaws.{rescore_stale-counts}
use devtrace.Scorer.StaleTally.{among, tally, one_if, is_scored, is_err, is_terminal}
use devtrace.Score.Grade.{grade}
use devtrace.Score.Compute.{compute}
use devtrace.Scorer.Contributor.{
  notify_grade_change, archive_hints, score_contributor, Answers, insert_notification_event,
}
use devtrace.Ingest.Notify.{WatchlistEntry}
use devtrace.Score.Signals.{InputSignals}
use devtrace.Scorer.Stale.{start_stale, moves_stale, StaleBatch}
use devtrace.Score.Fixed.{ℕ_float}
use devtrace.Scorer.Drain.{Outcome, Move, scored, terminal, checks, acquires, ends}
use devtrace.Base.{
  ◌⊎◌, nat_eq, ◌≢◌, ◌<◌, refl, inl, some, length, zero, inr, true, ◌≡◌, [], suc, none, false, ◌∷◌,
  String, ℕ, List,
}

abbrev stale_outcome : ℕ → Outcome
stale_outcome zero = scored
stale_outcome (suc i) = terminal

abbrev stale_batch : StaleBatch
stale_batch = record { total = 2; concurrency = 2; outcome = stale_outcome }

abbrev stale_order : List Move
stale_order = checks ∷ acquires ∷ checks ∷ acquires ∷ ends 1 ∷ checks ∷ ends 0 ∷ []

stale_end :
    let s = moves_stale stale_batch start_stale stale_order in
    (s.stopped ≡ true) × (length s.running ≡ 0) × (s.cancelled ≡ false) × (s.dry ≡ false)
unfolding moves_stale start_stale
stale_end = (refl, refl, refl, refl)

rescore_stale-counts_example :
    let s = moves_stale stale_batch start_stale stale_order in
    (s.scored_count ≡ among (λ j. is_scored (stale_batch.outcome j)) 2)
    × (s.err_count ≡ among (λ j. is_err (stale_batch.outcome j)) 2)
    × ((k : ℕ)
        → k < 2
        → tally (λ j. nat_eq j k) s.tombstoned ≡ one_if (is_terminal (stale_batch.outcome k)))
rescore_stale-counts_example =
    rescore_stale-counts stale_batch stale_order stale_end.0 stale_end.1 stale_end.2 stale_end.3

abbrev hopper_signals : InputSignals
hopper_signals = record {
  age_days = 10;
  author_association = "";
  has_bio = false;
  has_company = false;
  has_location = false;
  has_website = false;
  has_public_email = false;
  commits = 0;
  total_commits = 0;
  total_contributors = 0;
  last_commit_days = 0;
  prs_merged = 0;
  prs_closed = 0;
  followers = 0;
  following = 0;
  public_repos = 0;
  recent_pr_repo_count = 0;
  forked_repos = 0;
  unverified_commits = 0;
  suspended = true;
  org_member = false;
  trusted_org_member = false;
  partial = false;
}

abbrev watchlist : WatchlistEntry
watchlist = record { id = "w1"; tenant_id = "t1"; target = "acme"; source = "org"; plan = "pro" }

abbrev answers : Answers ℕ String
answers = record {
  current_grade = "A";
  behavioral_signals = none;
  cached_signals = none;
  fetch_signals = λ hints. inr hopper_signals;
  reputation_error = none;
  watchlists = some (watchlist ∷ []);
}

-- The account was suspended, so its grade falls to F.
hopper_is_notified :
    events_of (score_contributor answers).writes ≡ insert_notification_event "w1" "A" "F" ∷ []
unfolding score_contributor archive_hints compute grade notify_grade_change
hopper_is_notified = refl

score_contributor-events_example :
    ((e : String)
      → answers.fetch_signals (archive_hints {W = ℕ} none none) ≡ inl e
      → score_contributor answers ≡ record { error = some e; writes = [] })
    × ((s : InputSignals)
        → answers.fetch_signals (archive_hints {W = ℕ} none none) ≡ inr s
        → let now = grade (compute {W = ℕ} s false none) in
          let events = events_of (score_contributor answers).writes in
          ((score_contributor answers).error ≡ none)
          × ((e : String) → answers.reputation_error ≡ some e → events ≡ [])
          × (answers.reputation_error ≡ none
              → ((answers.current_grade ≢ ""
                    → answers.current_grade ≢ now
                    → events ≡ one_for_each "A" now (some (watchlist ∷ [])))
                  × ((answers.current_grade ≡ "") ⊎ (answers.current_grade ≡ now) → events ≡ []))))
score_contributor-events_example = score_contributor-events answers
