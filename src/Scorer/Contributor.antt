-- ===== src/Scorer/Contributor.antt =====
-- scoreContributor and notifyGradeChange (pkg/background/scorer.go): what is written to the store,
-- in order, with what the store and GitHub return as arguments. An error is an E.
use devtrace.Score.Grade.{grade}
use devtrace.Score.Compute.{compute}
use devtrace.Service.Flow.{ArchiveHints}
use devtrace.Ingest.Notify.{WatchlistEntry}
use devtrace.Score.Signals.{InputSignals, Behavior}
use devtrace.Score.Float.{Float}
use devtrace.Base.{
  false, String_eq, ◌&&◌, inr, if◌then◌else◌, ◌==◌, none, true, max, inl, not, [], ◌∷◌, some, Bool,
  ◌⊎◌, Option, String, List,
}

pub data Write (W : Type 0) : Type 0 where
  upsert_contributor : Write W
  save_score_history : W → String → Bool → Write W
  update_reputation : W → String → Bool → InputSignals → Write W
  -- A score_change event for a watchlist, with the old and the new grade.
  insert_notification_event : String → String → String → Write W

-- The answers for one contributor. A missing grade is "", and an error of the watchlists none;
-- errors of the other writes are only logged.
pub record Answers (W : Type 0) (E : Type 0) : Type 0 where
  pub current_grade : String
  pub behavioral_signals : Option (Behavior W)
  pub cached_signals : Option InputSignals
  pub fetch_signals : Option ArchiveHints → E ⊎ InputSignals
  pub reputation_error : Option E
  pub watchlists : Option (List WatchlistEntry)

pub record Scoring (W : Type 0) (E : Type 0) : Type 0 where
  pub error : Option E
  pub writes : List (Write W)

abbrev pub floor_of : Option InputSignals → ArchiveHints → ArchiveHints
floor_of none h = h
floor_of (some cached) h = record h {
  prs_merged = max h.prs_merged cached.prs_merged;
  prs_closed = max h.prs_closed cached.prs_closed;
  recent_pr_repo_count = max h.recent_pr_repo_count cached.recent_pr_repo_count;
}

unfoldable pub archive_hints :
    {W : Type 0} → Option (Behavior W) → Option InputSignals → Option ArchiveHints
archive_hints none cached = none
archive_hints (some beh) cached = some (
    floor_of cached (record {
      prs_merged = beh.total_prs_merged;
      prs_closed = beh.total_prs_closed;
      recent_pr_repo_count = beh.distinct_repos_90d;
      trusted = true;
    }))

abbrev pub events_for : {W : Type 0} → String → String → List WatchlistEntry → List (Write W)
events_for old_grade new_grade [] = []
events_for old_grade new_grade (wl ∷ wls) =
    insert_notification_event wl.id old_grade new_grade ∷ events_for old_grade new_grade wls

unfoldable pub notify_grade_change :
    {W : Type 0} → Option (List WatchlistEntry) → String → String → List (Write W)
notify_grade_change none old_grade new_grade = []
notify_grade_change (some wls) old_grade new_grade = events_for old_grade new_grade wls

abbrev pub is_changed : String → String → Bool
is_changed old_grade new_grade = not (old_grade == "") && not (old_grade == new_grade)

module _ {W : Type 0} ⦃f : Float W⦄ {E : Type 0} where
  -- Behind the reputation: the events of a changed grade.
  abbrev pub notified : Answers W E → String → Option E → List (Write W)
  notified a new_grade (some e) = []
  notified a new_grade none =
      if is_changed a.current_grade new_grade
      then notify_grade_change a.watchlists a.current_grade new_grade
      else []

  abbrev pub persisted : Answers W E → E ⊎ InputSignals → Scoring W E
  persisted a (inl e) = record { error = some e; writes = [] }
  persisted a (inr s) =
      let value = compute s false a.behavioral_signals in
      let deep = not s.partial in
      record {
        error = a.reputation_error;
        writes =
            upsert_contributor
            ∷ save_score_history value (grade value) deep
            ∷ update_reputation value (grade value) deep s
            ∷ notified a (grade value) a.reputation_error;
      }

  unfoldable pub score_contributor : Answers W E → Scoring W E
  score_contributor a =
      persisted a (a.fetch_signals (archive_hints a.behavioral_signals a.cached_signals))
