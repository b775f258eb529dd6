-- ===== src/Scorer/ContributorLaws.antt =====
-- Which notifications and hints a scored contributor gives rise to.
use devtrace.Score.Compute.{compute}
use devtrace.Score.Grade.{grade}
use devtrace.Score.Signals.{InputSignals}
use devtrace.Ingest.Notify.{WatchlistEntry}
use devtrace.Score.Float.{Float}
use devtrace.Scorer.Contributor.{
  is_changed, events_for, archive_hints, score_contributor, notify_grade_change, Answers, Write,
  upsert_contributor, save_score_history, update_reputation, insert_notification_event,
}
use devtrace.Base.{
  eq_iff, ◌⊎◌, ◌≢◌, ap, map, true, false, inr, refl, [], arith, inl, some, if◌then◌else◌, true, ◌≡◌,
  none, Option, ◌∷◌, false, Bool, String, List,
}

abbrev pub is_event : {W : Type 0} → Write W → Bool
is_event upsert_contributor = false
is_event (save_score_history v g d) = false
is_event (update_reputation v g d s) = false
is_event (insert_notification_event id old_grade new_grade) = true

-- The events among the writes, in order.
abbrev pub events_of : {W : Type 0} → List (Write W) → List (Write W)
events_of [] = []
events_of (w ∷ ws) = let rest = events_of ws in if is_event w then w ∷ rest else rest

-- One event with the old and the new grade for each watchlist, under the watchlist's id.
abbrev pub one_for_each :
    {W : Type 0} → String → String → Option (List WatchlistEntry) → List (Write W)
one_for_each old_grade new_grade none = []
one_for_each old_grade new_grade (some wls) =
    map (λ wl. insert_notification_event wl.id old_grade new_grade) wls

events_of-events_for :
    (W : Type 0) (old_grade new_grade : String) (wls : List WatchlistEntry)
    → events_of {W = W} (events_for old_grade new_grade wls)
      ≡ one_for_each old_grade new_grade (some wls)
events_of-events_for W old_grade new_grade [] = refl
events_of-events_for W old_grade new_grade (wl ∷ wls) =
    ap (λ ws. insert_notification_event wl.id old_grade new_grade ∷ ws)
      (events_of-events_for W old_grade new_grade wls)

events_of-notify :
    (W : Type 0) (old_grade new_grade : String) (wls : Option (List WatchlistEntry))
    → events_of {W = W} (notify_grade_change wls old_grade new_grade)
      ≡ one_for_each old_grade new_grade wls
unfolding notify_grade_change
events_of-notify W old_grade new_grade none = refl
events_of-notify W old_grade new_grade (some wls) = events_of-events_for W old_grade new_grade wls

events_of-if :
    (W : Type 0) (old_grade new_grade : String) (wls : Option (List WatchlistEntry))
    (changed : Bool)
    → (changed ≡ true
        → events_of {W = W} (if changed then notify_grade_change wls old_grade new_grade else [])
          ≡ one_for_each old_grade new_grade wls)
      × (changed ≡ false
          → events_of {W = W} (if changed then notify_grade_change wls old_grade new_grade else [])
            ≡ [])
events_of-if W old_grade new_grade wls true =
    (λ e. events_of-notify W old_grade new_grade wls, λ e. cc)
events_of-if W old_grade new_grade wls false = (λ e. cc, λ e. refl)

had_another :
    (old_grade new_grade : String)
    → old_grade ≢ ""
    → old_grade ≢ new_grade
    → is_changed old_grade new_grade ≡ true
had_another old_grade new_grade some_grade other =
    ground (arith, eq_iff old_grade "", eq_iff old_grade new_grade)

same_or_none :
    (old_grade new_grade : String)
    → (old_grade ≡ "") ⊎ (old_grade ≡ new_grade)
    → is_changed old_grade new_grade ≡ false
same_or_none old_grade new_grade h = ground (arith, eq_iff old_grade "", eq_iff old_grade new_grade)

module _ {W : Type 0} ⦃f : Float W⦄ {E : Type 0} where
  -- If GitHub fails for a contributor, that error is returned and nothing is written. Otherwise the
  -- error is that of the reputation's update: with one no watchlist is notified. Without one, a
  -- contributor who had a grade and has another one now gives each watchlist one event, under the
  -- watchlist's id and with the grade before and the grade of the new score, and a contributor who
  -- had none, or has the same one, gives no event.
  pub score_contributor-events :
      (a : Answers W E)
      → ((e : E)
          → a.fetch_signals (archive_hints a.behavioral_signals a.cached_signals) ≡ inl e
          → score_contributor a ≡ record { error = some e; writes = [] })
        × ((s : InputSignals)
            → a.fetch_signals (archive_hints a.behavioral_signals a.cached_signals) ≡ inr s
            → let now = grade (compute s false a.behavioral_signals) in
              let events = events_of (score_contributor a).writes in
              ((score_contributor a).error ≡ a.reputation_error)
              × ((e : E) → a.reputation_error ≡ some e → events ≡ [])
              × (a.reputation_error ≡ none
                  → ((a.current_grade ≢ ""
                        → a.current_grade ≢ now
                        → events ≡ one_for_each a.current_grade now a.watchlists)
                      × ((a.current_grade ≡ "") ⊎ (a.current_grade ≡ now) → events ≡ []))))
  unfolding score_contributor
  score_contributor-events a = (
    λ e failed. rw failed refl,
    λ s answered. rw answered (
      refl,
      λ e broken. rw broken refl,
      λ fine.
          (let letter = grade (compute s false a.behavioral_signals) in
            let n =
              events_of-if W a.current_grade letter a.watchlists
                (is_changed a.current_grade letter) in
            rw fine (
              λ had other. n.0 (had_another a.current_grade letter had other),
              λ quiet. n.1 (same_or_none a.current_grade letter quiet),
            )),
    ),
  )
