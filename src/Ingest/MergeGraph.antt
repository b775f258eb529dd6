-- ===== src/Ingest/MergeGraph.antt =====
-- The observations of pull requests that an hour leaves for the merge graph.
use devtrace.Base.Time.{Time}
use devtrace.Base.Maps.{get-put, get}
use devtrace.Base.{
  Option-cases, inl, inr, eq_iff, Bool-cases, true, [], sym, ap, ◌&&◌, false, ◌∙◌, ◌⊎◌, arith, refl,
  if◌then◌else◌, ◌∷◌, ◌≡◌, some, none, List, Option, String_eq,
}
use devtrace.Bot.{is_bot}
use devtrace.Ingest.Aggregator.{
  observation, key_of, is_observed, Aggregator, new_aggregator, add, observe, add_all,
}
use devtrace.Ingest.Events.{same_key_iff, same_key, PrEvent, PrEventKey, Event, PrEventKey_eq}

-- The first event of the hour that is an observation for the key.
unfoldable pub first_observation : PrEventKey → List Event → Option PrEvent
first_observation k [] = none
first_observation k (ev ∷ evs) =
    let rest = first_observation k evs in
    if is_observed ev && same_key (key_of ev) k then some (observation ev) else rest

abbrev pub or_else : Option PrEvent → Option PrEvent → Option PrEvent
or_else none o = o
or_else (some r) o = some r

or_else-none : (o : Option PrEvent) → o ≡ or_else o none
or_else-none none = refl
or_else-none (some r) = refl

get-observe :
    (m : List (PrEventKey × PrEvent)) (ev : Event) (k : PrEventKey)
    → get (observe m ev) k
      ≡ or_else
          (get m k)
          (if is_observed ev && same_key (key_of ev) k then some (observation ev) else none)
unfolding observe
get-observe m ev k = elim (Bool-cases (is_observed ev)) [
  | inr out ↦ rw out (or_else-none (get m k))
  | inl observed ↦ rw observed (elim (Option-cases (get m (key_of ev))) [
    | inl fresh ↦ rw fresh (
        get-put m (key_of ev) k (observation ev) ∙ elim (Bool-cases (same_key (key_of ev) k)) [
          | inl same ↦ rw same (
              let eq : key_of ev ≡ k = (same_key_iff (key_of ev) k).0 same in rw (← eq, fresh) refl)
          | inr differs ↦ rw differs (or_else-none (get m k))
        ])
    | inr (r, dup) ↦ rw dup (elim (Bool-cases (same_key (key_of ev) k)) [
      | inl same ↦
          (let eq : key_of ev ≡ k = (same_key_iff (key_of ev) k).0 same in
            rw (same, ← eq, dup) refl)
      | inr differs ↦ rw differs (or_else-none (get m k))
    ])
  ])
]

or_else_assoc : (x y z : Option PrEvent) → or_else (or_else x y) z ≡ or_else x (or_else y z)
or_else_assoc none y z = refl
or_else_assoc (some r) y z = refl

pr_events-add : (a : Aggregator) (ev : Event) → (add a ev).pr_events ≡ observe a.pr_events ev
unfolding add
pr_events-add a ev = ground arith

get-add_all :
    (k : PrEventKey) (a : Aggregator) (evs : List Event)
    → get (add_all a evs).pr_events k ≡ or_else (get a.pr_events k) (first_observation k evs)
unfolding add_all first_observation
get-add_all k a [] = or_else-none (get a.pr_events k)
get-add_all k a (ev ∷ evs) =
    get-add_all k (add a ev) evs
    ∙ rw (pr_events-add a ev, get-observe a.pr_events ev k)
        (or_else_assoc (get a.pr_events k) _ (first_observation k evs)
          ∙ ap (or_else (get a.pr_events k)) (ground arith))

-- For every PR and action the hour keeps the first event that observes it, by a bot or not, and
-- nothing where no event does; later observations of the same action change nothing.
pub pr_events_first :
    (k : PrEventKey) (at : Time) (evs : List Event)
    → get (add_all (new_aggregator at) evs).pr_events k ≡ first_observation k evs
unfolding new_aggregator get
pr_events_first k at evs = get-add_all k (new_aggregator at) evs

first_observation-author :
    (k : PrEventKey) (evs : List Event) (r : PrEvent)
    → first_observation k evs ≡ some r
    → (r.author ≡ "") ⊎ ((k.action ≡ "opened") × (is_bot r.author ≡ false))
unfolding first_observation
first_observation-author k [] r e = cc
first_observation-author k (ev ∷ evs) r e =
    elim (Bool-cases (is_observed ev && same_key (key_of ev) k)) [
      | inr miss ↦ first_observation-author k evs r (rw (miss, first_observation) at e)
      | inl hit ↦ by_hit hit (rw (hit, first_observation) at e)
    ]
  where
    by_hit :
        (is_observed ev && same_key (key_of ev) k) ≡ true
        → some (observation ev) ≡ some r
        → (r.author ≡ "") ⊎ ((k.action ≡ "opened") × (is_bot r.author ≡ false))
    by_hit hit e' = ground (arith, eq_iff ev.action k.action, eq_iff ev.action "opened")

-- An observation credits an author only for the opening of a PR, and never a bot.
pub pr_events-author :
    (k : PrEventKey) (at : Time) (evs : List Event) (r : PrEvent)
    → get (add_all (new_aggregator at) evs).pr_events k ≡ some r
    → (r.author ≡ "") ⊎ ((k.action ≡ "opened") × (is_bot r.author ≡ false))
pr_events-author k at evs r e =
    first_observation-author k evs r (sym (pr_events_first k at evs) ∙ e)
