-- ===== src/Ingest/Totals.antt =====
-- The summaries of an hour against the events of that hour.
use devtrace.Ingest.Counters.{
  prs_opened, value, counts, value_of, one_if, value-count_event, Counter,
}
use devtrace.Base.Time.{Time}
use devtrace.Base.Maps.{get-put, get}
use devtrace.Base.{
  ap, true, false, inr, ◌∙◌, inl, eq_iff, Bool-cases, [], arith, refl, ◌+◌, none, ◌∷◌, ◌≡◌,
  if◌then◌else◌, some, ◌&&◌, List, Option, ℕ, String, ◌==◌, String_eq,
}
use devtrace.Bot.{is_bot}
use devtrace.Ingest.Aggregator.{
  new_aggregator, Aggregator, add, summary_or_new, credit, with_repo, count_event, add_all,
}
use devtrace.Ingest.Events.{Event, Summary}

-- The events of the actor `u` that a counter counts.
pub events_by : Counter → String → List Event → ℕ
events_by c u [] = 0
events_by c u (ev ∷ evs) = one_if (ev.actor == u && counts c ev) + events_by c u evs

value-with_repo : (c : Counter) (r : String) (s : Summary) → value c (with_repo r s) ≡ value c s
value-with_repo prs_opened r s = refl
value-with_repo _ r s = refl

value-summary_or_new :
    (c : Counter) (u : String) (o : Option Summary) → value c (summary_or_new u o) ≡ value_of c o
value-summary_or_new prs_opened u none = refl
value-summary_or_new _ u none = refl
value-summary_or_new c u (some s) = refl

summary_after : Event → List (String × Summary) → Summary
summary_after ev m = count_event ev (with_repo ev.repo (summary_or_new ev.actor (get m ev.actor)))

get-credit :
    (m : List (String × Summary)) (ev : Event) (u : String)
    → get (credit m ev) u ≡ (if ev.actor == u then some (summary_after ev m) else get m u)
unfolding credit summary_after
get-credit m ev u = get-put m ev.actor u _

value-credit :
    (c : Counter) (m : List (String × Summary)) (ev : Event) (u : String)
    → value_of c (get (credit m ev) u)
      ≡ value_of c (get m u) + one_if (ev.actor == u && counts c ev)
unfolding summary_after
value-credit c m ev u = elim (Bool-cases (ev.actor == u)) [
  | inl same ↦
      (let eq : ev.actor ≡ u = (eq_iff ev.actor u).0 same in
        rw (get-credit m ev u, same)
          (value-count_event c ev _
            ∙ rw (value-with_repo c ev.repo, value-summary_or_new c ev.actor (get m ev.actor), eq)
                refl))
  | inr differs ↦ rw (get-credit m ev u, differs) (omega arith)
]

value-add :
    (c : Counter) (a : Aggregator) (ev : Event) (u : String)
    → is_bot u ≡ false
    → value_of c (get (add a ev).summaries u)
      ≡ value_of c (get a.summaries u) + one_if (ev.actor == u && counts c ev)
unfolding add
value-add c a ev u human = elim (Bool-cases (is_bot ev.actor)) [
  | inl bot ↦ rw bot (ground (arith, eq_iff ev.actor u, ap is_bot ((eq_iff ev.actor u).0 _)))
  | inr man ↦ rw man (value-credit c a.summaries ev u)
]

value-add_all :
    (c : Counter) (u : String) (a : Aggregator) (evs : List Event)
    → is_bot u ≡ false
    → value_of c (get (add_all a evs).summaries u)
      ≡ value_of c (get a.summaries u) + events_by c u evs
unfolding add_all events_by
value-add_all c u a [] human = omega arith
value-add_all c u a (ev ∷ evs) human =
    omega (arith, value-add_all c u (add a ev) evs human, value-add c a ev u human)

get-add_bot :
    (a : Aggregator) (ev : Event) (u : String)
    → is_bot u ≡ true
    → get (add a ev).summaries u ≡ get a.summaries u
unfolding add
get-add_bot a ev u bot = elim (Bool-cases (is_bot ev.actor)) [
  | inl robot ↦ rw robot refl
  | inr man ↦
      rw (man, get-credit a.summaries ev u)
        (elim (Bool-cases (ev.actor == u)) [
          | inl same ↦ (let clash : is_bot u ≡ false = rw (← (eq_iff ev.actor u).0 same) man in cc)
          | inr differs ↦ rw differs refl
        ])
]

get-add_all_bot :
    (u : String) (a : Aggregator) (evs : List Event)
    → is_bot u ≡ true
    → get (add_all a evs).summaries u ≡ get a.summaries u
unfolding add_all
get-add_all_bot u a [] bot = refl
get-add_all_bot u a (ev ∷ evs) bot = get-add_all_bot u (add a ev) evs bot ∙ get-add_bot a ev u bot

-- What the summaries of an hour hold of the login `u` under a counter; 0 without a summary.
abbrev pub tally : Counter → String → Aggregator → ℕ
tally c u a = value_of c (get a.summaries u)

-- After any events of an hour, in any order, each counter of a contributor who is no bot is the
-- number of the contributor's events that it counts, and a bot has no summary at all.
pub tally_exact :
    (c : Counter) (u : String) (at : Time) (evs : List Event)
    → let a = add_all (new_aggregator at) evs in
      (is_bot u ≡ false → tally c u a ≡ events_by c u evs)
      × (is_bot u ≡ true → get a.summaries u ≡ none)
unfolding new_aggregator get
tally_exact c u at evs = (
  λ man. value-add_all c u (new_aggregator at) evs man ∙ omega arith,
  λ bot. get-add_all_bot u (new_aggregator at) evs bot ∙ refl,
)
