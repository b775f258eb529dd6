-- ===== src/Service/FlowLaws.antt =====
-- A score is served again from the cache, and a failed request leaves no trace.
use devtrace.Service.CacheLaws.{cached-cache_set}
use devtrace.Bot.{is_bot}
use devtrace.Service.Gate.{enrich_for_plan}
use devtrace.Service.Narrative.{UserProfile}
use devtrace.Score.Signals.{InputSignals}
use devtrace.Base.Time.{after, Time}
use devtrace.Model.Response.{ScoreResponse}
use devtrace.Service.Cache.{cached, cache_key, cache_get, cache_set, ScoreCache}
use devtrace.Service.Flow.{
  hints_of, full_response, with_trusted_orgs, score, scored, unless_cached, fetched_score, Served,
  Outside, Request, Answer, answered, fetch_signals_failed, fetch_user_failed,
}
use devtrace.Score.Float.{Float}
use devtrace.Base.{
  ◌∷◌, [], List, String_eq, if◌then◌else◌, inr, ◌==◌, Bool-cases, inl, ◌⊎◌, eq_iff, ◌∙◌, ap, ◌+◌,
  ◌≤◌, refl, none, some, arith, ◌≡◌, Option, Bool, String, true, false,
}

abbrev pub is_answered : {W : Type 0} → Answer W → Bool
is_answered fetch_signals_failed = false
is_answered fetch_user_failed = false
is_answered (answered resp) = true

module _ {W : Type 0} ⦃f : Float W⦄ (version : String) where
  -- A request for what the cache has is served from it.
  score-hit :
      (r : Request) (out : Outside W) (c : ScoreCache (ScoreResponse W)) (now : Time)
      (full : ScoreResponse W)
      → is_bot r.username ≡ false
      → cache_get c r.username r.repo now ≡ some full
      → score version r out c now ≡ record {
        answer = answered (enrich_for_plan full r.plan_name now);
        cache = c;
        asked = false;
      }
  unfolding score
  score-hit r out c now full human hit = rw (human, hit) refl

module _ {W : Type 0} ⦃f : Float W⦄ (version : String) (r : Request) (out : Outside W)
    (c : ScoreCache (ScoreResponse W)) (now : Time) where
  -- A request that finds nothing in the cache and that GitHub answers stores the full response, and
  -- shows its caller what the plan allows.
  first_score :
      (s : InputSignals) (p : UserProfile)
      → is_bot r.username ≡ false
      → cache_get c r.username r.repo now ≡ none
      → out.fetch_signals (hints_of out.stored_behavior) ≡ some s
      → out.fetch_user ≡ some p
      → let full =
          full_response version r.username r.repo out
            (with_trusted_orgs out.is_org_member r.trusted_orgs s)
            p
            now in
        score version r out c now ≡ record {
          answer = answered (enrich_for_plan full r.plan_name now);
          cache = cache_set c r.username r.repo full now;
          asked = true;
        }
  unfolding score
  first_score s p human miss signals user = rw (human, miss, signals, user) refl

  stored_hit :
      (full : ScoreResponse W) (later : Time)
      → later ≤ now + c.ttl
      → cache_get (cache_set c r.username r.repo full now) r.username r.repo later ≡ some full
  stored_hit full later fresh =
      cached-cache_set c r.username r.repo full (cache_key r.username r.repo) now later
      ∙ ground (arith, eq_iff (cache_key r.username r.repo) (cache_key r.username r.repo))

  -- What a request does to the cache: nothing, or one entry with its answer.
  abbrev LeavesOrStores : Served W → Type 0
  LeavesOrStores s =
      (s.cache ≡ c)
      ⊎ (full : ScoreResponse W) × (s.cache ≡ cache_set c r.username r.repo full now)
        × (is_answered s.answer ≡ true)

  scored-frame :
      (s : InputSignals) (p : Option UserProfile) → LeavesOrStores (scored version r out c now s p)
  scored-frame s none = inl refl
  scored-frame s (some p) = inr (_, refl, refl)

  fetched_score-frame :
      (s : Option InputSignals) → LeavesOrStores (fetched_score version r out c now s)
  fetched_score-frame none = inl refl
  fetched_score-frame (some s) = scored-frame s out.fetch_user

  unless_cached-frame :
      (hit : Option (ScoreResponse W)) → LeavesOrStores (unless_cached version r out c now hit)
  unless_cached-frame none = fetched_score-frame _
  unless_cached-frame (some full) = inl refl

  score-frame : LeavesOrStores (score version r out c now)
  unfolding score
  score-frame = elim (Bool-cases (is_bot r.username)) [
    | inl bot ↦ rw bot (inl refl)
    | inr human ↦ rw human (unless_cached-frame _)
  ]

  -- A request that fails leaves the cache as it is, and no request changes what is cached for
  -- another key, at any time.
  pub score-elsewhere :
      (is_answered (score version r out c now).answer ≡ false
        → (score version r out c now).cache ≡ c)
      × ((key : String) (later : Time)
          → cache_key r.username r.repo == key ≡ false
          → cached (score version r out c now).cache key later ≡ cached c key later)
  score-elsewhere = elim score-frame [
    | inl same ↦ (λ h. same, λ key later other. ap (λ d. cached d key later) same)
    | inr (full, stored, ok) ↦ (
      λ h. absurd (ground arith),
      λ key later other.
          ap (λ d. cached d key later) stored
          ∙ cached-cache_set c r.username r.repo full key now later
          ∙ ap
              (λ b.
                if b
                then (if after later (now + c.ttl) then none else some full)
                else cached c key later)
              other,
    )
  ]

-- A later request, with what the outside would return for it, and its time.
pub record Later (W : Type 0) : Type 0 where
  pub request : Request
  pub outside : Outside W
  pub at : Time

module _ {W : Type 0} ⦃f : Float W⦄ (version : String) where
  -- The cache after a series of requests, whatever their logins, repos and plans.
  abbrev pub after_all :
      ScoreCache (ScoreResponse W) → List (Later W) → ScoreCache (ScoreResponse W)
  after_all c [] = c
  after_all c (l ∷ ls) = after_all (score version l.request l.outside c l.at).cache ls

  abbrev pub AllBy : Time → List (Later W) → Type 0
  AllBy deadline [] = Unit {0}
  AllBy deadline (l ∷ ls) = (l.at ≤ deadline) × AllBy deadline ls

  -- What is cached for a key until a deadline, and the time to live.
  abbrev Holds : String → ScoreResponse W → Time → ScoreCache (ScoreResponse W) → Type 0
  Holds key full deadline c = (t : Time) → t ≤ deadline → cached c key t ≡ some full

  score-bot :
      (r : Request) (out : Outside W) (c : ScoreCache (ScoreResponse W)) (now : Time)
      → is_bot r.username ≡ true
      → (score version r out c now).cache ≡ c
  unfolding score
  score-bot r out c now bot = rw bot refl

  score-Holds :
      (key : String) (full : ScoreResponse W) (deadline : Time) (c : ScoreCache (ScoreResponse W))
      (l : Later W)
      → l.at ≤ deadline
      → Holds key full deadline c
      → Holds key full deadline (score version l.request l.outside c l.at).cache
  score-Holds key full deadline c l soon h t le =
      elim (Bool-cases (cache_key l.request.username l.request.repo == key)) [
        | inr other ↦ (score-elsewhere version l.request l.outside c l.at).1 key t other ∙ h t le
        | inl same ↦ elim (Bool-cases (is_bot l.request.username)) [
          | inl bot ↦ ap (λ d. cached d key t) (score-bot l.request l.outside c l.at bot) ∙ h t le
          | inr human ↦
              let hit = ap (λ k. cached c k l.at) ((eq_iff _ key).0 same) ∙ h l.at soon in
              ap (λ x. cached x.cache key t)
                (score-hit version l.request l.outside c l.at full human hit)
              ∙ h t le
        ]
      ]

  after_all-Holds :
      (key : String) (full : ScoreResponse W) (deadline : Time) (c : ScoreCache (ScoreResponse W))
      (ls : List (Later W))
      → AllBy deadline ls
      → Holds key full deadline c
      → Holds key full deadline (after_all c ls)
  after_all-Holds key full deadline c [] by h = h
  after_all-Holds key full deadline c (l ∷ ls) by h =
      after_all-Holds key full deadline (score version l.request l.outside c l.at).cache ls by.1
        (score-Holds key full deadline c l by.0 h)

  -- A request that is not a bot's, that finds nothing in the cache and that GitHub answers leaves
  -- the full response in the cache, and its caller sees of it what the plan allows. Whatever
  -- requests come in between, every later request for the same login and repo is served that full
  -- response until the time to live is over, filtered for its own plan, whatever organisations it
  -- trusts and whatever the outside would return by then; GitHub is not asked, and the cache stays
  -- as it is.
  pub score-again :
      (r r' : Request) (out out' : Outside W) (c : ScoreCache (ScoreResponse W)) (now later : Time)
      (s : InputSignals) (p : UserProfile) (between : List (Later W))
      → is_bot r.username ≡ false
      → cache_get c r.username r.repo now ≡ none
      → out.fetch_signals (hints_of out.stored_behavior) ≡ some s
      → out.fetch_user ≡ some p
      → AllBy (now + c.ttl) between
      → r'.username ≡ r.username
      → r'.repo ≡ r.repo
      → later ≤ now + c.ttl
      → let full =
          full_response version r.username r.repo out
            (with_trusted_orgs out.is_org_member r.trusted_orgs s)
            p
            now in
        let first = score version r out c now in
        let d = after_all first.cache between in
        (first.answer ≡ answered (enrich_for_plan full r.plan_name now))
        × (score version r' out' d later ≡ record {
          answer = answered (enrich_for_plan full r'.plan_name later);
          cache = d;
          asked = false;
        })
  score-again r r' out out' c now later s p between human miss signals user soon same_user same_repo
        fresh =
      let full =
        full_response version r.username r.repo out
          (with_trusted_orgs out.is_org_member r.trusted_orgs s) p now in
      let first = first_score version r out c now s p human miss signals user in
      let holds : Holds (cache_key r.username r.repo) full (now + c.ttl)
          (score version r out c now).cache =
        λ t le.
          ap (λ x. cached x.cache (cache_key r.username r.repo) t) first
          ∙ stored_hit version r out c now full t le in
      let d = after_all (score version r out c now).cache between in
      let still =
        after_all-Holds (cache_key r.username r.repo) full (now + c.ttl) _ between soon holds later
          fresh in
      (
        ap (λ x. x.answer) first,
        score-hit version r' out' d later full (ap is_bot same_user ∙ human)
            (rw (same_user, same_repo) still),
      )
