-- ===== src/Plan/Tiers.antt =====
-- The tiers are ordered, and every name resolves to a tier within fixed limits.
use devtrace.Base.{
  refl, sym, eq_iff, inr, ◌≢◌, inl, Bool-cases, ◌↔◌, ◌⊎◌, none, true, ◌||◌, ◌≡◌, not, String, arith,
  ◌≤◌, Bool, ◌==◌, String_eq,
}
use devtrace.Plan.Defs.{get_plan, upsell, starter, plan_or_free, Plan, free, pro}

abbrev pub implies : Bool → Bool → Bool
implies a b = not a || b

-- Everything that `q` grants is at least what `p` grants.
pub record Below (p q : Plan) : Type 0 where
  pub contributors : p.max_contributors ≤ q.max_contributors
  pub rate : p.rate_limit_per_hour ≤ q.rate_limit_per_hour
  pub history : p.history_days ≤ q.history_days
  pub keys : p.max_api_keys ≤ q.max_api_keys
  pub watchlists : p.max_watchlists ≤ q.max_watchlists
  pub retention : p.event_retention_days ≤ q.event_retention_days
  pub events : p.max_events_per_tenant ≤ q.max_events_per_tenant
  pub deep : implies p.deep_scoring q.deep_scoring ≡ true
  pub sensing : implies p.ai_sensing q.ai_sensing ≡ true
  pub batch : implies p.batch_api q.batch_api ≡ true
  pub hooks : implies p.webhooks q.webhooks ≡ true
  pub reports : implies p.compliance_reports q.compliance_reports ≡ true
  pub digest : implies p.digest_email q.digest_email ≡ true

plan_cases :
    (name : String)
    → ((plan_or_free name ≡ free) × ((get_plan name ≡ none) ⊎ (name ≡ "free")))
      ⊎ ((plan_or_free name ≡ starter) × (name ≡ "starter"))
      ⊎ ((plan_or_free name ≡ pro) × (name ≡ "pro"))
unfolding plan_or_free
plan_cases name = elim (Bool-cases (name == "free")) [
  | inl f ↦ inl (rw (f, plan_or_free) refl, inr ((eq_iff name "free").0 f))
  | inr nf ↦ elim (Bool-cases (name == "starter")) [
    | inl s ↦ inr (inl (rw (nf, s, plan_or_free) refl, (eq_iff name "starter").0 s))
    | inr ns ↦ elim (Bool-cases (name == "pro")) [
      | inl p ↦ inr (inr (rw (nf, ns, p, plan_or_free) refl, (eq_iff name "pro").0 p))
      | inr np ↦ inl (rw (nf, ns, np, plan_or_free) refl, inl (rw (nf, ns, np, get_plan) refl))
    ]
  ]
]

free-Below : Below free free
free-Below = ground arith

free-Below-starter : Below free starter
free-Below-starter = ground arith

free-Below-pro : Below free pro
free-Below-pro = ground arith

starter-Below-pro : Below starter pro
starter-Below-pro = ground arith

pro-Below : Below pro pro
pro-Below = ground arith

-- Whatever name a tenant's plan has, known or not, the plan that applies grants at least what Free
-- grants and at most what Pro grants; and a name that is found yields the plan of that name.
pub plan_or_free-Below :
    (name : String)
    → Below free (plan_or_free name)
      × Below (plan_or_free name) pro
      × ((get_plan name ≡ none) ⊎ ((plan_or_free name).name ≡ name))
plan_or_free-Below name = elim (plan_cases name) [
  | inl (e, inl unknown) ↦ rw e (free-Below, free-Below-pro, inl unknown)
  | inl (e, inr known) ↦ rw e (free-Below, free-Below-pro, inr (sym known))
  | inr (inl (e, known)) ↦ rw e (free-Below-starter, starter-Below-pro, inr (sym known))
  | inr (inr (e, known)) ↦ rw e (free-Below-pro, pro-Below, inr (sym known))
]

-- An upgrade is offered exactly to a visitor without a plan and to the tiers below Pro.
pub upsell-tiers :
    (name : String) → (upsell name ≡ none) ↔ ((name ≢ "") × (name ≢ "free") × (name ≢ "starter"))
unfolding upsell
upsell-tiers name = (
  λ h. (
    λ e. ground (arith, eq_iff name ""),
    λ e. ground (arith, eq_iff name "", eq_iff name "free"),
    λ e. ground (arith, eq_iff name "", eq_iff name "free", eq_iff name "starter"),
  ),
  λ h. ground (arith, eq_iff name "", eq_iff name "free", eq_iff name "starter", h.0, h.1, h.2),
)
