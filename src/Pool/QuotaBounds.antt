-- ===== src/Pool/QuotaBounds.antt =====
-- The aggregate of a family over the tokens: a percentage, and the earliest reset.
use devtrace.Base.Time.{Time}
use devtrace.Base.{
  String_eq, false, true, ◌==◌, inr, inl, nat_eq, ◌⊎◌, ◌/◌, Bool-cases, eq_iff, ◌≡◌, ◌*◌, [], arith,
  ◌<◌, ◌≢◌, ◌∷◌, ◌≤◌, List, ℕ,
}
use devtrace.Pool.Quota.{add_quota, aggregate, TokenQuota, Family, totals}

-- Quotas that GitHub reports never have more left than the limit.
abbrev pub AllWithin : (TokenQuota → Family) → List TokenQuota → Type 0
AllWithin pick [] = Unit {0}
AllWithin pick (q ∷ qs) = ((pick q).remaining ≤ (pick q).limit) × AllWithin pick qs

totals_within :
    (pick : TokenQuota → Family) (total : Family) (qs : List TokenQuota)
    → total.remaining ≤ total.limit
    → AllWithin pick qs
    → (totals pick total qs).remaining ≤ (totals pick total qs).limit
unfolding totals
totals_within pick total [] h w = h
totals_within pick total (q ∷ qs) h w =
    totals_within pick (add_quota pick total q) qs (ground arith) w.1

percent_bound : (r l : ℕ) → r ≤ l → l ≢ 0 → r * 100 / l ≤ 100
percent_bound r l h n = grind arith

-- No healthy quota resets before `t`, and none is without a reset.
abbrev pub AllAfter : (TokenQuota → Family) → Time → List TokenQuota → Type 0
AllAfter pick t [] = Unit {0}
AllAfter pick t (q ∷ qs) =
    ((q.error ≢ "") ⊎ (t ≤ (pick q).reset) ⊎ ((pick q).reset ≡ 0)) × AllAfter pick t qs

totals_reset_le :
    (pick : TokenQuota → Family) (total : Family) (qs : List TokenQuota)
    → 0 < total.reset
    → ((totals pick total qs).reset ≤ total.reset) × (0 < (totals pick total qs).reset)
unfolding totals
totals_reset_le pick total [] h = omega arith
totals_reset_le pick total (q ∷ qs) h =
    let (below, pos) = totals_reset_le pick (add_quota pick total q) qs (ground arith) in
    (ground arith, pos)

totals_earliest :
    (pick : TokenQuota → Family) (total : Family) (qs : List TokenQuota)
    → AllAfter pick (totals pick total qs).reset qs
unfolding totals
totals_earliest pick total [] = tt
totals_earliest pick total (q ∷ qs) =
    (head (Bool-cases (q.error == "")), totals_earliest pick (add_quota pick total q) qs)
  where
    reported : Time
    reported = (totals pick (add_quota pick total q) qs).reset

    head :
        ((q.error == "") ≡ true) ⊎ ((q.error == "") ≡ false)
        → (q.error ≢ "") ⊎ (reported ≤ (pick q).reset) ⊎ ((pick q).reset ≡ 0)
    head (inl e) = inr (ground (arith, totals_reset_le pick (add_quota pick total q) qs))
    head (inr e) = inl (λ same. cc ((eq_iff q.error "").1 same, e))

-- The aggregate percentage is at most 100, whichever tokens failed to answer, if no token has more
-- left than its limit; and the reported reset is not after the reset of any token that answered
-- with one.
pub aggregate_bounds :
    (pick : TokenQuota → Family) (qs : List TokenQuota)
    → AllWithin pick qs
    → ((aggregate pick qs).0 ≤ 100) × AllAfter pick (aggregate pick qs).1 qs
unfolding aggregate
aggregate_bounds pick qs w =
    let start : Family = record { limit = 0; remaining = 0; reset = 0 } in
    (
      ground (
        arith,
        totals_within pick start qs (omega arith) w,
        percent_bound (totals pick start qs).remaining (totals pick start qs).limit,
      ),
      elim (Bool-cases (nat_eq (totals pick start qs).limit 0)) [
        | inl e ↦ rw e (totals_earliest pick start qs)
        | inr e ↦ rw e (totals_earliest pick start qs)
      ],
    )
