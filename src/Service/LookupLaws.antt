-- ===== src/Service/LookupLaws.antt =====
-- What a cached enrichment shows is what its row in the store says after the lookup.
use devtrace.Service.Npm.{npm_of_fetch}
use devtrace.Service.Ossf.{
  check_of, ossf_scorecard_enrichment, Check, materialize_ossf, ossf_of_fetch, Scorecard,
}
use devtrace.Base.Time.{Time, Duration}
use devtrace.Model.Enrichment.{Package, RegistryProfile, OssfScorecard, StackOverflow}
use devtrace.Service.Lookups.{is_fresh, Fetched, Row, Lookup, fetched, not_found, fetch_failed}
use devtrace.Score.Float.{Float}
use devtrace.Base.{
  if◌then◌else◌, Bool, [], ◌∷◌, map, inr, inl, Bool-cases, arith, false, nat_eq, length, true, refl,
  ◌<◌, ◌≡◌, none, ℕ, some, String, Option, List,
}

-- The row's value after a lookup, by whether the store takes a save: what was saved, or else what
-- was cached.
abbrev pub stored : {A : Type 0} → Bool → Lookup A → Row A → Option A
stored can_save l row = if can_save then or_else l.saved row.cached else row.cached
  where
    or_else : {A : Type 0} → Option A → Option A → Option A
    or_else none o = o
    or_else (some a) o = some a

some_checks : (cs : List Check) → 0 < length cs → nat_eq (length (map check_of cs)) 0 ≡ false
some_checks [] h = absurd (omega arith)
some_checks (c ∷ cs) h = ground arith

module _ {W : Type 0} ⦃f : Float W⦄ where
  ossf_of_fetch-stored :
      (row : Row (OssfScorecard W)) (fetch : Fetched (Scorecard W))
      → ((c : Scorecard W) → fetch ≡ fetched c → 0 < length c.checks)
      → (ossf_of_fetch row fetch).shown
        ≡ materialize_ossf (stored true (ossf_of_fetch row fetch) row)
  ossf_of_fetch-stored row (fetched c) h = rw (some_checks c.checks (h c refl)) refl
  ossf_of_fetch-stored row not_found h = refl
  ossf_of_fetch-stored row fetch_failed h = refl

npm_of_fetch-stored :
    (row : Row RegistryProfile) (fetch : Fetched (ℕ × List Package))
    → (npm_of_fetch row fetch).shown ≡ stored true (npm_of_fetch row fetch) row
npm_of_fetch-stored row (fetched c) = refl
npm_of_fetch-stored row not_found = refl
npm_of_fetch-stored row fetch_failed = refl

module _ {W : Type 0} ⦃f : Float W⦄ where
  -- With a store that takes the save and a client, the scorecard that is shown for a repo is the one of the store's
  -- row after the lookup, if a card that the API returns has a check; from a fresh row nothing is
  -- asked or saved.
  pub ossf_scorecard_enrichment-stored :
      (ttl : Duration) (r : String × String) (row : String × String → Row (OssfScorecard W))
      (now : Time) (fetch : String × String → Fetched (Scorecard W))
      → ((c : Scorecard W) → fetch r ≡ fetched c → 0 < length c.checks)
      → let l = ossf_scorecard_enrichment ttl true (some r) row now fetch in
        (l.shown ≡ materialize_ossf (stored true l (row r)))
        × (is_fresh (row r) now ttl ≡ true → (l.asked ≡ false) × (l.saved ≡ none))
  unfolding ossf_scorecard_enrichment
  ossf_scorecard_enrichment-stored ttl r row now fetch h =
      elim (Bool-cases (is_fresh (row r) now ttl)) [
        | inl fresh ↦ rw fresh (refl, λ f. (refl, refl))
        | inr stale ↦
            rw stale (ossf_of_fetch-stored (row r) (fetch r) h, λ f. absurd (ground arith))
      ]
