-- ===== src/Score/Scope.antt =====
-- What a score without a repo depends on.
use devtrace.Score.Curves.{count_if, profile_score}
use devtrace.Score.Compute.{
  category_behavioral, category_community, category_engagement, category_identity,
  category_code_provenance, behavioral_score, raw_score, categories, compute,
}
use devtrace.Score.Signals.{Behavior, InputSignals}
use devtrace.Score.Float.{Float}
use devtrace.Base.{
  inr, inl, Bool-cases, ◌+◌, length, true, refl, ◌≡◌, false, String_eq, ◌==◌, Option, any, Bool,
  map, String, List,
}

abbrev keys {ℓ} : {A : Type ℓ} → List (String × A) → List String
keys entries = map (λ e. e.0) entries

abbrev has_key : String → List String → Bool
has_key k ks = any (λ j. j == k) ks

-- Another view of the same account: all that belongs to a repo is replaced.
abbrev pub elsewhere : InputSignals → InputSignals → InputSignals
elsewhere other s = record s {
  author_association = other.author_association;
  commits = other.commits;
  total_commits = other.total_commits;
  total_contributors = other.total_contributors;
  last_commit_days = other.last_commit_days;
  unverified_commits = other.unverified_commits;
  org_member = other.org_member;
  trusted_org_member = other.trusted_org_member;
}

module _ {W : Type 0} ⦃f : Float W⦄ where
  -- Without a repo neither the score nor a category depends on a signal that belongs to a repo,
  -- trusted organisations included.
  pub compute-elsewhere :
      (s other : InputSignals) (beh : Option (Behavior W))
      → (compute (elsewhere other s) false beh ≡ compute s false beh)
        × (categories (elsewhere other s) false beh ≡ categories s false beh)
  unfolding compute raw_score categories behavioral_score profile_score
  compute-elsewhere s other beh = (refl, refl)

  -- The categories are the five names, code provenance only with a repo, also for a suspended
  -- account; none stands twice.
  pub categories_keys :
      (s : InputSignals) (has_repo : Bool) (beh : Option (Behavior W))
      → (has_key category_code_provenance (keys (categories s has_repo beh)) ≡ has_repo)
        × (has_key category_identity (keys (categories s has_repo beh)) ≡ true)
        × (has_key category_engagement (keys (categories s has_repo beh)) ≡ true)
        × (has_key category_community (keys (categories s has_repo beh)) ≡ true)
        × (has_key category_behavioral (keys (categories s has_repo beh)) ≡ true)
        × (length (categories s has_repo beh) ≡ 4 + count_if has_repo)
  unfolding categories
  categories_keys s true beh = elim (Bool-cases s.suspended) [
    | inl out ↦ rw out (refl, refl, refl, refl, refl, refl)
    | inr on ↦ rw on (refl, refl, refl, refl, refl, refl)
  ]
  categories_keys s false beh = elim (Bool-cases s.suspended) [
    | inl out ↦ rw out (refl, refl, refl, refl, refl, refl)
    | inr on ↦ rw on (refl, refl, refl, refl, refl, refl)
  ]
