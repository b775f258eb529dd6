-- ===== src/Service/CrossVcsLaws.antt =====
-- The matches of the forges are anchored, and a shown comparison is never empty.
use devtrace.Service.LookupLaws.{stored}
use devtrace.Base.Time.{Time, Duration}
use devtrace.Model.Enrichment.{CrossVcs, ForgeMatch}
use devtrace.Service.Lookups.{is_fresh, Row, Fetched, fetched, not_found, fetch_failed}
use devtrace.Service.CrossVcs.{
  supported_forges, materialize_cross_vcs, match_of, cross_vcs_of_fetch, matches_of, and_match,
  count_matched, cross_vcs_enrichment, Forge, github,
}
use devtrace.Base.{
  Option, inr, none, refl, inl, false, nat_eq, Bool-cases, suc, arith, true, some, [], length, ◌≡◌,
  ◌≤◌, ◌∷◌, String, List,
}

count_matched-le : (gh fps : List String) → count_matched gh fps ≤ length fps
count_matched-le gh [] = omega arith
count_matched-le gh (fp ∷ fps) = ground (arith, count_matched-le gh fps)

-- A match has a shared key, and no more than the forge has.
abbrev pub AreAnchored : List ForgeMatch → Type 0
AreAnchored [] = Unit {0}
AreAnchored (m ∷ ms) = (1 ≤ m.matched_keys) × (m.matched_keys ≤ m.key_count) × AreAnchored ms

module _ (url : Forge → String) (gh_set : List String) (fetch : Forge → Fetched (List String)) where
  and_match-AreAnchored :
      (forge : Forge) (fps : Fetched (List String)) (ms : List ForgeMatch)
      → AreAnchored ms
      → AreAnchored (and_match (match_of url gh_set forge fps) ms)
        × (length (and_match (match_of url gh_set forge fps) ms) ≤ suc (length ms))
  and_match-AreAnchored forge not_found ms h = (h, omega arith)
  and_match-AreAnchored forge fetch_failed ms h = (h, omega arith)
  and_match-AreAnchored forge (fetched fps) ms h =
      elim (Bool-cases (nat_eq (count_matched gh_set fps) 0)) [
        | inl nothing ↦ rw nothing (h, omega arith)
        | inr shared ↦ rw shared ((ground arith, count_matched-le gh_set fps, h), omega arith)
      ]

  matches_of-AreAnchored :
      (forges : List Forge)
      → AreAnchored (matches_of url gh_set fetch forges)
        × (length (matches_of url gh_set fetch forges) ≤ length forges)
  matches_of-AreAnchored [] = (tt, omega arith)
  matches_of-AreAnchored (forge ∷ forges) =
      let rest = matches_of-AreAnchored forges in
      let here =
        and_match-AreAnchored forge (fetch forge) (matches_of url gh_set fetch forges) rest.0 in
      (here.0, omega (arith, here.1, rest.1))

-- What may be saved: anchored matches, at most three, counted.
abbrev pub IsCounted : Option CrossVcs → Type 0
IsCounted none = Unit {0}
IsCounted (some c) =
    AreAnchored c.matches × (c.total_matched ≡ length c.matches) × (c.total_matched ≤ 3)

of_fetch :
    (url : Forge → String) (row : Row CrossVcs) (fetch : Forge → Fetched (List String))
    (gh : Fetched (List String))
    → let l = cross_vcs_of_fetch url row fetch gh in
      (l.shown ≡ materialize_cross_vcs (stored true l row)) × IsCounted l.saved
of_fetch url row fetch not_found = (refl, tt)
of_fetch url row fetch fetch_failed = (refl, tt)
of_fetch url row fetch (fetched []) = (refl, (tt, refl, omega arith))
of_fetch url row fetch (fetched (fp ∷ fps)) =
    let anchored = matches_of-AreAnchored url (fp ∷ fps) fetch supported_forges in
    (refl, (anchored.0, refl, anchored.1))

-- With a store and a client, the comparison that is shown is the one of the store's row after the
-- lookup. A saved comparison has at most three matches, each with at least one key of GitHub's and
-- no more than the forge's keys, and counts them. From a fresh row nothing is asked or saved.
pub cross_vcs_enrichment-stored :
    (url : Forge → String) (ttl : Duration) (row : Row CrossVcs) (now : Time)
    (fetch : Forge → Fetched (List String))
    → let l = cross_vcs_enrichment url ttl true row now fetch in
      (l.shown ≡ materialize_cross_vcs (stored true l row))
      × IsCounted l.saved
      × (is_fresh row now ttl ≡ true → (l.asked ≡ false) × (l.saved ≡ none))
unfolding cross_vcs_enrichment
cross_vcs_enrichment-stored url ttl row now fetch = elim (Bool-cases (is_fresh row now ttl)) [
  | inl fresh ↦ rw fresh (refl, tt, λ f. (refl, refl))
  | inr stale ↦
      let stored = of_fetch url row fetch (fetch github) in
      rw stale (stored.0, stored.1, λ f. absurd (ground arith))
]
