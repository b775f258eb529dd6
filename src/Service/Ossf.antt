-- ===== src/Service/Ossf.antt =====
-- ossfScorecardEnrichment and materializeOSSF (pkg/service/score.go).
use devtrace.Score.Curves.{zero_w}
use devtrace.Service.Lookups.{
  Fetched, Lookup, Row, fetch_failed, fetched, is_fresh, not_found, shows,
}
use devtrace.Base.Int.{ℤ}
use devtrace.Score.Float.{Float}
use devtrace.Model.Enrichment.{OssfScorecard, OssfCheck}
use devtrace.Base.Time.{Duration, Time}
use devtrace.Base.{
  none, not, true, length, [], nat_eq, if◌then◌else◌, Bool, map, some, String, Option, List,
}

abbrev pub materialize_ossf : {W : Type 0} → Option (OssfScorecard W) → Option (OssfScorecard W)
materialize_ossf none = none
materialize_ossf (some card) = if nat_eq (length card.checks) 0 then none else some card

-- ossf.Scorecard and its checks.
pub record Check : Type 0 where
  pub name : String
  pub score : ℤ
  pub reason : String
  pub doc_url : String

pub record Scorecard (W : Type 0) : Type 0 where
  pub score : W
  pub date : Time
  pub commit : String
  pub scorecard_ver : String
  pub checks : List Check

abbrev pub check_of : Check → OssfCheck
check_of c = record { name = c.name; score = c.score; reason = c.reason; doc_url = c.doc_url }

module _ {W : Type 0} ⦃f : Float W⦄ where
  -- `&model.OSSFScorecard{}`
  abbrev pub no_scorecard : OssfScorecard W
  no_scorecard = record { score = zero_w; date = 0; commit = ""; scorecard_ver = ""; checks = [] }

  abbrev pub scorecard_of : Scorecard W → OssfScorecard W
  scorecard_of card = record {
    score = card.score;
    date = card.date;
    commit = card.commit;
    scorecard_ver = card.scorecard_ver;
    checks = map check_of card.checks;
  }

  abbrev pub ossf_of_fetch :
      Row (OssfScorecard W) → Fetched (Scorecard W) → Lookup (OssfScorecard W)
  ossf_of_fetch row (fetched card) =
      let out = scorecard_of card in record { shown = some out; saved = some out; asked = true }
  ossf_of_fetch row not_found = record { shown = none; saved = some no_scorecard; asked = true }
  ossf_of_fetch row fetch_failed = record {
    shown = materialize_ossf row.cached;
    saved = none;
    asked = true;
  }

  -- `named` is what splitOwnerRepo makes of the repo: the row and the fetch are those of its result.
  unfoldable pub ossf_scorecard_enrichment :
      Duration
      → Bool
      → Option (String × String)
      → (String × String → Row (OssfScorecard W))
      → Time
      → (String × String → Fetched (Scorecard W))
      → Lookup (OssfScorecard W)
  ossf_scorecard_enrichment ttl is_set none row now fetch = shows none
  ossf_scorecard_enrichment ttl is_set (some r) row now fetch =
      if not is_set
      then shows none
      else (if is_fresh (row r) now ttl
          then shows (materialize_ossf (row r).cached)
          else ossf_of_fetch (row r) (fetch r))
