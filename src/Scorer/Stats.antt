-- ===== src/Scorer/Stats.antt =====
-- scorerStats (pkg/background/scorer.go).
use devtrace.Base.{◌+◌, ℕ}

pub record ScorerStats : Type 0 where
  pub total_scored : ℕ
  pub total_errors : ℕ
  pub total_with_hints : ℕ
  pub window_scored : ℕ
  pub window_errors : ℕ
  pub window_hints : ℕ

unfoldable pub record_batch : ScorerStats → ℕ → ℕ → ℕ → ScorerStats
record_batch s scored errors with_hints = record {
  total_scored = s.total_scored + scored;
  total_errors = s.total_errors + errors;
  total_with_hints = s.total_with_hints + with_hints;
  window_scored = s.window_scored + scored;
  window_errors = s.window_errors + errors;
  window_hints = s.window_hints + with_hints;
}

abbrev pub window : ScorerStats → ℕ × ℕ × ℕ
window s = (s.window_scored, s.window_errors, s.window_hints)

unfoldable pub reset_window : ScorerStats → ScorerStats
reset_window s = record s { window_scored = 0; window_errors = 0; window_hints = 0 }
