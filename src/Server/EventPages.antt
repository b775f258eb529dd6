-- ===== src/Server/EventPages.antt =====
-- The pages of the activity table together (pkg/server/handler_events.go).
use devtrace.Base.{Bool, ◌+◌, ◌++◌, zero, suc, ◌≡◌, String, List, [], ℕ}
use devtrace.Watchlist.Defs.{Tables}
use devtrace.Watchlist.Events.{
  Texts, NotificationEvent, NotificationEventFilter, matching, is_newer,
}
use devtrace.Server.Events.{fetch_events}
use devtrace.Base.Rows.{count}
use devtrace.Base.Order.{IsOrdered}

-- What ORDER BY promises: the same rows, none before a newer one.
pub record IsOrderBy (newest_first : ℕ → List NotificationEvent → List NotificationEvent)
    : Type 0 where
  pub ordered :
      (offset : ℕ) (es : List NotificationEvent) → IsOrdered is_newer (newest_first offset es)
  pub same_rows :
      (offset : ℕ) (es : List NotificationEvent) (q : NotificationEvent → Bool)
      → count q (newest_first offset es) ≡ count q es

module _ (ops : Texts) (decimal : ℕ → String) (tenant_id : String) (f : NotificationEventFilter)
    (t : Tables) where
  -- The rows of a page, and those of `n` pages from page `p` on.
  abbrev pub page_rows : ℕ → List NotificationEvent
  page_rows p = (fetch_events ops decimal tenant_id f p t).1

  abbrev pub pages_from : ℕ → ℕ → List NotificationEvent
  pages_from p zero = []
  pages_from p (suc n) = page_rows p ++ pages_from (p + 1) n

  -- The database lists the rows under ORDER BY in the same order for every page, which it does
  -- where no two of them have the same time.
  abbrev pub IsSteady : Type 0
  IsSteady =
      (offset : ℕ)
      → ops.newest_first offset (matching ops tenant_id f t)
        ≡ ops.newest_first 0 (matching ops tenant_id f t)

  module _ (orders : IsOrderBy ops.newest_first) (steady : IsSteady) where
    abbrev listed : List NotificationEvent
    listed = ops.newest_first 0 (matching ops tenant_id f t)
