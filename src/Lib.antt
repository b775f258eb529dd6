-- ===== src/Lib.antt =====
-- The core logic of devtrace, a service that scores GitHub contributors: the pool of GitHub
-- tokens, the plans and the rate limits of its API, the score engine and the score service, the
-- ingestion of GH Archive, the background scorer, what is fetched from GitHub, the watchlists and
-- their notification events, and the checks of a sign-in.
--
-- The parts, and where their code is.
--   Base         numbers, lists, maps, Boolean tests and time, shared by all parts; Base/Rows, Base/Order
--                and Base/Slices what SELECT does to rows: filter, sort, and a page.
--   Pool         TokenPool (pkg/github/tokenpool.go) and doRefresh (pkg/github/pool_refresh.go).
--                Pool/Defs has the record, Pool/Token the selection of a token, Pool/Marks the marks
--                of exhausted and rejected tokens and Replace, Pool/Reports what the pool tells,
--                Pool/Quota the quotas and their aggregates, Pool/Client the loop of attempts poolDo
--                (pkg/github/pool_client.go).
--   Plan         the plan table, Get and Upsell (pkg/plan/plan.go).
--   RateLimit    ipRateLimiter and authAwareRateLimit (pkg/server/ratelimit.go).
--   Bot          IsBot (pkg/bot/bot.go).
--   Score        Compute, Categories and Grade (pkg/score/score.go, pkg/score/grade.go) and
--                ComputeTier2Heuristics (pkg/score/heuristics.go). Score/Float is the interface of
--                float operations and their laws, Score/Fixed an instance that meets them.
--   Model        the types of a response (pkg/model/types.go).
--   Service      ScoreService (pkg/service/score.go): Flow the request, Gate the filter of a plan,
--                Narrative the texts, Enrich the enrichment, Lookups, StackOverflow, Ossf, Npm,
--                CrossVcs and Owned the lookups that are cached in the store, Repo splitOwnerRepo, and
--                Cache scoreCache (pkg/service/cache.go).
--   Ingest       Aggregator (pkg/ingest/aggregator.go), computeHours and Run (pkg/ingest/runner.go),
--                backfillHours and Backfill (pkg/ingest/backfill.go), queueContributors and
--                notifyWatchlists, processHour, and the upkeep and the digests in Ingest/Maintenance and
--                Ingest/Digest (pkg/ingest/runner.go).
--   Scorer       tokenPause, the quota gate, drainQueue, rescoreStale, scoreContributor and the
--                statistics (pkg/background/scorer.go), and the queue (pkg/data/postgres/queue.go).
--   Github       pkg/github/fetch.go: Credits has fetchUser and fetchSecurityCredits, Account the user
--                mapped to signals, Stats fetchContributorStats, Signals fetchSignals, Repos
--                fetchUserRepos.
--   Profile      AggregateRepos (pkg/profile/repos.go).
--   Compliance   EvaluatePractices (pkg/compliance/ssdf.go).
--   Watchlist    the tables of watchlists and of notification events with their statements
--                (pkg/data/postgres/watchlist.go): Store those on watchlists, Events those on events
--                with PruneNotificationEvents, Targets the joins with tenants and contributors, Summary
--                the text of an event.
--   Server       Names the checks of names, ScoreApi scoreHandler and checkQuota
--                (pkg/server/handler_score.go), TokenApi createTokenHandler
--                (pkg/server/handler_token.go), Watchlists the handlers of watchlists
--                (pkg/server/handler_watchlist.go), Events the activity table
--                (pkg/server/handler_events.go).
--   Middleware   the CSRF double submit (pkg/middleware/csrf.go) and the checks of a sign-in
--                (pkg/middleware/auth.go, pkg/middleware/admin.go).
--   Tenant       sessions (pkg/tenant/session.go) and API tokens (pkg/tenant/apitoken.go).
--
-- How they interact: the ingestion adds the events of an hour to the summaries, leaving out bots,
-- and queues contributors; the scorer takes a batch off the queue, waits where the pool or its
-- quotas are low, and hands back what a dry pool kept it from scoring; the middleware asks the
-- plans for the limits of a tenant; the score service computes a score and its enrichment once, keeps
-- the response in its cache, and shows each caller what the plan allows. The fetches run in the pool's
-- loop of attempts, which takes a rate limit that they report for one of the token. The ingestion
-- asks the watchlists for their targets and inserts their events; a page of the dashboard reads the
-- events, and the limit of the plan bounds the watchlists that a tenant adds.
--
-- Conventions. A function that changes a Go struct takes its record and returns the new one; the
-- mutex makes every such call one step. time.Now() is an argument. A Time is a number of
-- nanoseconds, 0 for Go's zero time; a Duration likewise. An int is a natural number where the code
-- keeps it from being negative. A Go map is an association list or a function of its key. What HTTP
-- calls, the database and the score of a contributor return is an argument. Goroutines are moves of
-- one state in any order, or the order in which their failures arrive is an argument. A table is
-- the list of its rows, a SQL statement a function of the tables, and each is one step; the id of a
-- new row is an argument, and that an id belongs to one row is a hypothesis where it matters. A
-- float64 is a value of any type with the operations of Score/Float; a constant of the code is the
-- ratio of its digits. The laws speak of counts that are ints, and are those of IEEE 754 arithmetic
-- and of package math that the code relies on, NaN included: x is at most x only if it is a number.
--
-- Bounds and fuel. The rounds of backfillHours' loop are the hours between its start and its end
-- and one more, and the hours it returns are shown to reach the end. The batches of a backfill
-- have as much fuel as there are hours, and together are all the hours. The attempts of poolDo are
-- bounded by the code itself. The pages of fetchUserRepos have as much fuel as the cap and one more,
-- which is shown to be enough where a page that has a next one is not empty. All other loops are
-- structural.
--
-- Not modelled: HTTP, JSON, templates, logging, metrics, configuration and start-up, which are I/O and
-- layout; the SQL of other tables than the scoring queue, watchlists, notification events, sessions and
-- tokens; the rows of tenants, of their usage and of the GitHub App; the admin pages and the other pages,
-- which put rows into templates; the endless loops around the steps of the ingestion and of the scorer;
-- the regular expressions that find links in a profile; random bytes and hashes, which are arguments.
pub mod Base
pub mod Bot
pub mod Compliance
pub mod Github
pub mod Ingest
pub mod Middleware
pub mod Model
pub mod Plan
pub mod Pool
pub mod Profile
pub mod RateLimit
pub mod Score
pub mod Scorer
pub mod Server
pub mod Service
pub mod Tenant
pub mod Watchlist
