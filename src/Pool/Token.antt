-- ===== src/Pool/Token.antt =====
-- TokenPool.Token: the round-robin choice of a token.
use devtrace.Base.Time.{Time, after}
use devtrace.Base.{
  ℕ, zero, suc, ◌+◌, ◌%◌, false, ◌&&◌, Option, none, some, String, length, set, get_or,
  if◌then◌else◌, nat_eq,
}
use devtrace.Pool.Defs.{TokenPool, entry_at, exhausted_at, until_at, near_expiry, signal_refresh}

-- Auto-reset of a token whose rate-limit reset time has passed.
unfoldable pub auto_reset : TokenPool → ℕ → Time → TokenPool
auto_reset p idx now =
    if exhausted_at p idx && after now (until_at p idx)
    then record p { exhausted = set p.exhausted idx false }
    else p

-- The selected token: its use is counted, and the refresh is signalled if it is near its expiry.
unfoldable pub grant : TokenPool → ℕ → Time → TokenPool
unfolding signal_refresh
grant p idx now =
    let counted = record p { counts = set p.counts idx (get_or p.counts idx 0 + 1) } in
    if near_expiry (entry_at p idx) now then signal_refresh counted else counted

-- `p.current = (idx + 1) % n`
unfoldable pub advance : TokenPool → TokenPool
advance p = record p { current = (p.current + 1) % length p.entries }

-- The loop `for range n`, over the rounds left; the index of the token that it selects.
unfoldable pub scan : ℕ → Time → TokenPool → TokenPool × Option ℕ
unfolding auto_reset grant advance
scan zero now p = (p, none)
scan (suc rounds) now p =
    let q = auto_reset (advance p) p.current now in
    let rest = scan rounds now q in
    if exhausted_at q p.current then rest else (grant q p.current now, some p.current)

unfoldable pub pick : TokenPool → Time → TokenPool × Option ℕ
unfolding scan
pick p now = scan (length p.entries) now p

abbrev pub token_of : TokenPool → Option ℕ → String
token_of p none = ""
token_of p (some i) = (entry_at p i).token

unfoldable pub token : TokenPool → Time → TokenPool × String
unfolding pick
token p now =
    if nat_eq (length p.entries) 0
    then (p, "")
    else let (q, chosen) = pick p now in (q, token_of q chosen)
