-- ===== src/Ingest/Digest.antt =====
-- maybeSendDigests, sendDigests, sendOneDigest and digestDay (pkg/ingest/runner.go). A tenant's id is
-- its bytes.
use devtrace.Ingest.Maintenance.{is_recent}
use devtrace.Base.Time.{hour, Time, Duration}
use devtrace.Plan.Defs.{plan_or_free}
use Prim.Native.Nat.{◌^◌, ℕ, bit_xor}
use devtrace.Base.{
  none, some, Option, true, false, length, nat_eq, ◌&&◌, ◌||◌, not, [], if◌then◌else◌, ◌*◌, take,
  ◌+◌, String, ◌%◌, ◌∷◌, Bool, List,
}

-- FNV-1a of 32 bits.
abbrev pub fnv_offset : ℕ
fnv_offset = 2166136261

abbrev pub fnv_prime : ℕ
fnv_prime = 16777619

unfoldable pub sum32_from : ℕ → List ℕ → ℕ
sum32_from h [] = h
sum32_from h (b ∷ bytes) = sum32_from (bit_xor h b * fnv_prime % 2 ^ 32) bytes

unfoldable pub digest_day : List ℕ → ℕ
digest_day tenant_id = sum32_from fnv_offset tenant_id % 7

pub record DigestTarget : Type 0 where
  pub tenant_id : List ℕ
  pub email : String
  pub username : String
  pub plan : String

pub data Decision : Type 0 where
  passes_over skips sends : Decision

-- What the loop does with a target on a weekday.
unfoldable pub decide : Bool → (String → Bool) → ℕ → DigestTarget → Decision
decide dry_run is_admin today t =
    if not (plan_or_free t.plan).digest_email
    then passes_over
    else (if dry_run && not (is_admin t.username)
        then skips
        else (if not (nat_eq (digest_day t.tenant_id) today) then passes_over else sends))

-- `sent` and `skipped`; `send` is sendOneDigest of a target.
abbrev pub count_decision : Decision → Bool → ℕ × ℕ → ℕ × ℕ
count_decision passes_over sent n = n
count_decision skips sent n = (n.0, n.1 + 1)
count_decision sends sent n = (n.0 + (if sent then 1 else 0), n.1)

unfoldable pub send_digests :
    Bool → (String → Bool) → ℕ → (DigestTarget → Bool) → List DigestTarget → ℕ × ℕ
send_digests dry_run is_admin today send [] = (0, 0)
send_digests dry_run is_admin today send (t ∷ ts) =
    count_decision (decide dry_run is_admin today t) (send t)
      (send_digests dry_run is_admin today send ts)

abbrev pub digest_max_events_per_email : ℕ
digest_max_events_per_email = 10

-- One digest: the events that were mailed, the unsent events after it, and whether it was sent.
pub record Mailed (E : Type 0) : Type 0 where
  pub mailed : List E
  pub unsent : List E
  pub sent : Bool

-- The unsent events of the tenant, newest first, and whether the query, the mail and the mark
-- succeed.
unfoldable pub send_one_digest : {E : Type 0} → List E → Bool → Bool → Bool → Mailed E
send_one_digest unsent queried delivered marked =
    let events = take digest_max_events_per_email unsent in
    if not queried || nat_eq (length events) 0 || not delivered
    then record { mailed = []; unsent = unsent; sent = false }
    else record { mailed = events; unsent = if marked then [] else unsent; sent = true }

abbrev pub digest_interval : Duration
digest_interval = 24 * hour

-- One sweep: what was sent and skipped, and whether its time is saved. `targets` is none if their
-- query fails.
pub record Sweep : Type 0 where
  pub counts : ℕ × ℕ
  pub saved : Bool

abbrev pub swept : (List DigestTarget → ℕ × ℕ) → Option (List DigestTarget) → Sweep
swept send_all none = record { counts = (0, 0); saved = false }
swept send_all (some targets) = record { counts = send_all targets; saved = true }

unfoldable pub maybe_send_digests :
    Time
    → Time
    → Bool
    → Bool
    → (String → Bool)
    → ℕ
    → (DigestTarget → Bool)
    → Option (List DigestTarget)
    → Sweep
maybe_send_digests last now has_key dry_run is_admin today send targets =
    if is_recent last now digest_interval
    then record { counts = (0, 0); saved = false }
    else (if not has_key
        then record { counts = (0, 0); saved = true }
        else swept (send_digests dry_run is_admin today send) targets)
