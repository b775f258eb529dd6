-- ===== src/Ingest/UpkeepLaws.antt =====
-- The daily upkeep, and the sending of one digest.
use devtrace.Base.Time.{Time}
use devtrace.Ingest.Maintenance.{
  compact_older_than, compact_activity, day, compact_interval, is_recent, maybe_compact,
}
use devtrace.Ingest.Digest.{send_one_digest}
use devtrace.Base.{
  length-take-le, inr, ◌||◌, inl, Bool-cases, true, false, refl, nat_eq, ◌∷◌, length, if◌then◌else◌,
  not, take, ◌+◌, true, [], false, arith, ◌≤◌, ◌≡◌, ◌<◌, Bool, List,
}

-- A compaction that returns without an error saves its time, and until a day later nothing is
-- compacted or pruned again; one that fails saves nothing and prunes nothing, and the next run,
-- however soon, compacts again.
pub maybe_compact-daily :
    (last now later : Time) (compacted : Bool)
    → 0 < now
    → now ≤ later
    → is_recent last now compact_interval ≡ false
    → (later < now + day → maybe_compact now later compacted ≡ [])
      × (maybe_compact last now false ≡ compact_activity compact_older_than ∷ [])
      × (take 1 (maybe_compact last later compacted) ≡ compact_activity compact_older_than ∷ [])
unfolding maybe_compact
maybe_compact-daily last now later compacted positive le due =
    let still_due : is_recent last later compact_interval ≡ false = ground arith in
    (
      λ soon.
          let recent : is_recent now later compact_interval ≡ true = ground arith in rw recent refl,
      rw due refl,
      rw still_due refl,
    )

-- A digest that is not sent leaves every event unsent; one that is sent mails the newest ten, and
-- then no event is left unsent, or all are if the mark fails.
pub send_one_digest_lem :
    {E : Type 0}
    → (unsent : List E) (queried delivered marked : Bool)
    → let m = send_one_digest unsent queried delivered marked in
      (m.sent ≡ false → (m.unsent ≡ unsent) × (m.mailed ≡ []))
      × (m.sent ≡ true → (m.mailed ≡ take 10 unsent) × (m.unsent ≡ (if marked then [] else unsent)))
      × (length m.mailed ≤ 10)
unfolding send_one_digest
send_one_digest_lem unsent queried delivered marked =
    elim (Bool-cases (not queried || nat_eq (length (take 10 unsent)) 0 || not delivered)) [
      | inl failed ↦ rw failed (λ e. (refl, refl), λ e. absurd (ground arith), omega arith)
      | inr mailed ↦
          rw mailed (λ e. absurd (ground arith), λ e. (refl, refl), length-take-le 10 unsent)
    ]
