-- ===== src/Ingest/UpkeepExamples.antt =====
-- The day of a digest at a concrete tenant.
use devtrace.Ingest.Digest.{fnv_offset, sum32_from, digest_day}
use devtrace.Base.{refl, [], ◌≡◌, ◌∷◌}

-- FNV-1a of "a" is 0xe40c292c.
digest_of_a : (sum32_from fnv_offset (97 ∷ []) ≡ 0xe40c292c) × (digest_day (97 ∷ []) ≡ 5)
unfolding digest_day sum32_from
digest_of_a = (refl, refl)
