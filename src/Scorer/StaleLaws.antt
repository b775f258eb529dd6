-- ===== src/Scorer/StaleLaws.antt =====
-- A pass over stale contributors, in every order of its moves.
use devtrace.Scorer.StaleTally.{
  among-at, tally-empty, is_scored, is_err, is_terminal, one_if, tally, among, is_tomb_of,
  among-next, tally-remove,
}
use devtrace.Scorer.DrainInvariant.{length-remove}
use devtrace.Scorer.Stale.{moves_stale, start_stale, Stale, move_stale, conclude_stale, StaleBatch}
use devtrace.Scorer.Drain.{
  remove, is_running, Move, Outcome, scored, no_tokens, terminal, failed, checks, acquires, cancels,
  ends,
}
use devtrace.Base.{
  ltb, inr, inl, ap, Bool-cases, ◌&&◌, nat_eq, refl, ◌+◌, length, ◌<◌, true, ◌⊎◌, false, [], arith,
  ◌≡◌, ◌≤◌, ◌∷◌, ℕ, List,
}

pub record IsCounted (b : StaleBatch) (s : Stale) : Type 0 where
  pub next_le : s.next ≤ b.total
  pub checked_lt : (s.checked ≡ false) ⊎ (s.next < b.total)
  pub bounded : length s.running ≤ b.concurrency
  pub counted : s.scored_count + s.err_count + length s.tombstoned + length s.running ≡ s.next
  pub reason : (s.stopped ≡ false) ⊎ (s.cancelled ≡ true) ⊎ (s.dry ≡ true) ⊎ (s.next ≡ b.total)

conclude_stale-IsCounted :
    (b : StaleBatch) (i : ℕ) (o : Outcome) (s : Stale)
    → b.outcome i ≡ o
    → IsCounted b s
    → is_running i s.running ≡ true
    → IsCounted b (conclude_stale i o (record s { running = remove i s.running }))
unfolding conclude_stale
conclude_stale-IsCounted b i scored s e v r = ground (arith, length-remove i s.running)
conclude_stale-IsCounted b i no_tokens s e v r = ground (arith, length-remove i s.running)
conclude_stale-IsCounted b i terminal s e v r = ground (arith, length-remove i s.running)
conclude_stale-IsCounted b i failed s e v r = ground (arith, length-remove i s.running)

move_stale-IsCounted :
    (b : StaleBatch) (s : Stale) (m : Move) → IsCounted b s → IsCounted b (move_stale b s m)
unfolding move_stale
move_stale-IsCounted b s checks v = ground arith
move_stale-IsCounted b s acquires v = ground arith
move_stale-IsCounted b s cancels v = ground arith
move_stale-IsCounted b s (ends i) v =
    ground (arith, conclude_stale-IsCounted b i (b.outcome i) s refl v)

start_stale-IsCounted : (b : StaleBatch) → IsCounted b start_stale
unfolding start_stale
start_stale-IsCounted b = ground arith

moves_stale-IsCounted :
    (b : StaleBatch) (s : Stale) (ms : List Move) → IsCounted b s → IsCounted b (moves_stale b s ms)
unfolding moves_stale
moves_stale-IsCounted b s [] v = v
moves_stale-IsCounted b s (m ∷ ms) v =
    moves_stale-IsCounted b (move_stale b s m) ms (move_stale-IsCounted b s m v)

-- The counters are those of the contributors that were spawned and do not run any more.
record IsExact (b : StaleBatch) (k : ℕ) (s : Stale) : Type 0 where
  scored_exact :
      s.scored_count + tally (λ j. is_scored (b.outcome j)) s.running
      ≡ among (λ j. is_scored (b.outcome j)) s.next
  err_exact :
      s.err_count + tally (λ j. is_err (b.outcome j)) s.running
      ≡ among (λ j. is_err (b.outcome j)) s.next
  tomb_exact :
      tally (λ j. nat_eq j k) s.tombstoned + tally (is_tomb_of b k) s.running
      ≡ among (is_tomb_of b k) s.next

conclude_stale-IsExact :
    (b : StaleBatch) (k i : ℕ) (o : Outcome) (s : Stale)
    → b.outcome i ≡ o
    → IsExact b k s
    → is_running i s.running ≡ true
    → IsExact b k (conclude_stale i o (record s { running = remove i s.running }))
unfolding conclude_stale
conclude_stale-IsExact b k i o s e v r =
    let p = tally-remove (λ j. is_scored (b.outcome j)) i s.running r in
    let q = tally-remove (λ j. is_err (b.outcome j)) i s.running r in
    let u = tally-remove (is_tomb_of b k) i s.running r in
    by_outcome o (rw e at p) (rw e at q) (rw e at u)
  where
    by_outcome :
        (o : Outcome)
        → tally (λ j. is_scored (b.outcome j)) (remove i s.running) + one_if (is_scored o)
          ≡ tally (λ j. is_scored (b.outcome j)) s.running
        → tally (λ j. is_err (b.outcome j)) (remove i s.running) + one_if (is_err o)
          ≡ tally (λ j. is_err (b.outcome j)) s.running
        → tally (is_tomb_of b k) (remove i s.running) + one_if (nat_eq i k && is_terminal o)
          ≡ tally (is_tomb_of b k) s.running
        → IsExact b k (conclude_stale i o (record s { running = remove i s.running }))
    by_outcome scored p q u = ground (arith, v, p, q, u)
    by_outcome no_tokens p q u = ground (arith, v, p, q, u)
    by_outcome terminal p q u = ground (arith, v, p, q, u)
    by_outcome failed p q u = ground (arith, v, p, q, u)

move_stale-IsExact :
    (b : StaleBatch) (k : ℕ) (s : Stale) (m : Move) → IsExact b k s → IsExact b k (move_stale b s m)
unfolding move_stale
move_stale-IsExact b k s checks v = ground arith
move_stale-IsExact b k s acquires v = elim (Bool-cases s.checked) [
  | inr idle ↦
      rw idle (record {
        scored_exact = v.scored_exact;
        err_exact = v.err_exact;
        tomb_exact = v.tomb_exact;
      })
  | inl ready ↦ rw ready (elim (Bool-cases s.cancelled) [
    | inl over ↦ rw over (record {
      scored_exact = v.scored_exact;
      err_exact = v.err_exact;
      tomb_exact = v.tomb_exact;
    })
    | inr on ↦ rw on (elim (Bool-cases (ltb (length s.running) b.concurrency)) [
      | inr full ↦ rw full (record {
        scored_exact = v.scored_exact;
        err_exact = v.err_exact;
        tomb_exact = v.tomb_exact;
      })
      | inl room ↦ rw room (record {
        scored_exact = omega (arith, v, among-next (λ j. is_scored (b.outcome j)) s.next);
        err_exact = omega (arith, v, among-next (λ j. is_err (b.outcome j)) s.next);
        tomb_exact = omega (arith, v, among-next (is_tomb_of b k) s.next);
      })
    ])
  ])
]
move_stale-IsExact b k s cancels v = ground arith
move_stale-IsExact b k s (ends i) v =
    ground (arith, conclude_stale-IsExact b k i (b.outcome i) s refl v)

moves_stale-IsExact :
    (b : StaleBatch) (k : ℕ) (s : Stale) (ms : List Move)
    → IsExact b k s
    → IsExact b k (moves_stale b s ms)
unfolding moves_stale
moves_stale-IsExact b k s [] v = v
moves_stale-IsExact b k s (m ∷ ms) v =
    moves_stale-IsExact b k (move_stale b s m) ms (move_stale-IsExact b k s m v)

start_stale-IsExact : (b : StaleBatch) (k : ℕ) → IsExact b k start_stale
unfolding start_stale
start_stale-IsExact b k = ground arith

-- When a pass is over that was neither cancelled nor met an empty pool, then in every order of the
-- goroutines as many contributors were counted as scored as there are stale ones whose scoring
-- succeeds, as many as errors as there are ones with an error that is not terminal, and each stale
-- contributor with a terminal error has one tombstone, the others none.
pub rescore_stale-counts :
    (b : StaleBatch) (ms : List Move)
    → let s = moves_stale b start_stale ms in
      s.stopped ≡ true
      → length s.running ≡ 0
      → s.cancelled ≡ false
      → s.dry ≡ false
      → (s.scored_count ≡ among (λ j. is_scored (b.outcome j)) b.total)
        × (s.err_count ≡ among (λ j. is_err (b.outcome j)) b.total)
        × ((k : ℕ)
            → k < b.total
            → tally (λ j. nat_eq j k) s.tombstoned ≡ one_if (is_terminal (b.outcome k)))
rescore_stale-counts b ms over idle alive wet =
    let s = moves_stale b start_stale ms in
    let v = moves_stale-IsCounted b start_stale ms (start_stale-IsCounted b) in
    let all : s.next ≡ b.total = ground (arith, v) in
    let at = λ (k : ℕ). moves_stale-IsExact b k start_stale ms (start_stale-IsExact b k) in
    (
      (let e = ap (λ n. among (λ j. is_scored (b.outcome j)) n) all in
          omega (
            arith,
            e,
            (at 0).scored_exact,
            tally-empty (λ j. is_scored (b.outcome j)) s.running idle,
          )),
      (let e = ap (λ n. among (λ j. is_err (b.outcome j)) n) all in
          omega
            (arith, e, (at 0).err_exact, tally-empty (λ j. is_err (b.outcome j)) s.running idle)),
      λ k lt.
          (let e = ap (λ n. among (is_tomb_of b k) n) all in
            omega (
              arith,
              e,
              among-at b k b.total lt,
              (at k).tomb_exact,
              tally-empty (is_tomb_of b k) s.running idle,
            )),
    )
