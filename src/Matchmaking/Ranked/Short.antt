-- ===== src/Matchmaking/Ranked/Short.antt =====
-- What a tick of the ranked queue leaves in the buckets (`try_form_match` of
-- src/server/match-strategy.cpp).
use silent_tanks.Base.{
  ℕ, zero, suc, ◌+◌, ◌<◌, ◌≤◌, ◌==◌, ◌≡◌, some, List, [], ◌∷◌, ◌++◌, length, get_elem?, refl, ap,
  arith, inl, inr, Bool-cases, ==_iff, some_inj, >>=-eq-some,
}
use silent_tanks.Matchmaking.Ranked.{
  QueueEntry, Ranked, Pair, num_buckets, match_pairs, match_bucket, match_buckets, try_form_match,
}
use silent_tanks.Matchmaking.Ranked.Invariant.{IsRanked}
use silent_tanks.Matchmaking.Ranked.Sizes.{bucket_length, size_at, match_and_remove-size_at}
use silent_tanks.Matchmaking.Ranked.Outcome.{IsOutcome, users_apart, match_and_remove-IsOutcome}
use silent_tanks.Matchmaking.Ranked.Tick.{bucket_of, match_bucket-Ends}

-- The loop over the pairs of a bucket, with at least as many rounds as the bucket has entries, leaves
-- at most one entry.
match_pairs-short :
    (fuel : ℕ) (s after : Ranked) (i : ℕ) (pairs : List Pair) (bucket : List QueueEntry)
    → IsRanked s
    → i ≤ num_buckets
    → get_elem? s.elo_buckets i ≡ some bucket
    → length bucket ≤ fuel
    → match_pairs fuel s i ≡ some (after, pairs)
    → size_at after.elo_buckets i < 2
unfolding match_pairs
match_pairs-short zero s after i pairs [] is inside here enough e =
    let same : s ≡ after = ap (λ (r : Ranked × List Pair). r.0) (some_inj e) in
    omega (arith, ap (λ (r : Ranked). size_at r.elo_buckets i) same, ap bucket_length here)
match_pairs-short zero s after i pairs (x ∷ xs) is inside here enough e =
    absurd (omega (arith, enough))
match_pairs-short (suc fuel) s after i pairs [] is inside here enough e =
    let same : s ≡ after = ap (λ (r : Ranked × List Pair). r.0) (some_inj (rw here at e)) in
    omega (arith, ap (λ (r : Ranked). size_at r.elo_buckets i) same, ap bucket_length here)
match_pairs-short (suc fuel) s after i pairs (x ∷ []) is inside here enough e =
    let same : s ≡ after = ap (λ (r : Ranked × List Pair). r.0) (some_inj (rw here at e)) in
    omega (arith, ap (λ (r : Ranked). size_at r.elo_buckets i) same, ap bucket_length here)
match_pairs-short (suc fuel) s after i pairs (e1 ∷ e2 ∷ es) is inside here enough e =
    let in_order = is.buckets i (e1 ∷ e2 ∷ es) here in
    let at = in_order.looked_up in
    let apart =
      users_apart s e1.session.user_id e2.session.user_id i i e1.node e2.node at.0 at.1.0
        (inr (ground (arith, in_order.distinct.0.0))) in
    let (next, matches, first) =
      match_and_remove-IsOutcome s e1.session e2.session i i e1.node e2.node is at.0 at.1.0 apart in
    let smaller =
      (match_and_remove-size_at s next e1.session e2.session i e1.node matches at.0).1 in
    let (bucket, there) = bucket_of next i first.ranked inside in
    let (r, rest, ends) = >>=-eq-some (match_pairs fuel next i) _ (rw (here, matches) at e) in
    let same : r.0 ≡ after = ap (λ (x : Ranked × List Pair). x.0) (some_inj ends) in
    let short =
      match_pairs-short fuel next r.0 i r.1 bucket first.ranked inside there
        (omega (arith, enough, smaller, ap bucket_length here, ap bucket_length there)) rest in
    omega (arith, short, ap (λ (x : Ranked). size_at x.elo_buckets i) same)

match_bucket-short :
    (s after : Ranked) (now i : ℕ) (pairs : List Pair) (bucket : List QueueEntry)
    → IsRanked s
    → i ≤ num_buckets
    → get_elem? s.elo_buckets i ≡ some bucket
    → match_bucket s now i ≡ some (after, pairs)
    → IsOutcome s after pairs
    → size_at after.elo_buckets i < 2
unfolding match_bucket
match_bucket-short s after now i pairs [] is inside here e out =
    omega (arith, out.shrinks i, ap bucket_length here)
match_bucket-short s after now i pairs (x ∷ []) is inside here e out =
    omega (arith, out.shrinks i, ap bucket_length here)
match_bucket-short s after now i pairs (e1 ∷ e2 ∷ es) is inside here e out =
    match_pairs-short (length (e1 ∷ e2 ∷ es)) s after i pairs (e1 ∷ e2 ∷ es) is inside here
      (omega arith) (rw here at e)

match_buckets-short :
    (count : ℕ) (s : Ranked) (now : ℕ)
    → IsRanked s
    → count ≤ num_buckets + 1
    → (after : Ranked) × (pairs : List Pair) × (match_buckets count s now ≡ some (after, pairs))
      × ((m : ℕ) → size_at after.elo_buckets m ≤ size_at s.elo_buckets m)
      × ((m : ℕ) → m < count → size_at after.elo_buckets m < 2)
unfolding match_buckets
match_buckets-short zero s now is inside =
    (s, [], refl, (λ m. omega arith), (λ m h. absurd (omega (arith, h))))
match_buckets-short (suc i) s now is inside =
    let (bucket, here) = bucket_of s i is (omega (arith, inside)) in
    let (next, ps, one, first) = match_bucket-Ends s now i bucket is (omega (arith, inside)) here in
    let short =
      match_bucket-short s next now i ps bucket is (omega (arith, inside)) here one first in
    let (after, qs, rest, fewer, all) =
      match_buckets-short i next now first.ranked (omega (arith, inside)) in
    (
      after,
      ps ++ qs,
      rw (one, rest) refl,
      (λ m. omega (arith, fewer m, first.shrinks m)),
      λ m h. elim (Bool-cases (m == i)) [
        | inl same ↦
            let e : m ≡ i = (==_iff m i).0 same in
            omega (arith, fewer i, short, ap (size_at after.elo_buckets) e)
        | inr other ↦ all m (ground (arith, h, other))
      ],
    )

-- A tick of a ranked queue in order, at any time, does not fault, and leaves at most one entry in each
-- bucket.
pub try_form_match-short :
    (s : Ranked) (now : ℕ)
    → IsRanked s
    → (after : Ranked) × (pairs : List Pair) × (try_form_match s now ≡ some (after, pairs))
      × ((m : ℕ) → m ≤ num_buckets → size_at after.elo_buckets m < 2)
unfolding try_form_match
try_form_match-short s now is =
    let (after, pairs, ends, _, all) =
      match_buckets-short (length s.elo_buckets) s now is (omega (arith, is.size)) in
    (after, pairs, ends, λ m h. all m (omega (arith, h, is.size)))
