-- ===== src/Matchmaking/Ranked/Tick.antt =====
-- A tick of the ranked queue (`try_form_match` of src/server/match-strategy.cpp).
use silent_tanks.Base.{
  ℕ, zero, suc, ◌+◌, ◌-◌, ◌≤◌, ◌==◌, ◌≡◌, leb, Bool, true, false, if◌then◌else◌, Option, some, List,
  [], ◌∷◌, ◌++◌, length, get_elem?, ◌>>=◌, refl, arith, inl, inr, get_elem?-lt,
}
use silent_tanks.Protocol.Bytes.{Each}
use silent_tanks.Matchmaking.Ranked.{
  QueueEntry, Ranked, Pair, num_buckets, match_and_remove, match_pairs, search, search_delta,
  match_bucket, match_buckets, try_form_match,
}
use silent_tanks.Matchmaking.Ranked.Nodes.{Each-map}
use silent_tanks.Matchmaking.Ranked.Invariant.{IsRanked, place}
use silent_tanks.Matchmaking.Ranked.Outcome.{
  IsOutcome, no_pairs, then_pairs, users_apart, match_and_remove-IsOutcome,
}

-- The code does not fault, and its outcome is right.
abbrev pub Ends : Ranked → Option (Ranked × List Pair) → Type 0
Ends s r = (next : Ranked) × (pairs : List Pair) × (r ≡ some (next, pairs)) × IsOutcome s next pairs

pub bucket_of :
    (s : Ranked) (i : ℕ)
    → IsRanked s
    → i ≤ num_buckets
    → (bucket : List QueueEntry) × (get_elem? s.elo_buckets i ≡ some bucket)
bucket_of s i is inside = get_elem?-lt s.elo_buckets i (omega (arith, is.size, inside))

match_pairs-Ends :
    (fuel : ℕ) (s : Ranked) (i : ℕ) (bucket : List QueueEntry)
    → IsRanked s
    → i ≤ num_buckets
    → get_elem? s.elo_buckets i ≡ some bucket
    → Ends s (match_pairs fuel s i)
unfolding match_pairs
match_pairs-Ends zero s i bucket is inside here = (s, [], refl, no_pairs s is)
match_pairs-Ends (suc fuel) s i [] is inside here = (s, [], rw here refl, no_pairs s is)
match_pairs-Ends (suc fuel) s i (e ∷ []) is inside here = (s, [], rw here refl, no_pairs s is)
match_pairs-Ends (suc fuel) s i (e1 ∷ e2 ∷ es) is inside here =
    let in_order = is.buckets i (e1 ∷ e2 ∷ es) here in
    let at = in_order.looked_up in
    let apart =
      users_apart s e1.session.user_id e2.session.user_id i i e1.node e2.node at.0 at.1.0
        (inr (ground (arith, in_order.distinct.0.0))) in
    let (next, matches, first) =
      match_and_remove-IsOutcome s e1.session e2.session i i e1.node e2.node is at.0 at.1.0 apart in
    let (bucket, there) = bucket_of next i first.ranked inside in
    let (after, pairs, ends, second) =
      match_pairs-Ends fuel next i bucket first.ranked inside there in
    (
      after,
      (e1.session, e2.session) ∷ pairs,
      rw (here, matches, ends) refl,
      then_pairs s next after ((e1.session, e2.session) ∷ []) pairs first second,
    )

-- A bucket that the search looks at: its entries have their places, and it is within the vector unless
-- it is empty.
Candidate : Ranked → Bool → ℕ → List QueueEntry → Type 0
Candidate s test j bucket =
    ((if test then get_elem? s.elo_buckets j else some []) ≡ some bucket)
    × Each (λ e. (s.lookup e.session.user_id ≡ some (place j e.node)) × (test ≡ true)) bucket

candidate :
    (s : Ranked) (test : Bool) (j : ℕ)
    → IsRanked s
    → (test ≡ true → j ≤ num_buckets)
    → (bucket : List QueueEntry) × Candidate s test j bucket
unfolding Candidate
candidate s false j is inside = ([], (refl, tt))
candidate s true j is inside =
    let (bucket, here) = bucket_of s j is (inside refl) in
    let placed =
      Each-map (λ e. s.lookup e.session.user_id ≡ some (place j e.node))
        (λ e. (s.lookup e.session.user_id ≡ some (place j e.node)) × (true ≡ true)) bucket
        (λ e at. (at, refl)) (is.buckets j bucket here).looked_up in
    (bucket, (here, placed))

search-Ends :
    (left : ℕ) (s : Ranked) (i : ℕ) (entry : QueueEntry) (radius : ℕ)
    → IsRanked s
    → i ≤ num_buckets
    → 1 ≤ radius
    → s.lookup entry.session.user_id ≡ some (place i entry.node)
    → Ends s (search left s i entry radius)
unfolding search Candidate
search-Ends zero s i entry radius is inside some_radius at = (s, [], refl, no_pairs s is)
search-Ends (suc left) s i entry radius is inside some_radius at =
    let (lower, low) = candidate s (leb radius i) (i - radius) is (λ _. omega (arith, inside)) in
    let (upper, up) =
      candidate s (leb (i + radius) num_buckets) (i + radius) is (λ h. ground (arith, h)) in
    go lower upper low up (search-Ends left s i entry (radius + 1) is inside (omega arith) at)
  where
    matched :
        (e : QueueEntry) (j : ℕ)
        → s.lookup e.session.user_id ≡ some (place j e.node)
        → (i == j) ≡ false
        → Ends s (
            match_and_remove s entry.session e.session >>= λ next.
            some (next, (entry.session, e.session) ∷ []))
    matched e j there apart =
        let (next, matches, out) =
          match_and_remove-IsOutcome s entry.session e.session i j entry.node e.node is at there (
            users_apart s entry.session.user_id e.session.user_id i j entry.node e.node at there
              (inl apart)) in
        (next, (entry.session, e.session) ∷ [], rw matches refl, out)

    go :
        (lower upper : List QueueEntry)
        → Candidate s (leb radius i) (i - radius) lower
        → Candidate s (leb (i + radius) num_buckets) (i + radius) upper
        → Ends s (search left s i entry (radius + 1))
        → Ends s (search (suc left) s i entry radius)
    go (e ∷ es) upper low up farther =
        rw low.0 (matched e (i - radius) low.1.0.0 (ground (arith, some_radius, low.1.0.1)))
    go [] (e ∷ es) low up farther =
        rw (low.0, up.0) (matched e (i + radius) up.1.0.0 (ground (arith, some_radius)))
    go [] [] low up farther = rw (low.0, up.0) farther

pub match_bucket-Ends :
    (s : Ranked) (now i : ℕ) (bucket : List QueueEntry)
    → IsRanked s
    → i ≤ num_buckets
    → get_elem? s.elo_buckets i ≡ some bucket
    → Ends s (match_bucket s now i)
unfolding match_bucket
match_bucket-Ends s now i [] is inside here = (s, [], rw here refl, no_pairs s is)
match_bucket-Ends s now i (e ∷ []) is inside here = rw here (
    search-Ends (search_delta now e) s i e 1 is inside (omega arith)
      (is.buckets i (e ∷ []) here).looked_up.0)
match_bucket-Ends s now i (e1 ∷ e2 ∷ es) is inside here =
    rw here (match_pairs-Ends (length (e1 ∷ e2 ∷ es)) s i (e1 ∷ e2 ∷ es) is inside here)

match_buckets-Ends :
    (count : ℕ) (s : Ranked) (now : ℕ)
    → IsRanked s
    → count ≤ num_buckets + 1
    → Ends s (match_buckets count s now)
unfolding match_buckets
match_buckets-Ends zero s now is inside = (s, [], refl, no_pairs s is)
match_buckets-Ends (suc i) s now is inside =
    let (bucket, here) = bucket_of s i is (omega (arith, inside)) in
    let (next, ps, one, first) = match_bucket-Ends s now i bucket is (omega (arith, inside)) here in
    let (after, qs, rest, second) =
      match_buckets-Ends i next now first.ranked (omega (arith, inside)) in
    (after, ps ++ qs, rw (one, rest) refl, then_pairs s next after ps qs first second)

-- A tick of a ranked queue in order, at any time, does not fault. The queue is in order again, each
-- match that it forms is of two distinct users who were queued, the users who are matched have left
-- the lookup, all others are where they were, and no bucket has become longer.
pub try_form_match-Ends : (s : Ranked) (now : ℕ) → IsRanked s → Ends s (try_form_match s now)
unfolding try_form_match
try_form_match-Ends s now is =
    match_buckets-Ends (length s.elo_buckets) s now is (omega (arith, is.size))
