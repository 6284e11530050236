-- ===== src/Matchmaking/Ranked.antt =====
-- `RankedTwoPlayerStrategy` (src/server/match-strategy.cpp). A node of a list of the standard library
-- keeps its place in memory, which an iterator names: each entry has a number of its own, `node`, and
-- an iterator is this number. The clock is an argument, in nanoseconds. An access outside the vector
-- of buckets, the use of an iterator of another list and of the end of the lookup are faults, `none`.
pub mod Buckets
pub mod Nodes
pub mod Invariant
pub mod Sizes
pub mod Outcome
pub mod Tick
pub mod Enqueue
pub mod Runs
pub mod Short
use silent_tanks.Base.{
  ℕ, zero, suc, ◌+◌, ◌-◌, ◌/◌, ◌==◌, ltb, leb, Bool, true, false, ◌&&◌, if◌then◌else◌, Option, some,
  none, List, [], ◌∷◌, ◌++◌, length, get_elem?, replicate, write, ◌>>=◌,
}
use mathlib.Core.Option
use silent_tanks.Matchmaking.Types.{
  ℤ, pos, negsuc, Session, Lookup, no_users, insert, erase, contains,
}

abbrev pub elo_floor : ℕ
elo_floor = 500

abbrev pub max_elo_bucket : ℕ
max_elo_bucket = 3000

abbrev pub num_buckets : ℕ
num_buckets = 100

abbrev pub bucket_size : ℕ
bucket_size = (max_elo_bucket - elo_floor) / num_buckets

abbrev pub max_buckets_diff : ℕ
max_buckets_diff = 400 / bucket_size

-- Fifteen seconds.
abbrev pub bucket_increment_time : ℕ
bucket_increment_time = 15000000000

unfoldable pub elo_to_bucket_index : ℤ → ℕ
elo_to_bucket_index (negsuc n) = 0
elo_to_bucket_index (pos elo) =
    if leb max_elo_bucket elo
    then num_buckets
    else if ltb elo elo_floor
    then 0
    else (elo - elo_floor) / bucket_size

pub record QueueEntry : Type 0 where
  pub session : Session
  pub enqueued_at : ℕ
  pub node : ℕ

pub record LookupData : Type 0 where
  pub bucket_index : ℕ
  pub iter : ℕ

pub record Ranked : Type 0 where
  pub elo_buckets : List (List QueueEntry)
  pub lookup : Lookup LookupData
  pub next_node : ℕ

abbrev pub new_ranked : Ranked
new_ranked = record {
  elo_buckets = replicate (num_buckets + 1) [];
  lookup = no_users;
  next_node = 0;
}

-- `list::erase`.
unfoldable pub erase_node : ℕ → List QueueEntry → Option (List QueueEntry)
erase_node k [] = none
erase_node k (e ∷ es) =
    let rest = erase_node k es in
    if e.node == k then some es else Option.map (λ left. e ∷ left) rest

unfoldable pub erase_entry : List (List QueueEntry) → LookupData → Option (List (List QueueEntry))
unfolding erase_node
erase_entry buckets data' = do
  bucket ← get_elem? buckets data'.bucket_index
  left ← erase_node data'.iter bucket
  write buckets data'.bucket_index left

unfoldable pub enqueue : Ranked → ℕ → Session → Option Ranked
unfolding elo_to_bucket_index
enqueue s now p =
    let bucket_index = elo_to_bucket_index p.elo in
    if contains s.lookup p.user_id then some s else (do
      bucket ← get_elem? s.elo_buckets bucket_index
      buckets ←
          write s.elo_buckets bucket_index
            (bucket ++ record { session = p; enqueued_at = now; node = s.next_node } ∷ [])
      some (record {
        elo_buckets = buckets;
        lookup =
            insert s.lookup p.user_id (record { bucket_index = bucket_index; iter = s.next_node });
        next_node = s.next_node + 1;
      }))

unfoldable pub cancel : Ranked → Session → Option Ranked
unfolding erase_entry
cancel s p = elim (s.lookup p.user_id) [
  | none ↦ some s
  | some data' ↦ erase_entry s.elo_buckets data' >>= λ buckets.
      some (record s { elo_buckets = buckets; lookup = erase s.lookup p.user_id })
]

-- A match of the two sessions.
abbrev pub Pair : Type 0
Pair = Session × Session

unfoldable pub match_and_remove : Ranked → Session → Session → Option Ranked
unfolding erase_entry
match_and_remove s p1 p2 = do
  p1_look ← s.lookup p1.user_id
  p2_look ← s.lookup p2.user_id
  first ← erase_entry s.elo_buckets p2_look
  both ← erase_entry first p1_look
  some (record s { elo_buckets = both; lookup = erase (erase s.lookup p1.user_id) p2.user_id })

-- The loop while the bucket `i` has two entries, with the size of the bucket as fuel.
unfoldable pub match_pairs : ℕ → Ranked → ℕ → Option (Ranked × List Pair)
unfolding match_and_remove
match_pairs zero s i = some (s, [])
match_pairs (suc fuel) s i = get_elem? s.elo_buckets i >>= λ bucket. elim bucket [
  | e1 ∷ e2 ∷ es ↦ (do
    next ← match_and_remove s e1.session e2.session
    (after, pairs) ← match_pairs fuel next i
    some (after, (e1.session, e2.session) ∷ pairs))
  | _ ↦ some (s, [])
]

-- The loop over `radius`, with the number of its rounds that are left.
unfoldable pub search : ℕ → Ranked → ℕ → QueueEntry → ℕ → Option (Ranked × List Pair)
unfolding match_and_remove
search zero s i entry radius = some (s, [])
search (suc left) s i entry radius = do
  let farther = search left s i entry (radius + 1)
  lower ← if leb radius i then get_elem? s.elo_buckets (i - radius) else some []
  elim lower [
    | e ∷ es ↦ match_and_remove s entry.session e.session >>= λ next.
        some (next, (entry.session, e.session) ∷ [])
    | [] ↦ (do
      upper ← if leb (i + radius) num_buckets then get_elem? s.elo_buckets (i + radius) else some []
      elim upper [
        | e ∷ es ↦ match_and_remove s entry.session e.session >>= λ next.
            some (next, (entry.session, e.session) ∷ [])
        | [] ↦ farther
      ])
  ]

-- How many buckets away an entry is matched.
unfoldable pub search_delta : ℕ → QueueEntry → ℕ
search_delta now entry =
    let delta = (now - entry.enqueued_at) / bucket_increment_time in
    if ltb max_buckets_diff delta then max_buckets_diff else delta

-- The body of the loop over the buckets.
unfoldable pub match_bucket : Ranked → ℕ → ℕ → Option (Ranked × List Pair)
unfolding match_pairs search search_delta
match_bucket s now i = get_elem? s.elo_buckets i >>= λ bucket.
    let size = length bucket in
    elim bucket [
      | [] ↦ some (s, [])
      | entry ∷ [] ↦ search (search_delta now entry) s i entry 1
      | _ ∷ _ ∷ _ ↦ match_pairs size s i
    ]

-- The loop from the bucket `count - 1` down to the bucket 0.
unfoldable pub match_buckets : ℕ → Ranked → ℕ → Option (Ranked × List Pair)
unfolding match_bucket
match_buckets zero s now = some (s, [])
match_buckets (suc i) s now = do
  (next, pairs) ← match_bucket s now i
  (after, more) ← match_buckets i next now
  some (after, pairs ++ more)

unfoldable pub try_form_match : Ranked → ℕ → Option (Ranked × List Pair)
unfolding match_buckets
try_form_match s now = match_buckets (length s.elo_buckets) s now
