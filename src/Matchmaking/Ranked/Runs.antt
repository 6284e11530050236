-- ===== src/Matchmaking/Ranked/Runs.antt =====
-- The ranked queue in any run of its tasks (src/server/match-strategy.cpp).
use silent_tanks.Base.{
  ℕ, ◌+◌, ◌<◌, ◌==◌, ◌≡◌, false, Option, some, none, List, [], ◌∷◌, ◌++◌, ◌>>=◌, refl, sym, ◌∙◌,
  arith, subst, some_inj, length-replicate, get_elem?-replicate, lt-get_elem?,
}
use silent_tanks.Protocol.Bytes.{Each}
use silent_tanks.Matchmaking.Types.{Session}
use silent_tanks.Matchmaking.Ranked.{
  QueueEntry, Ranked, Pair, new_ranked, num_buckets, enqueue, cancel, try_form_match,
}
use silent_tanks.Matchmaking.Ranked.Invariant.{IsRanked, IsBucket}
use silent_tanks.Matchmaking.Ranked.Outcome.{IsPair}
use silent_tanks.Matchmaking.Ranked.Enqueue.{enqueue-IsRanked, cancel-IsRanked}
use silent_tanks.Matchmaking.Ranked.Tick.{try_form_match-Ends}

-- The tasks of the strand, with the time at which they run.
pub data RankedTask : Type 0 where
  enqueue_task : ℕ → Session → RankedTask
  cancel_task : Session → RankedTask
  tick_task : ℕ → RankedTask

unfoldable pub ranked_step : Ranked → RankedTask → Option (Ranked × List Pair)
unfolding enqueue cancel try_form_match
ranked_step s (enqueue_task now p) = enqueue s now p >>= λ next. some (next, [])
ranked_step s (cancel_task p) = cancel s p >>= λ next. some (next, [])
ranked_step s (tick_task now) = try_form_match s now

unfoldable pub ranked_run : Ranked → List RankedTask → Option (Ranked × List Pair)
unfolding ranked_step
ranked_run s [] = some (s, [])
ranked_run s (t ∷ ts) = do
  (next, pairs) ← ranked_step s t
  (after, more) ← ranked_run next ts
  some (after, pairs ++ more)

abbrev pub OfTwoUsers : Pair → Type 0
OfTwoUsers (p1, p2) = (p1.user_id == p2.user_id) ≡ false

-- A run that does not fault, whose queue is in order and whose matches are of distinct users.
abbrev pub IsRun : Option (Ranked × List Pair) → Type 0
IsRun r =
    (next : Ranked) × (pairs : List Pair) × (r ≡ some (next, pairs))
    × IsRanked next
    × Each OfTwoUsers pairs

of_two_users : (s : Ranked) (pairs : List Pair) → Each (IsPair s) pairs → Each OfTwoUsers pairs
of_two_users s [] is = tt
of_two_users s (p ∷ pairs) is = (is.0.0, of_two_users s pairs is.1)

Each-more :
    (ps qs : List Pair) → Each OfTwoUsers ps → Each OfTwoUsers qs → Each OfTwoUsers (ps ++ qs)
Each-more [] qs a b = b
Each-more (p ∷ ps) qs a b = (a.0, Each-more ps qs a.1 b)

ranked_step-IsRun : (s : Ranked) (t : RankedTask) → IsRanked s → IsRun (ranked_step s t)
unfolding ranked_step
ranked_step-IsRun s (enqueue_task now p) is =
    let (next, ends, next_is) = enqueue-IsRanked s now p is in (next, [], rw ends refl, next_is, tt)
ranked_step-IsRun s (cancel_task p) is =
    let (next, ends, next_is) = cancel-IsRanked s p is in (next, [], rw ends refl, next_is, tt)
ranked_step-IsRun s (tick_task now) is =
    let (next, pairs, ends, out) = try_form_match-Ends s now is in
    (next, pairs, ends, out.ranked, of_two_users s pairs out.matched)

ranked_run_from : (s : Ranked) (ts : List RankedTask) → IsRanked s → IsRun (ranked_run s ts)
unfolding ranked_run
ranked_run_from s [] is = (s, [], refl, is, tt)
ranked_run_from s (t ∷ ts) is =
    let (next, ps, one, next_is, p_two) = ranked_step-IsRun s t is in
    let (after, qs, rest, after_is, q_two) = ranked_run_from next ts next_is in
    (after, ps ++ qs, rw (one, rest) refl, after_is, Each-more ps qs p_two q_two)

none-some {ℓ} : {A : Type ℓ} {a : A} → none ≡ some a → ⊥
none-some e = cc

pub new_ranked-IsRanked : IsRanked new_ranked
new_ranked-IsRanked = record {
  size = length-replicate {A = List QueueEntry} (num_buckets + 1) [];
  buckets = λ i bucket at.
      let inside : i < num_buckets + 1 = omega (
        arith,
        lt-get_elem? new_ranked.elo_buckets i bucket at,
        length-replicate {A = List QueueEntry} (num_buckets + 1) [],
      ) in
      subst (IsBucket new_ranked i)
        (some_inj (sym (get_elem?-replicate (num_buckets + 1) i [] inside) ∙ at))
        (record { looked_up = tt; distinct = tt; given = tt });
  known = λ u i k at. absurd (none-some at);
}

-- Whatever is enqueued, cancelled and ticked, at any times, the ranked queue that starts empty never
-- faults: no iterator is used after its entry is gone, and no bucket is outside the vector. At the end
-- the queue is in order: each entry is where the lookup of its user says, and each user of the lookup
-- has an entry. Each match is of two distinct users.
pub ranked_run-IsRun : (ts : List RankedTask) → IsRun (ranked_run new_ranked ts)
ranked_run-IsRun ts = ranked_run_from new_ranked ts new_ranked-IsRanked
