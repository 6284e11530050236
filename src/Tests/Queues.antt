-- ===== src/Tests/Queues.antt =====
-- Concrete sessions, queues and matches, on which the theorems about matchmaking are applied.
use silent_tanks.Base.{
  ℕ, ◌==◌, ◌≡◌, Bool, true, false, if◌then◌else◌, List, [], ◌∷◌, map, refl, arith,
}
use silent_tanks.Base.{Option, some, none, ◌+◌, ◌*◌, ◌≤◌, ◌<◌}
use silent_tanks.Matchmaking.Ranked.{
  Ranked, Pair, new_ranked, try_form_match, elo_to_bucket_index, elo_floor, bucket_size,
  num_buckets,
}
use silent_tanks.Matchmaking.Ranked.Buckets.{elo_to_bucket_index_lem}
use silent_tanks.Matchmaking.Ranked.Tick.{Ends, try_form_match-Ends}
use silent_tanks.Matchmaking.Ranked.Invariant.{IsRanked}
use silent_tanks.Matchmaking.Ranked.Enqueue.{enqueue-IsRanked}
use silent_tanks.Matchmaking.Ranked
use silent_tanks.Matchmaking.Ranked.Sizes.{size_at}
use silent_tanks.Matchmaking.Ranked.Short.{try_form_match-short}
use silent_tanks.Matchmaking.Ranked.Runs.{
  RankedTask, tick_task, ranked_run, IsRun, ranked_run-IsRun, new_ranked-IsRanked,
}
use silent_tanks.Matchmaking.Ranked.Runs
use silent_tanks.Matchmaking.Types.{
  negsuc, classic_two_player, classic_three_player, Session, pos, queued, contains,
  classic_two_player,
}
use silent_tanks.Matchmaking.Casual.{no_casual, CasualTask, enqueue_task, cancel_task, casual_run}
use silent_tanks.Matchmaking.Casual.Refinement.{IsCasual, waiting_run, casual_run-refines}
use silent_tanks.Matchmaking.Casual.Matches.{AreMatches, no_casual-IsCasual, casual_run_lem}
use silent_tanks.Matchmaking.Casual.Arrivals.{casual_run-arrivals}
use silent_tanks.Matchmaking.Maker.{
  Maker, new_maker, enqueue, make_match, route_impl, take_results, deliver, queue_dropped,
  bad_queue, no_match_found, give_command,
}
use silent_tanks.Matchmaking.Maker.Steps.{
  MakerTask, enqueue_call, make_posted, maker_run, cancel_call, forfeit_posted, results_posted,
  shutdown_posted,
}
use silent_tanks.Matchmaking.Maker.Waiting.{any_takes_off, ever_passed_on}
use silent_tanks.Matchmaking.Maker.Waiting.Runs.{maker_run-waits}
use silent_tanks.Matchmaking.Maker.Dropped.{make_match-dropped}
use silent_tanks.Matchmaking.Maker.Stale.{listed, made_anew, new_match_id, take_results-stale}

abbrev guest : ℕ → Session
guest n = record { id = n; user_id = n; elo = pos 1000 }

abbrev arrivals : List CasualTask
arrivals =
    enqueue_task (guest 1)
    ∷ enqueue_task (guest 2)
    ∷ enqueue_task (guest 1)
    ∷ cancel_task (guest 2)
    ∷ enqueue_task (guest 3)
    ∷ enqueue_task (guest 4)
    ∷ []

casual_run-refines_example :
    IsCasual 3 (casual_run 3 no_casual arrivals).0
    × ((casual_run 3 no_casual arrivals).0.queue ≡ (waiting_run 3 [] arrivals).0)
    × ((casual_run 3 no_casual arrivals).1 ≡ (waiting_run 3 [] arrivals).1)
casual_run-refines_example =
    casual_run-refines 3 no_casual arrivals (omega arith) (no_casual-IsCasual 3 (omega arith))

casual_run_lem_example :
    AreMatches 3 (casual_run 3 no_casual arrivals).1
    × IsCasual 3 (casual_run 3 no_casual arrivals).0
casual_run_lem_example = casual_run_lem 3 arrivals (omega arith)

casual_run-arrivals_example :
    ((casual_run 2 no_casual (map enqueue_task (guest 1 ∷ guest 2 ∷ []))).0.queue ≡ [])
    × ((casual_run 2 no_casual (map enqueue_task (guest 1 ∷ guest 2 ∷ []))).1
        ≡ (guest 1 ∷ guest 2 ∷ []) ∷ [])
unfolding queued
casual_run-arrivals_example = casual_run-arrivals 2 (guest 1) (guest 2 ∷ []) refl (refl, (refl, tt))

-- All sessions but the second are live.
abbrev but_second : ℕ → Bool
but_second n = if n == 2 then false else true

abbrev queueing : List MakerTask
queueing =
    enqueue_call (guest 1) classic_three_player
    ∷ enqueue_call (guest 2) classic_three_player
    ∷ enqueue_call (guest 3) classic_three_player
    ∷ []

-- A match of the users 1 and 2, while the users 3 and 4 wait.
abbrev others_play : List MakerTask
others_play =
    forfeit_posted (guest 1)
    ∷ make_posted (λ _. true) true (guest 1 ∷ guest 2 ∷ [])
    ∷ cancel_call (guest 4) classic_three_player
    ∷ enqueue_call (guest 3) classic_two_player
    ∷ results_posted 1 classic_three_player (3 ∷ [])
    ∷ shutdown_posted
    ∷ []

abbrev four_queue : List MakerTask
four_queue = enqueue_call (guest 4) classic_three_player ∷ queueing

maker_run-waits_example :
    let before = maker_run new_maker four_queue in
    let after = maker_run before others_play in
    (contains before.uuid_to_match 3 ≡ false)
    × (contains after.uuid_to_gamemode 3 ≡ true)
    × (contains after.uuid_to_match 3 ≡ false)
    × (ever_passed_on 3 before others_play ≡ false)
unfolding maker_run any_takes_off queued
maker_run-waits_example = maker_run-waits four_queue others_play 3 refl refl

abbrev three_queued : Maker
three_queued = maker_run new_maker queueing

make_match-dropped_example :
    ((make_match three_queued but_second true (guest 1 ∷ guest 2 ∷ guest 3 ∷ [])).1
      ≡ deliver 1 queue_dropped ∷ [])
    × (enqueue
          (make_match three_queued but_second true (guest 1 ∷ guest 2 ∷ guest 3 ∷ [])).0
          (guest 3)
          classic_two_player
        ≡ (
          (make_match three_queued but_second true (guest 1 ∷ guest 2 ∷ guest 3 ∷ [])).0,
          deliver 3 bad_queue ∷ [],
        ))
unfolding queued maker_run
make_match-dropped_example =
    make_match-dropped three_queued but_second true (guest 1 ∷ []) [] [] (guest 2) (guest 3)
      classic_two_player (refl, tt) refl refl refl

abbrev first_match : Maker
first_match = (make_match new_maker (λ _. true) true (guest 1 ∷ guest 2 ∷ guest 3 ∷ [])).0

take_results-stale_example :
    ((route_impl (made_anew first_match (guest 1) (λ _. true) (guest 1 ∷ guest 4 ∷ [])) (guest 1)).1
      ≡ give_command (new_match_id first_match) 1 ∷ [])
    × (route_impl
          (take_results
            (made_anew first_match (guest 1) (λ _. true) (guest 1 ∷ guest 4 ∷ []))
            1
            classic_three_player
            (1 ∷ 2 ∷ 3 ∷ [])).0
          (guest 1)
        ≡ (
          (take_results
              (made_anew first_match (guest 1) (λ _. true) (guest 1 ∷ guest 4 ∷ []))
              1
              classic_three_player
              (1 ∷ 2 ∷ 3 ∷ [])).0,
          deliver 1 no_match_found ∷ [],
        ))
    × (listed
          (new_match_id first_match)
          ((take_results
              (made_anew first_match (guest 1) (λ _. true) (guest 1 ∷ guest 4 ∷ []))
              1
              classic_three_player
              (1 ∷ 2 ∷ 3 ∷ [])).0
            ).live_matches
        ≡ true)
unfolding queued make_match
take_results-stale_example =
    take_results-stale first_match (guest 1) 1 classic_three_player (1 ∷ 2 ∷ 3 ∷ []) (λ _. true)
      (guest 1 ∷ guest 4 ∷ []) refl (refl, (refl, tt)) refl refl

abbrev strong : Session
strong = record { id = 5; user_id = 5; elo = pos 2900 }

abbrev champion : Session
champion = record { id = 6; user_id = 6; elo = pos 3000 }

-- Two players of the same bucket, and two who are matched after a minute.
abbrev ranked_tasks : List RankedTask
ranked_tasks =
    Runs.enqueue_task 0 (guest 1)
    ∷ Runs.enqueue_task 10 strong
    ∷ Runs.enqueue_task 20 champion
    ∷ Runs.enqueue_task 30 (guest 2)
    ∷ tick_task 1000
    ∷ tick_task 61000000000
    ∷ []

ranked_run-IsRun_example : IsRun (ranked_run new_ranked ranked_tasks)
ranked_run-IsRun_example = ranked_run-IsRun ranked_tasks

-- The matches of a run, in order.
matches_of : Option (Ranked × List Pair) → List Pair
matches_of none = []
matches_of (some (s, pairs)) = pairs

same_bucket_first :
    matches_of (ranked_run new_ranked ranked_tasks) ≡ (guest 1, guest 2) ∷ (champion, strong) ∷ []
unfolding matches_of ranked_run
same_bucket_first = refl

-- Two players of one bucket, in a queue in order.
guest_joins : (next : Ranked) × (Ranked.enqueue new_ranked 0 (guest 1) ≡ some next) × IsRanked next
guest_joins = enqueue-IsRanked new_ranked 0 (guest 1) new_ranked-IsRanked

both_join : (next : Ranked) × (Ranked.enqueue guest_joins.0 5 (guest 2) ≡ some next) × IsRanked next
both_join = enqueue-IsRanked guest_joins.0 5 (guest 2) guest_joins.2

try_form_match-Ends_example : Ends both_join.0 (try_form_match both_join.0 7)
try_form_match-Ends_example = try_form_match-Ends both_join.0 7 both_join.2

try_form_match-short_example :
    (after : Ranked) × (pairs : List Pair) × (try_form_match both_join.0 7 ≡ some (after, pairs))
    × ((m : ℕ) → m ≤ num_buckets → size_at after.elo_buckets m < 2)
try_form_match-short_example = try_form_match-short both_join.0 7 both_join.2

elo_to_bucket_index_lem_example :
    (elo_to_bucket_index (negsuc 3) ≤ elo_to_bucket_index (pos 4000))
    × (elo_to_bucket_index (pos 4000) ≤ num_buckets)
    × (elo_floor + bucket_size * elo_to_bucket_index (pos 1000) ≤ 1000)
    × (1000 < elo_floor + bucket_size * (elo_to_bucket_index (pos 1000) + 1))
elo_to_bucket_index_lem_example =
    elo_to_bucket_index_lem (negsuc 3) (pos 4000) 1000 tt (omega arith) (omega arith)
