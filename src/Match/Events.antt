-- ===== src/Match/Events.antt =====
-- What reaches a match from outside (src/server/match-instance.cpp): commands, forfeits, a player
-- who reconnects, the timer, shutdown. Each is a task on the strand, and so runs alone.
use silent_tanks.Base.{
  ℕ, zero, suc, ◌+◌, Bool, true, false, ltb, ◌==◌, ◌!=◌, if◌then◌else◌, Option, none, some, List,
  [], ◌∷◌, ◌++◌, length, replicate,
}
use silent_tanks.Game.Types.{GameMap, setup, turn_player_fuel}
use silent_tanks.Game.Placement.{from_map}
use silent_tanks.Protocol.Command.{Command}
use silent_tanks.Protocol.Header.{
  game_ended, stale_move, forfeit_match, static_match_data, player_view,
}
use silent_tanks.Match.Types.{
  Match, PlayerInfo, Result, ok, ◌>>=◌, fetch, store, send, send_player, start_turn_strand,
  max_queue_size,
}
use silent_tanks.Match.Views.{compute_all_views}
use silent_tanks.Match.Turns.{
  is_concluded, handle_elimination, handle_timeout, on_player_move_arrived, start_turn,
}

-- The constructor, and `set_results_callback` after it. `unset` is the value of the members that
-- `Tank` leaves uninitialised; `turn_claimed_` too is set first by `start_turn`.
unfoldable pub new_match : GameMap → List PlayerInfo → ℕ → ℕ → ℕ → Match
new_match map players initial_time increment unset =
    let n = map.map_settings.num_players in
    record {
      n_players = n;
      elim_counter = 0;
      current_player = 0;
      remaining_players = n;
      current_fuel = turn_player_fuel;
      expiry_time = 0;
      results = record {
        move_history = [];
        user_ids = replicate n 0;
        elimination_order = replicate n 0;
      };
      players = players;
      tanks_placed = 0;
      game = from_map map unset;
      turn_id = 0;
      turn_claimed = false;
      increment = increment;
      current_state = setup;
      command_queues = replicate n [];
      time_left = replicate n initial_time;
      send_set = true;
      results_set = true;
      stopped = false;
      posted = 0;
      timer = none;
      sent = [];
      reported = 0;
    }

-- The search for the player of a user, from player `i` on. `none` is `UINT8_MAX`.
unfoldable pub find_player : List PlayerInfo → ℕ → ℕ → ℕ → Result (Option ℕ)
find_player players user_id i zero = ok none
find_player players user_id i (suc left) = fetch players i >>= λ info.
    if info.user_id == user_id then ok (some i) else find_player players user_id (i + 1) left

-- The task of `receive_command`; `t_id` is the turn when it was posted.
unfoldable pub enqueue : Match → ℕ → Command → ℕ → ℕ → Result Match
enqueue m correct_id cmd t_id now = fetch m.command_queues correct_id >>= λ queue.
    if ltb (length queue) max_queue_size
    then (do
      queues ← store m.command_queues correct_id (queue ++ record cmd { sender = correct_id } ∷ [])
      let m1 = record m { command_queues = queues }
      if correct_id == m.current_player then on_player_move_arrived m1 t_id now else ok m1)
    else ok m

unfoldable pub receive_command : Match → ℕ → Command → ℕ → ℕ → Result Match
unfolding find_player send_player enqueue
receive_command m user_id cmd t_id now = find_player m.players user_id 0 m.n_players >>= λ found.
    elim found [
      | none ↦ ok m
      | some correct_id ↦
          if is_concluded m.current_state
          then send_player m correct_id game_ended
          else if t_id != m.turn_id
          then send_player m correct_id stale_move
          else enqueue m correct_id cmd t_id now
    ]

unfoldable pub forfeit : Match → ℕ → Result Match
unfolding find_player send_player
forfeit m user_id = find_player m.players user_id 0 m.n_players >>= λ found. elim found [
  | none ↦ ok m
  | some correct_id ↦
      if is_concluded m.current_state
      then send_player m correct_id game_ended
      else handle_elimination m correct_id forfeit_match
]

unfoldable pub sync_player : Match → ℕ → ℕ → Result Match
unfolding find_player send send_player
sync_player m session_id user_id =
    if is_concluded m.current_state
    then send m session_id game_ended
    else find_player m.players user_id 0 m.n_players >>= λ found. elim found [
      | none ↦ send m session_id game_ended
      | some correct_id ↦ (do
        info ← fetch m.players correct_id
        players ← store m.players correct_id (record info { session_id = session_id })
        queues ← store m.command_queues correct_id []
        m1 ←
            send_player (record m { players = players; command_queues = queues }) correct_id
              static_match_data
        send m1 session_id player_view)
    ]

-- The handler of the timer that was armed for turn `t_id`; `cancelled` is its error code.
unfoldable pub on_timer : Match → ℕ → Bool → Result Match
on_timer m t_id cancelled =
    if t_id != m.turn_id
    then ok m
    else if m.turn_claimed
    then ok m
    else if cancelled
    then ok m
    else handle_timeout (record m { turn_claimed = true })

unfoldable pub async_shutdown : Match → Match
async_shutdown m =
    if m.stopped
    then m
    else record m { stopped = true; timer = none; send_set = false; results_set = false }

-- The first messages of `start`.
unfoldable pub send_static : Match → ℕ → ℕ → Result Match
unfolding send_player
send_static m id zero = ok m
send_static m id (suc left) =
    send_player m id static_match_data >>= λ m'. send_static m' (id + 1) left

unfoldable pub start : Match → Result Match
unfolding send_static compute_all_views start_turn_strand
start m = do
  m1 ← send_static m 0 (length m.players)
  m2 ← compute_all_views m1
  ok (start_turn_strand m2)

-- A task of the strand.
pub data Event : Type 0 where
  turn : ℕ → Event
  command : ℕ → Command → ℕ → ℕ → Event
  forfeits : ℕ → Event
  syncs : ℕ → ℕ → Event
  timer : ℕ → Bool → Event
  shutdown : Event

-- A posted call of `start_turn` is used up. A turn that was not posted is not run.
abbrev pub run_posted : Match → ℕ → ℕ → Result Match
run_posted m now zero = ok m
run_posted m now (suc p) = start_turn (record m { posted = p }) now

unfoldable pub step : Match → Event → Result Match
unfolding receive_command forfeit sync_player on_timer async_shutdown
step m (turn now) = run_posted m now m.posted
step m (command user_id cmd t_id now) = receive_command m user_id cmd t_id now
step m (forfeits user_id) = forfeit m user_id
step m (syncs session_id user_id) = sync_player m session_id user_id
step m (timer t_id cancelled) = on_timer m t_id cancelled
step m shutdown = ok (async_shutdown m)

-- The tasks of a schedule, one after another.
unfoldable pub run : Match → List Event → Result Match
unfolding step
run m [] = ok m
run m (e ∷ es) = step m e >>= λ m'. run m' es
