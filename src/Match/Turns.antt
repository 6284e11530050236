-- ===== src/Match/Turns.antt =====
-- The turns of a match (src/server/match-instance.cpp): `start_turn`, `on_player_move_arrived`,
-- `handle_timeout`, `handle_elimination` and `conclude_game`. `now` is the time that the clock reads.
use silent_tanks.Base.{
  ℕ, zero, suc, ◌+◌, ◌-◌, ◌*◌, ◌%◌, Bool, true, false, ltb, leb, ◌==◌, ◌!=◌, ◌&&◌, not,
  if◌then◌else◌, Option, none, some, List, [], ◌∷◌, add8, sub8,
}
use silent_tanks.Game.Types.{
  GameInstance, GameState, play, concluded, turn_player_fuel, no_occupant,
}
use silent_tanks.Game.Grid.{get_tank, put_tank, get_player, set_occupant}
use silent_tanks.Protocol.Command.{Command, command_head}
use silent_tanks.Protocol.Header.{HeaderType, failed_move, timed_out, victory}
use silent_tanks.Match.Types.{
  Match, Result, ok, err, ◌>>=◌, in_range, fetch, store, send_player, start_turn_strand,
  next_player, no_id, empty_callback,
}
use silent_tanks.Match.Apply.{apply_command, is_setup}
use silent_tanks.Match.Views.{compute_all_views}

abbrev pub is_concluded : GameState → Bool
is_concluded concluded = true
is_concluded _ = false

-- The loop over the placed tanks of an eliminated player, from slot `i` on.
unfoldable pub scrap_tanks : GameInstance → List ℕ → ℕ → ℕ → Result GameInstance
scrap_tanks g ids i zero = ok g
scrap_tanks g ids i (suc left) = do
  id ← fetch ids i
  tank ← in_range (get_tank g id)
  h ← in_range (put_tank g id (record tank { health = 0 }))
  h' ← in_range (set_occupant h tank.pos no_occupant)
  scrap_tanks h' ids (i + 1) left

-- The part of `handle_elimination` for the current player.
abbrev pub pass_turn : Match → ℕ → Match
pass_turn m p_id =
    if p_id == m.current_player
    then record m { current_player = next_player m; current_fuel = turn_player_fuel; timer = none }
    else m

unfoldable pub eliminate : Match → ℕ → HeaderType → Result Match
unfolding scrap_tanks compute_all_views start_turn_strand send_player
eliminate m p_id reason = do
  queues ← store m.command_queues p_id []
  this_player ← in_range (get_player m.game p_id)
  time_left ← store m.time_left p_id 0
  info ← fetch m.players p_id
  players ← store m.players p_id (record info { alive = false })
  order ← store m.results.elimination_order p_id m.elim_counter
  informed ←
      send_player
        (record m {
          command_queues = queues;
          remaining_players = sub8 m.remaining_players 1;
          time_left = time_left;
          players = players;
          results = record (m.results) { elimination_order = order };
          elim_counter = add8 m.elim_counter 1;
        })
        p_id reason
  game ← scrap_tanks m.game this_player.owned_tank_ids 0 this_player.tanks_placed
  viewed ← compute_all_views (record informed {
    game = game;
    tanks_placed =
        if is_setup m.current_state
        then sub8 m.tanks_placed this_player.tanks_placed
        else m.tanks_placed;
  })
  ok (start_turn_strand (pass_turn viewed p_id))

unfoldable pub handle_elimination : Match → ℕ → HeaderType → Result Match
unfolding eliminate
handle_elimination m p_id reason =
    fetch m.players p_id >>= λ info. if not info.alive then ok m else eliminate m p_id reason

unfoldable pub handle_timeout : Match → Result Match
handle_timeout m = handle_elimination m m.current_player timed_out

-- The loop of `conclude_game`, from player `i` on, with the winner found so far.
unfoldable pub find_winner : Match → ℕ → ℕ → ℕ → Result (ℕ × Match)
find_winner m i zero winner = ok (winner, m)
find_winner m i (suc left) winner = do
  info ← fetch m.players i
  order ←
      (if info.alive
        then store m.results.elimination_order i m.elim_counter
        else ok m.results.elimination_order)
  ids ← store m.results.user_ids i info.user_id
  find_winner
      (record m { results = record (m.results) { elimination_order = order; user_ids = ids } })
      (i + 1) left (if info.alive then i else winner)

-- `results_callback_(results_)`.
unfoldable pub report : Match → Result Match
report m = if m.results_set then ok (record m { reported = m.reported + 1 }) else err empty_callback

unfoldable pub conclude_game : Match → Result Match
unfolding find_winner report send_player
conclude_game m =
    if m.stopped
    then ok m
    else find_winner (record m { current_state = concluded }) 0 m.n_players no_id
      >>= λ (winner, m1).
          (if ltb winner m.n_players then send_player m1 winner victory else ok m1) >>= λ m2.
          report m2 >>= λ m3. ok (record m3 { timer = none; send_set = false; results_set = false })

-- `priority_queue::top` and `pop`: a command with the least sequence number. Which one of several
-- such commands the heap has on top is not specified; here it is the oldest.
unfoldable pub pop_command : List Command → Option (Command × List Command)
pop_command [] = none
pop_command (c ∷ cs) = elim (pop_command cs) [
  | none ↦ some (c, cs)
  | some (d, ds) ↦
      if ltb d.sequence_number c.sequence_number then some (d, c ∷ ds) else some (c, cs)
]

-- The end of a turn whose command was valid.
unfoldable pub finish_turn : Match → Result Match
unfolding compute_all_views start_turn_strand
finish_turn m =
    if is_setup m.current_state
    then (compute_all_views (record m { current_player = next_player m }) >>= λ v.
        ok (start_turn_strand v))
    else (let fuel = sub8 m.current_fuel 1 in
        if ltb 0 fuel
        then (compute_all_views (record m { current_fuel = fuel }) >>= λ v.
            ok (start_turn_strand v))
        else (compute_all_views
              (record m { current_player = next_player m; current_fuel = turn_player_fuel })
            >>= λ v. ok (start_turn_strand v)))

-- The turn with the command that was taken from the queue.
unfoldable pub play_command : Match → Command → Result Match
unfolding finish_turn start_turn_strand send_player
play_command m next_move = apply_command m next_move >>= λ (res, m1).
    if not res.valid_move
    then (send_player m1 m1.current_player failed_move >>= λ m2. ok (start_turn_strand m2))
    else (do
      left ← fetch m1.time_left m1.current_player
      time_left ← store m1.time_left m1.current_player (left + m1.increment)
      finish_turn (record m1 {
        time_left = time_left;
        results = record (m1.results) {
          move_history = command_head next_move ∷ m1.results.move_history;
        };
      }))

-- The turn after it was claimed.
unfoldable pub take_turn : Match → ℕ → Result Match
unfolding play_command
take_turn m now = fetch m.command_queues m.current_player >>= λ queue. elim (pop_command queue) [
  | none ↦ ok m
  | some (next_move, rest) ↦ (do
    queues ← store m.command_queues m.current_player rest
    time_left ← store m.time_left m.current_player (m.expiry_time - now)
    play_command (record m { command_queues = queues; time_left = time_left; timer = none })
        next_move)
]

unfoldable pub on_player_move_arrived : Match → ℕ → ℕ → Result Match
unfolding take_turn
on_player_move_arrived m t_id now =
    if t_id != m.turn_id
    then ok m
    else if m.turn_claimed
    then ok m
    else if is_concluded m.current_state
    then ok (record m { turn_claimed = true })
    else take_turn (record m { turn_claimed = true }) now

-- The transition from the setup to the play.
unfoldable pub end_setup : Match → Result Match
unfolding compute_all_views
end_setup m =
    if is_setup m.current_state && leb (m.remaining_players * m.game.num_tanks) m.tanks_placed
    then compute_all_views
        (record m { current_state = play; current_player = 0; current_fuel = turn_player_fuel })
    else ok m

-- The turn of a player who is alive: the timer is armed, and a waiting command is used.
unfoldable pub await_move : Match → ℕ → Result Match
unfolding on_player_move_arrived
await_move m now = do
  left ← fetch m.time_left m.current_player
  let armed = record m { expiry_time = now + left; timer = some m.turn_id }
  queue ← fetch m.command_queues m.current_player
  elim queue [ [] ↦ ok armed | _ ∷ _ ↦ on_player_move_arrived armed m.turn_id now ]

unfoldable pub start_turn : Match → ℕ → Result Match
unfolding end_setup conclude_game await_move
start_turn m now =
    end_setup (record m { turn_id = (m.turn_id + 1) % 4294967296; turn_claimed = false }) >>= λ m1.
    if leb m1.remaining_players 1
    then conclude_game m1
    else fetch m1.players m1.current_player >>= λ info.
        if not info.alive
        then (compute_all_views (record m1 { current_player = next_player m1 }) >>= λ v.
            ok (start_turn_strand v))
        else await_move m1 now
