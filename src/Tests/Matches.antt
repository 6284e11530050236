-- ===== src/Tests/Matches.antt =====
-- A match on the small board, and the theorems about the server's match on it.
use silent_tanks.Match.Living.{living, live_tanks-living}
use silent_tanks.Match.Views.{live_tanks, view_player}
use silent_tanks.Match.Scrap.{Slots, Scraps, scrap_tanks-Scraps, scrap_tanks-evicts}
use silent_tanks.Game.Grid.Board.{occupant_at}
use silent_tanks.Match.Twice.{start_turn-twice}
use silent_tanks.Match.Late.{late-empty_callback}
use silent_tanks.Match.Turns.{
  on_player_move_arrived, pop_command, start_turn, scrap_tanks, handle_elimination, handle_timeout,
}
use silent_tanks.Match.Queue.{Pops, pop_command-Pops}
use silent_tanks.Match.Race.{Deaf, one_claim, turns}
use silent_tanks.Base.{
  ℕ, [], ◌∷◌, true, false, refl, arith, ◌≡◌, some, List, sym, ◌∙◌, some, set, length-set,
  get_elem?-set, subst, ◌*◌, Bool, ◌<◌,
}
use silent_tanks.Game.Types.{Player, play, concluded, GameInstance, Tank, vec2, no_occupant}
use silent_tanks.Game.Grid.{
  get_player, get_tank, put_tank, put_cell, put_player, cell_at, check_placement,
}
use silent_tanks.Game.Placement.{place_tank, from_map, new_players, new_player, new_array}
use silent_tanks.Game.Tank.{empty_tank}
use silent_tanks.Game.Occupancy.{
  IsSound, Lives, Puts, reseat-IsSound, Puts-IsSized, Puts-occupant_at, get_tank-lt,
}
use silent_tanks.Game.Roster.{IsRostered}
use silent_tanks.Tests.Boards.{arena_map, duel, duel-order, tank_0, duel-tank_0}
use silent_tanks.Protocol.Command.{Command, move, place}
use silent_tanks.Match.Types.{
  Match, PlayerInfo, ok, err, ◌>>=◌, ApplyResult, empty_callback, Fault, Result,
}
use silent_tanks.Match.Apply.{apply_command, apply_case}
use silent_tanks.Match.Apply.Sound.{apply_command-IsSound}
use silent_tanks.Match.Events.{
  new_match, start, run, Event, turn, command, forfeits, timer, on_timer, receive_command, forfeit,
  sync_player, find_player, syncs, step, shutdown,
}
use silent_tanks.Match.Invariant.{Ensures, IsInv}
use silent_tanks.Match.Invariant.Runs.{run-start-IsInv}

abbrev two_players : List PlayerInfo
two_players =
    record { player_id = 0; session_id = 10; user_id = 100; alive = true }
    ∷ record { player_id = 1; session_id = 11; user_id = 101; alive = true }
    ∷ []

abbrev fresh : Match
fresh = new_match arena_map two_players 60 5 0

abbrev duel_match : Match
unfolding new_match
duel_match = record fresh { game = duel; current_state = play; tanks_placed = 2 }

abbrev step_ahead : Command
step_ahead = record {
  sender = 0;
  command_type = move;
  tank_id = 0;
  payload_first = 0;
  payload_second = 0;
  sequence_number = 1;
}

abbrev put_down : Command
put_down = record step_ahead { command_type = place; tank_id = 4 }

abbrev placer : Player
placer = record { tanks_placed = 1; owned_tank_ids = 0 ∷ 255 ∷ []; player_id = 0 }

duel-placer : get_player duel 0 ≡ some placer
unfolding place_tank from_map new_players new_player get_player new_array get_tank put_tank put_cell
    put_player cell_at empty_tank
duel-placer = refl

apply_command-IsSound_example :
    (res : ApplyResult) × (m' : Match) × (apply_command duel_match step_ahead ≡ ok (res, m'))
    × IsSound m'.game
    × IsRostered m'.game
    × (res.valid_move ≡ false → m' ≡ duel_match)
unfolding duel_match
apply_command-IsSound_example =
    apply_command-IsSound duel_match step_ahead placer duel-order.0 duel-order.1 duel-placer
      (λ never. cc)

abbrev schedule : List Event
schedule = turn 0 ∷ command 100 put_down 1 7 ∷ turn 8 ∷ timer 1 true ∷ forfeits 101 ∷ turn 9 ∷ []

run-start-IsInv_example : Ensures IsInv (start fresh >>= λ m. run m schedule)
run-start-IsInv_example = run-start-IsInv arena_map two_players 60 5 0 schedule refl (omega arith)

-- The match in its first turn, with a command of its player that `enqueue` has just put in the queue.
abbrev awaiting : Match
awaiting =
    let begun : Match = elim (start fresh >>= λ m. run m (turn 0 ∷ [])) [
      | ok m ↦ m
      | err e ↦ fresh
    ] in
    record begun { command_queues = (put_down ∷ []) ∷ [] ∷ [] }

abbrev afterwards : List Event
afterwards =
    timer 1 true
    ∷ syncs 12 100
    ∷ command 100 put_down 1 8
    ∷ turn 8
    ∷ timer 1 false
    ∷ turn 9
    ∷ shutdown
    ∷ []

abbrev returns : Result Match → Bool
returns (ok m) = true
returns (err e) = false

-- The turn is there, not claimed, and both runs return.
awaiting_open :
    (awaiting.turn_id ≡ 1)
    × (awaiting.turn_claimed ≡ false)
    × (returns (on_player_move_arrived awaiting 1 7 >>= λ m. run m afterwards) ≡ true)
    × (returns (on_timer awaiting 1 false >>= λ m. run m afterwards) ≡ true)
unfolding start run on_player_move_arrived on_timer step new_match view_player get_player from_map
    start_turn pop_command apply_command apply_case check_placement place_tank get_tank put_tank
    put_cell put_player handle_elimination handle_timeout
awaiting_open = (refl, refl, refl, refl)

one_claim_example :
    Ensures
      (Deaf awaiting.turn_id)
      (on_player_move_arrived awaiting awaiting.turn_id 7 >>= λ m. run m afterwards)
    × Ensures
        (Deaf awaiting.turn_id)
        (on_timer awaiting awaiting.turn_id false >>= λ m. run m afterwards)
unfolding turns
one_claim_example =
    one_claim awaiting 7 afterwards
      (subst (λ n. n < 4294967296) (sym awaiting_open.0) (omega arith)) (omega arith)

pop_command-Pops_example :
    Pops (step_ahead ∷ put_down ∷ []) (pop_command (step_ahead ∷ put_down ∷ []))
pop_command-Pops_example = pop_command-Pops (step_ahead ∷ put_down ∷ [])

-- The match after one of its players won.
abbrev over : Match
unfolding new_match
over = record fresh {
  players =
      record { player_id = 0; session_id = 10; user_id = 100; alive = true }
      ∷ record { player_id = 1; session_id = 11; user_id = 101; alive = false }
      ∷ [];
  remaining_players = 1;
  elim_counter = 1;
  current_state = concluded;
  send_set = false;
  results_set = false;
  reported = 1;
}

over-IsInv : IsInv over
unfolding over new_match
over-IsInv = record {
  queues = ((omega arith, tt), ((omega arith, tt), tt));
  tally = refl;
  eliminated = refl;
  few = omega arith;
  once = omega arith;
  silent = λ _. (refl, refl);
}

late-empty_callback_example :
    (receive_command over 100 step_ahead 0 7 ≡ err empty_callback)
    × (forfeit over 100 ≡ err empty_callback)
    × (sync_player over 12 100 ≡ err empty_callback)
unfolding over new_match find_player
late-empty_callback_example =
    late-empty_callback over 100 0 0 7 12 step_ahead
      (record { player_id = 0; session_id = 10; user_id = 100; alive = true }) over-IsInv refl refl
      refl

start_turn-twice_example : (f : Fault) × (start_turn over 9 ≡ err f)
unfolding over new_match
start_turn-twice_example = start_turn-twice over 9 over-IsInv refl refl (omega arith)

-- Tank 0 alone stands at the top left.
duel-alone : (o : ℕ) → Lives duel o (vec2 0 0) → o ≡ 0
duel-alone o l =
    let sound = duel-order.0 in
    sym (sound.seated o (vec2 0 0) l).1
    ∙ (sound.seated 0 (vec2 0 0)
        (record { tank = tank_0; stored = duel-tank_0; alive = omega arith; place = refl })).1

duel-Slots : Slots duel (0 ∷ 255 ∷ []) 0 1
unfolding place_tank from_map new_players new_player get_player new_array get_tank put_tank put_cell
    put_player cell_at empty_tank
duel-Slots = ((0, tank_0, refl, duel-tank_0, (omega arith, omega arith), duel-alone), tt)

scrap_tanks-Scraps_example :
    (h : GameInstance) × (scrap_tanks duel (0 ∷ 255 ∷ []) 0 1 ≡ ok h)
    × Scraps duel (0 ∷ 255 ∷ []) 0 1 h
scrap_tanks-Scraps_example = scrap_tanks-Scraps duel (0 ∷ 255 ∷ []) 0 1 duel-order.0 duel-Slots

-- A wreck of player 0 under the living tank 0.
abbrev wreck : Tank
unfolding empty_tank
wreck = record (empty_tank 0) { pos = vec2 0 0 }

duel-spare : get_tank duel 1 ≡ some (empty_tank 0)
unfolding place_tank from_map new_players new_player get_player new_array get_tank put_tank put_cell
    put_player cell_at empty_tank
duel-spare = refl

abbrev crowd : GameInstance
crowd = record duel { tanks = set duel.tanks 1 wreck }

crowd-Puts : Puts duel 1 wreck crowd
unfolding get_tank
crowd-Puts =
    let lt = get_tank-lt duel 1 (empty_tank 0) duel-spare in
    record {
      env = refl;
      players = refl;
      mask = refl;
      num_players = refl;
      num_tanks = refl;
      count = length-set duel.tanks 1 wreck;
      tank = λ j. get_elem?-set duel.tanks 1 j wreck lt;
    }

wreck-dead : wreck.health ≡ 0
unfolding wreck empty_tank
wreck-dead = refl

crowd-IsSound : IsSound crowd
unfolding empty_tank
crowd-IsSound =
    let (sound, _) = duel-order in
    let p = crowd-Puts in
    reseat-IsSound 1 wreck sound (Puts-IsSized p sound.sized) p.tank (λ q. false) (λ q. false)
      (λ q iq. (Puts-occupant_at p q).0) (λ q iq. (Puts-occupant_at p q).1) refl refl
      (λ q iq _ _ here.
        let l : Lives duel 1 q =
          subst (λ o. Lives duel o q) here (sound.manned q iq (λ e. omega (arith, here, e))) in
        ground (arith, l.stored, duel-spare, l.alive))
      (λ q iq never. cc) (λ alive. absurd (omega (arith, alive, wreck-dead))) (λ q never. cc)

crowd-Lives : Lives crowd 0 (vec2 0 0)
crowd-Lives = record {
  tank = tank_0;
  stored = crowd-Puts.tank 0 ∙ duel-tank_0;
  alive = omega arith;
  place = refl;
}

scrap_tanks-evicts_example :
    (h : GameInstance) × (scrap_tanks crowd (1 ∷ []) 0 1 ≡ ok h)
    × Lives h 0 (vec2 0 0)
    × (occupant_at h (vec2 0 0) ≡ no_occupant)
    × ¬ IsSound h
unfolding wreck
scrap_tanks-evicts_example =
    scrap_tanks-evicts crowd (1 ∷ []) 0 1 0 wreck crowd-IsSound refl (crowd-Puts.tank 1) crowd-Lives
      (λ e. omega (arith, e))

live_tanks-living_example : live_tanks duel 0 ≡ ok (living duel (0 * duel.num_tanks) duel.num_tanks)
live_tanks-living_example = live_tanks-living duel 0 placer duel-order.0 duel-order.1 duel-placer
