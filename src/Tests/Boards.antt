-- ===== src/Tests/Boards.antt =====
-- A small board with two tanks, and the theorems about the game library on it.
use silent_tanks.Game.Placement.Removal.{Restores, remove_tank-place_tank}
use silent_tanks.Game.Move.Undo.{Same, move_tank-undo}
use silent_tanks.Game.Fire.Repair.{repair-deal_damage}
use silent_tanks.Game.Fire.Replay.{Replays, replay_fire_tank-Replays}
use silent_tanks.Base.{
  ℕ, ◌<◌, ◌≡◌, Bool, true, false, some, [], ◌∷◌, refl, arith, replicate, get_elem?, suc, ◌↔◌,
}
use mathlib.Core.Option
use silent_tanks.Base.{zero, suc, get_elem?, ap, sym, subst}
use silent_tanks.Game.Tank.{empty_tank, repair, deal_damage}
use silent_tanks.Game.Types.{GridCell, initial_health}
use silent_tanks.Game.Types.{Vec2, vec2, Tank, Player, GameInstance, GameMap, no_occupant, GridCell}
use silent_tanks.Game.Grid.{
  get_tank, get_player, cell_at, put_tank, put_cell, put_player, set_occupant,
}
use silent_tanks.Game.Grid.Board.{occupant_at, terrain_at}
use silent_tanks.Game.Occupancy.{IsSound, Lives}
use silent_tanks.Game.Roster.{IsRostered}
use silent_tanks.Game.Placement.{
  from_map, place_tank, new_array, new_player, new_players, empty_cell, remove_tank,
}
use silent_tanks.Game.Placement.Initial.{IsMap, from_map-IsSound, from_map-IsRostered, from_map_lem}
use silent_tanks.Game.Placement.Enrolment.{Enrols}
use silent_tanks.Game.Placement.Order.{place_tank_lem}
use silent_tanks.Game.Move.{move_tank, decide_move, move_south}
use silent_tanks.Game.Move.Occupancy.{Moves, move_tank-Moves}
use silent_tanks.Game.Fire.{fire_tank, replay_fire_tank}
use silent_tanks.Game.Fire.Occupancy.{Fires, fire_tank-Fires}

-- Three by three flat cells; player 1 places in the last row, player 0 in the others.
abbrev pub arena_map : GameMap
arena_map = record {
  map_settings = record { width = 3; height = 3; num_tanks = 2; num_players = 2; mode = 0 };
  env = record { width = 3; height = 3; array = replicate 9 empty_cell };
  mask = 0 ∷ 0 ∷ 0 ∷ 0 ∷ 0 ∷ 0 ∷ 1 ∷ 1 ∷ 1 ∷ [];
}

pub arena_map-IsMap : IsMap arena_map
unfolding new_array
arena_map-IsMap = record {
  width = refl;
  height = refl;
  width_u8 = omega arith;
  height_u8 = omega arith;
  cells = refl;
  mask = refl;
  ids = omega arith;
  vacant = vacant_in 9;
}
  where
    vacant_in :
        (n i : ℕ) (c : GridCell)
        → get_elem? (replicate n empty_cell) i ≡ some c
        → c.occupant ≡ no_occupant
    vacant_in zero i c e = cc
    vacant_in (suc n) zero c e = ground arith
    vacant_in (suc n) (suc i) c e = vacant_in n i c e

abbrev pub arena : GameInstance
arena = from_map arena_map 0

abbrev pub first_player : Player
first_player = record { tanks_placed = 0; owned_tank_ids = 255 ∷ 255 ∷ []; player_id = 0 }

arena-first : get_player arena 0 ≡ some first_player
unfolding from_map new_players new_player get_player new_array
arena-first = refl

arena-free : (occupant_at arena (vec2 0 0) ≡ no_occupant) × (terrain_at arena (vec2 0 0) ≡ false)
unfolding from_map new_array occupant_at terrain_at cell_at
arena-free = (refl, refl)

place_tank_lem_example :
    (h : GameInstance) × (place_tank arena (vec2 0 0) 0 4 ≡ some h)
    × Enrols arena 0 0 (vec2 0 0) 4 h
    × IsSound h
    × IsRostered h
unfolding from_map new_array
place_tank_lem_example =
    place_tank_lem arena (vec2 0 0) 0 4 first_player (from_map-IsSound arena_map 0 arena_map-IsMap)
      (from_map-IsRostered arena_map 0 arena_map-IsMap) arena-first (omega arith) (omega arith)
      (omega arith, omega arith) arena-free.0 arena-free.1

-- The board after two placements: tank 0 of player 0 at the top, facing tank 2 of player 1.
abbrev pub opened : GameInstance
unfolding place_tank
opened = Option.get_or (place_tank arena (vec2 0 0) 0 4) arena

abbrev pub duel : GameInstance
unfolding place_tank
duel = Option.get_or (place_tank opened (vec2 0 2) 1 0) opened

abbrev second_player : Player
second_player = record { tanks_placed = 0; owned_tank_ids = 255 ∷ 255 ∷ []; player_id = 1 }

pub opened-order : IsSound opened × IsRostered opened
unfolding place_tank
opened-order =
    let (h, e, _, s, r) = place_tank_lem_example in
    let same : h ≡ opened = ap (λ o. Option.get_or o arena) (sym e) in
    (subst IsSound same s, subst IsRostered same r)

opened-second : get_player opened 1 ≡ some second_player
unfolding place_tank from_map new_players new_player get_player new_array get_tank put_tank put_cell
    put_player cell_at empty_tank
opened-second = refl

opened-free : (occupant_at opened (vec2 0 2) ≡ no_occupant) × (terrain_at opened (vec2 0 2) ≡ false)
unfolding place_tank from_map new_players new_player get_player new_array get_tank put_tank put_cell
    put_player cell_at empty_tank occupant_at terrain_at
opened-free = (refl, refl)

pub duel-order : IsSound duel × IsRostered duel
unfolding place_tank from_map new_players new_player get_player new_array get_tank put_tank put_cell
    put_player cell_at empty_tank
duel-order =
    let (h, e, _, s, r) =
      place_tank_lem opened (vec2 0 2) 1 0 second_player opened-order.0 opened-order.1 opened-second
        (omega arith) (omega arith) (omega arith, omega arith) opened-free.0 opened-free.1 in
    let same : h ≡ duel = ap (λ o. Option.get_or o opened) (sym e) in
    (subst IsSound same s, subst IsRostered same r)

abbrev pub tank_0 : Tank
tank_0 = record {
  pos = vec2 0 0;
  current_direction = 4;
  barrel_direction = 4;
  id = 0;
  health = 3;
  aim_focused = false;
  loaded = true;
  owner = 0;
}

pub duel-tank_0 : get_tank duel 0 ≡ some tank_0
unfolding place_tank from_map new_players new_player get_player new_array get_tank put_tank put_cell
    put_player cell_at empty_tank
duel-tank_0 = refl

move_tank-Moves_example : Moves duel 0 tank_0 4 (move_tank duel 0 false)
move_tank-Moves_example =
    move_tank-Moves duel 0 tank_0 false duel-order.0 duel-tank_0 (omega arith) (omega arith)

fire_tank-Fires_example : Fires duel 0 tank_0 (fire_tank duel 0)
fire_tank-Fires_example =
    fire_tank-Fires duel 0 tank_0 duel-order.0 duel-tank_0 (omega arith) (omega arith)

from_map_lem_example :
    IsSound arena
    × IsRostered arena
    × ((k : ℕ) → k < 2 → get_player arena k ≡ some (new_player 2 k))
    × ((i : ℕ) (p : Vec2) → ¬ Lives arena i p)
from_map_lem_example = from_map_lem arena_map 0 arena_map-IsMap

replay_fire_tank-Replays_example :
    Replays duel 0 tank_0 (fire_tank duel 0) (replay_fire_tank duel 0)
replay_fire_tank-Replays_example =
    replay_fire_tank-Replays duel 0 tank_0 duel-order.0 duel-tank_0 (omega arith) (omega arith)

repair-deal_damage_example :
    (repair (deal_damage tank_0 1) 1 ≡ record tank_0 { health = initial_health })
    × ((repair (deal_damage tank_0 1) 1 ≡ tank_0) ↔ (3 ≡ initial_health))
repair-deal_damage_example = repair-deal_damage tank_0 1 1 (omega arith)

-- Tank 0 a cell further south.
abbrev stepped : GameInstance
unfolding move_tank
stepped =
    Option.get_or (Option.map (λ (r : Bool × GameInstance). r.1) (move_tank duel 0 false)) duel

duel-stepped : move_tank duel 0 false ≡ some (true, stepped)
unfolding move_tank place_tank from_map new_players new_player get_player new_array get_tank
    put_tank put_cell put_player cell_at empty_tank stepped decide_move move_south set_occupant
duel-stepped = refl

move_tank-undo_example :
    (k : GameInstance) × (move_tank stepped 0 true ≡ some (true, k)) × Same duel k
move_tank-undo_example =
    move_tank-undo duel stepped 0 tank_0 duel-order.0 duel-tank_0 (omega arith) (omega arith)
      duel-stepped

arena-opened : place_tank arena (vec2 0 0) 0 4 ≡ some opened
unfolding place_tank from_map new_players new_player get_player new_array get_tank put_tank put_cell
    put_player cell_at empty_tank opened
arena-opened = refl

remove_tank-place_tank_example :
    (r : GameInstance) × (remove_tank opened (vec2 0 0) 0 ≡ some r)
    × Restores arena 0 0 first_player r
unfolding from_map
remove_tank-place_tank_example =
    remove_tank-place_tank arena opened (vec2 0 0) 0 4 first_player
      (from_map-IsSound arena_map 0 arena_map-IsMap)
      (from_map-IsRostered arena_map 0 arena_map-IsMap) arena-first (omega arith)
      (omega arith, omega arith) arena-free.0 arena-free.1 arena-opened
