-- ===== src/Game/Placement.antt =====
-- Placing and removing tanks, and the construction of a game instance: `place_tank`, `remove_tank`
-- and the constructors of src/libgame/game-instance.cpp, and those of player.cpp, flat-array.cpp and
-- maps.cpp beside it.
pub mod Enrolment
pub mod Order
pub mod Removal
pub mod Initial
use silent_tanks.Base.{
  ℕ, zero, suc, ◌+◌, ◌*◌, ◌%◌, Bool, true, false, ◌==◌, if◌then◌else◌, Option, none, some, List, [],
  ◌∷◌, replicate, get_elem?, write, ◌>>=◌, add8, sub8,
}
use silent_tanks.Game.Types.{
  Vec2, vec2, GridCell, FlatArray, flat, Tank, Player, GameInstance, GameMap, MapSettings,
  no_occupant, no_tank, no_owner, no_pos_vec,
}
use silent_tanks.Game.Tank.{empty_tank}
use silent_tanks.Game.Grid.{
  is_terrain, cell_at, put_cell, get_tank, put_tank, get_player, put_player,
}

-- `Player(num_tanks, ID)`.
unfoldable pub new_player : ℕ → ℕ → Player
new_player num_tanks player_id = record {
  tanks_placed = 0;
  owned_tank_ids = replicate num_tanks no_tank;
  player_id = player_id;
}

-- The loop that creates the players, from number `i` on.
unfoldable pub new_players : ℕ → ℕ → ℕ → List Player
unfolding new_player
new_players num_tanks i zero = []
new_players num_tanks i (suc left) = new_player num_tanks i ∷ new_players num_tanks (i + 1) left

-- `GridCell{}`.
abbrev pub empty_cell : GridCell
empty_cell = record { cell_type = flat; occupant = no_occupant; visible = false }

unfoldable pub new_array : ℕ → ℕ → FlatArray GridCell
new_array width height = record {
  width = width;
  height = height;
  array = replicate (width * height) empty_cell;
}

-- `GameInstance(GameMap)`. `unset` is the value that the constructor of a tank leaves in `id_`.
unfoldable pub from_map : GameMap → ℕ → GameInstance
unfolding empty_tank new_players
from_map m unset = record {
  num_players = m.map_settings.num_players;
  num_tanks = m.map_settings.num_tanks;
  game_env = m.env;
  players = new_players m.map_settings.num_tanks 0 m.map_settings.num_players;
  placement_mask = m.mask;
  tanks = replicate (m.map_settings.num_players * m.map_settings.num_tanks) (empty_tank unset);
}

-- `GameInstance(const MapSettings &)`: an empty board of the size of the map.
unfoldable pub from_settings : MapSettings → ℕ → GameInstance
unfolding from_map new_array
from_settings s unset =
    from_map
      (record {
        map_settings = s;
        env = new_array s.width s.height;
        mask = replicate (s.width * s.height) 0;
      })
      unset

abbrev pub placed_tank : Tank → Vec2 → ℕ → ℕ → ℕ → ℕ → Tank
placed_tank tank pos owner health id direction = record tank {
  pos = pos;
  owner = owner;
  health = health;
  loaded = true;
  id = id;
  current_direction = direction;
  barrel_direction = direction;
}

unfoldable pub place_tank : GameInstance → Vec2 → ℕ → ℕ → Option GameInstance
place_tank g pos player_id placement_direction = do
  this_cell ← cell_at g pos
  this_player ← get_player g player_id
  let tank_id = (this_player.tanks_placed + player_id * g.num_tanks) % 256
  this_tank ← get_tank g tank_id
  with_tank ← put_tank g tank_id (
      placed_tank this_tank pos player_id (if is_terrain this_cell.cell_type then 0 else 3) tank_id
        placement_direction)
  with_cell ← put_cell with_tank pos (record this_cell { occupant = tank_id })
  tank_list ← write this_player.owned_tank_ids this_player.tanks_placed tank_id
  put_player with_cell player_id (record this_player {
    owned_tank_ids = tank_list;
    tanks_placed = add8 this_player.tanks_placed 1;
  })

unfoldable pub remove_tank : GameInstance → Vec2 → ℕ → Option GameInstance
remove_tank g pos player_id = do
  this_cell ← cell_at g pos
  this_player ← get_player g player_id
  let tank_id = (this_player.tanks_placed + 255 + player_id * g.num_tanks) % 256
  this_tank ← get_tank g tank_id
  with_tank ← put_tank g tank_id (record this_tank {
    pos = no_pos_vec;
    owner = no_owner;
    health = 0;
    loaded = false;
    id = tank_id;
    current_direction = 0;
    barrel_direction = 0;
  })
  with_cell ← put_cell with_tank pos (record this_cell { occupant = no_tank })
  let placed = sub8 this_player.tanks_placed 1
  tank_list ← write this_player.owned_tank_ids placed no_tank
  put_player with_cell player_id
      (record this_player { owned_tank_ids = tank_list; tanks_placed = placed })
