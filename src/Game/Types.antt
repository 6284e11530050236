-- ===== src/Game/Types.antt =====
-- The data of the game library: vec2.h, cell-type.h, grid-cell.h, flat-array.h, tank-entity.h,
-- player.h, maps.h, move-status.h, game-state.h, constants.h, and the state of `GameInstance`
-- (game-instance.h), all under src/libgame. A `uint8_t` is a number below 256.
use silent_tanks.Base.{ℕ, Bool, List}

abbrev pub initial_health : ℕ
initial_health = 3

abbrev pub turn_player_fuel : ℕ
turn_player_fuel = 3

abbrev pub firing_dist_diagonal : ℕ
firing_dist_diagonal = 3

abbrev pub firing_dist_horizontal : ℕ
firing_dist_horizontal = 4

abbrev pub shell_damage : ℕ
shell_damage = 1

abbrev pub no_owner : ℕ
no_owner = 255

abbrev pub no_occupant : ℕ
no_occupant = 255

abbrev pub no_tank : ℕ
no_tank = 255

abbrev pub no_player : ℕ
no_player = 255

pub record Vec2 : Type 0 where
  pub x : ℕ
  pub y : ℕ

abbrev pub vec2 : ℕ → ℕ → Vec2
vec2 x y = record { x = x; y = y }

abbrev pub no_pos_vec : Vec2
no_pos_vec = vec2 255 255

pub data CellType : Type 0 where
  flat foliage terrain : CellType

pub record GridCell : Type 0 where
  pub cell_type : CellType
  pub occupant : ℕ
  pub visible : Bool

-- `array` holds the rows one after the other.
pub record FlatArray {ℓ} (A : Type ℓ) : Type ℓ where
  pub width : ℕ
  pub height : ℕ
  pub array : List A

pub record Tank : Type 0 where
  pub pos : Vec2
  pub current_direction : ℕ
  pub barrel_direction : ℕ
  pub id : ℕ
  pub health : ℕ
  pub aim_focused : Bool
  pub loaded : Bool
  pub owner : ℕ

pub record Player : Type 0 where
  pub tanks_placed : ℕ
  pub owned_tank_ids : List ℕ
  pub player_id : ℕ

pub data GameState : Type 0 where
  setup play concluded : GameState

pub record MoveStatus : Type 0 where
  pub success : Bool
  pub hits : List Vec2

pub record MapSettings : Type 0 where
  pub width : ℕ
  pub height : ℕ
  pub num_tanks : ℕ
  pub num_players : ℕ
  pub mode : ℕ

pub record GameMap : Type 0 where
  pub map_settings : MapSettings
  pub env : FlatArray GridCell
  pub mask : List ℕ

pub record GameInstance : Type 0 where
  pub num_players : ℕ
  pub num_tanks : ℕ
  pub game_env : FlatArray GridCell
  pub players : List Player
  pub placement_mask : List ℕ
  pub tanks : List Tank
