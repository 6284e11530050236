-- ===== src/Game/Grid.antt =====
-- Access to the board of a game instance: src/libgame/flat-array.h and the inline members of
-- src/libgame/game-instance.h. An access outside a vector is a fault, `none`.
pub mod Board
use silent_tanks.Base.{
  ℕ, ◌+◌, ◌*◌, Bool, true, false, ltb, ◌==◌, if◌then◌else◌, Option, some, get_elem?, write, ◌>>=◌,
}
use silent_tanks.Game.Types.{
  Vec2, CellType, terrain, flat, foliage, GridCell, FlatArray, Tank, Player, GameInstance,
  no_occupant,
}

-- `idx`, the place of a position in the array.
abbrev pub idx : FlatArray GridCell → ℕ → ℕ → ℕ
idx env x y = x + env.width * y

abbrev pub is_terrain : CellType → Bool
is_terrain terrain = true
is_terrain flat = false
is_terrain foliage = false

-- `game_env_[idx(pos)]`.
unfoldable pub cell_at : GameInstance → Vec2 → Option GridCell
cell_at g p = get_elem? g.game_env.array (idx g.game_env p.x p.y)

-- `game_env_[idx(pos)] = cell`.
unfoldable pub put_cell : GameInstance → Vec2 → GridCell → Option GameInstance
put_cell g p c = do
  array ← write g.game_env.array (idx g.game_env p.x p.y) c
  some (record g { game_env = record (g.game_env) { array = array } })

unfoldable pub set_occupant : GameInstance → Vec2 → ℕ → Option GameInstance
unfolding cell_at put_cell
set_occupant g p occupant = do c ← cell_at g p; put_cell g p (record c { occupant = occupant })

unfoldable pub get_tank : GameInstance → ℕ → Option Tank
get_tank g i = get_elem? g.tanks i

-- A write through the reference that `get_tank` returns.
unfoldable pub put_tank : GameInstance → ℕ → Tank → Option GameInstance
put_tank g i t = do tanks ← write g.tanks i t; some (record g { tanks = tanks })

unfoldable pub get_player : GameInstance → ℕ → Option Player
get_player g i = get_elem? g.players i

unfoldable pub put_player : GameInstance → ℕ → Player → Option GameInstance
put_player g i p = do players ← write g.players i p; some (record g { players = players })

-- `x > width - 1`, where the bound is an `int`.
abbrev pub beyond : ℕ → ℕ → Bool
beyond x bound = ltb bound (x + 1)

unfoldable pub check_placement : GameInstance → Vec2 → ℕ → Option Bool
unfolding cell_at
check_placement g p player = do
  owner ← get_elem? g.placement_mask (idx g.game_env p.x p.y)
  if owner == player then permitted g p else some false
  where
    permitted : GameInstance → Vec2 → Option Bool
    permitted g p = do
      c ← cell_at g p
      some (if is_terrain c.cell_type then false else c.occupant == no_occupant)
