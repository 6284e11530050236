-- ===== src/Game/Fire.antt =====
-- Firing and repair: `fire_tank`, `replay_fire_tank`, `repair_tank`, `load_tank` and `unload_tank` of
-- src/libgame/game-instance.cpp, and the direction table of src/libgame/constants.h.
pub mod Shot
pub mod Occupancy
pub mod Repair
pub mod Replay
use silent_tanks.Base.{
  ℕ, zero, suc, ◌+◌, ◌%◌, Bool, true, false, ltb, ◌==◌, ◌!=◌, ◌&&◌, ◌||◌, if◌then◌else◌, Option,
  none, some, List, [], ◌∷◌, length, get_elem?, ◌>>=◌, add8,
}
use mathlib.Core.Option
use silent_tanks.Game.Types.{
  Vec2, vec2, GridCell, Tank, GameInstance, MoveStatus, no_occupant, shell_damage,
  firing_dist_horizontal, firing_dist_diagonal,
}
use silent_tanks.Game.Tank.{deal_damage, repair}
use silent_tanks.Game.Grid.{is_terrain, cell_at, set_occupant, get_tank, put_tank, beyond}

-- `-1` is 255 in a `uint8_t`.
abbrev pub dir_to_vec : List Vec2
dir_to_vec =
    vec2 0 255
    ∷ vec2 1 255
    ∷ vec2 1 0
    ∷ vec2 1 1
    ∷ vec2 0 1
    ∷ vec2 255 1
    ∷ vec2 255 0
    ∷ vec2 255 255
    ∷ []

-- `vec2::operator+`.
abbrev pub add_vec2 : Vec2 → Vec2 → Vec2
add_vec2 p d = vec2 (add8 p.x d.x) (add8 p.y d.y)

abbrev pub shell_distance : ℕ → ℕ
shell_distance barrel = if barrel % 2 == 0 then firing_dist_horizontal else firing_dist_diagonal

abbrev pub out_of_bounds : GameInstance → Vec2 → Bool
out_of_bounds g p = beyond p.x g.game_env.width || beyond p.y g.game_env.height

-- Damage to the tank `occ`, which leaves the board when it has no health left.
unfoldable pub hit_tank : GameInstance → ℕ → Tank → Option GameInstance
unfolding deal_damage
hit_tank g occ hit = do
  let damaged = deal_damage hit shell_damage
  after ← put_tank g occ damaged
  if damaged.health == 0 then set_occupant after damaged.pos no_occupant else some after

-- `if (hit_tank.owner_ == curr_tank.owner_) return false;`, and the rest of that branch.
unfoldable pub fire_at : GameInstance → ℕ → ℕ → Option (Bool × GameInstance)
fire_at g owner occ = do
  hit ← get_tank g occ
  if hit.owner == owner then some (false, g) else Option.map (λ h. (true, h)) (hit_tank g occ hit)

-- The loop of `fire_tank`, with the steps that are left.
unfoldable pub fire_loop : GameInstance → ℕ → Vec2 → ℕ → Vec2 → Option (Bool × GameInstance)
unfolding fire_at
fire_loop g owner shell_dir zero loc = some (false, g)
fire_loop g owner shell_dir (suc left) loc =
    let next = add_vec2 loc shell_dir in
    let rest = fire_loop g owner shell_dir left next in
    if out_of_bounds g next
    then some (false, g)
    else cell_at g next >>= λ curr_cell.
        if is_terrain curr_cell.cell_type
        then some (false, g)
        else if curr_cell.occupant != no_occupant
        then fire_at g owner curr_cell.occupant
        else rest

unfoldable pub fire_tank : GameInstance → ℕ → Option (Bool × GameInstance)
fire_tank g id = do
  curr_tank ← get_tank g id
  shell_dir ← get_elem? dir_to_vec curr_tank.barrel_direction
  unloaded ← put_tank g id (record curr_tank { loaded = false })
  fire_loop unloaded curr_tank.owner shell_dir (shell_distance curr_tank.barrel_direction)
      curr_tank.pos

abbrev pub miss : MoveStatus
miss = record { success = false; hits = [] }

unfoldable pub replay_fire_at : GameInstance → ℕ → Option (MoveStatus × GameInstance)
replay_fire_at g occ = do
  hit ← get_tank g occ
  after ← hit_tank g occ hit
  some (record { success = true; hits = hit.pos ∷ [] }, after)

unfoldable pub replay_fire_loop :
    GameInstance → Vec2 → ℕ → Vec2 → Option (MoveStatus × GameInstance)
unfolding replay_fire_at
replay_fire_loop g shell_dir zero loc = some (miss, g)
replay_fire_loop g shell_dir (suc left) loc =
    let next = add_vec2 loc shell_dir in
    let rest = replay_fire_loop g shell_dir left next in
    if out_of_bounds g next
    then some (miss, g)
    else cell_at g next >>= λ curr_cell.
        if is_terrain curr_cell.cell_type
        then some (miss, g)
        else if curr_cell.occupant != no_occupant
        then replay_fire_at g curr_cell.occupant
        else rest

unfoldable pub replay_fire_tank : GameInstance → ℕ → Option (MoveStatus × GameInstance)
replay_fire_tank g id = do
  curr_tank ← get_tank g id
  shell_dir ← get_elem? dir_to_vec curr_tank.barrel_direction
  unloaded ← put_tank g id (record curr_tank { loaded = false })
  replay_fire_loop unloaded shell_dir (shell_distance curr_tank.barrel_direction) curr_tank.pos

-- The body of the loop of `repair_tank`, at tank `i`.
unfoldable pub revive : GameInstance → Vec2 → ℕ → Option GameInstance
unfolding repair
revive g pos i = do
  tank ← get_tank g i
  if tank.pos.x == pos.x && tank.pos.y == pos.y
      then (do
        healed ← put_tank g i (repair tank shell_damage)
        set_occupant healed tank.pos tank.id)
      else some g

unfoldable pub revive_from : GameInstance → Vec2 → ℕ → ℕ → Option GameInstance
revive_from g pos i zero = some g
revive_from g pos i (suc left) = revive g pos i >>= λ h. revive_from h pos (i + 1) left

unfoldable pub repair_tank : GameInstance → Vec2 → Option GameInstance
unfolding repair revive_from
repair_tank g pos = do
  target_cell ← cell_at g pos
  if target_cell.occupant != no_occupant
      then (do
        tank ← get_tank g target_cell.occupant
        put_tank g target_cell.occupant (repair tank shell_damage))
      else revive_from g pos 0 (length g.tanks)

unfoldable pub load_tank : GameInstance → ℕ → Option GameInstance
load_tank g id = do tank ← get_tank g id; put_tank g id (record tank { loaded = true })

unfoldable pub unload_tank : GameInstance → ℕ → Option GameInstance
unload_tank g id = do tank ← get_tank g id; put_tank g id (record tank { loaded = false })
