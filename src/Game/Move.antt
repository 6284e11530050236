-- ===== src/Game/Move.antt =====
-- `GameInstance::move_tank`, `rotate_tank` and `rotate_tank_barrel` of
-- src/libgame/game-instance.cpp. The source writes the new position into the tank and takes it
-- back when the move is refused; here the position is a value until the move is accepted.
pub mod Legal
pub mod Occupancy
pub mod Undo
use silent_tanks.Base.{
  ℕ, ◌+◌, ◌%◌, Bool, true, false, ◌==◌, ◌!=◌, ◌&&◌, ◌||◌, if◌then◌else◌, Option, none, some, ◌>>=◌,
  add8, sub8,
}
use silent_tanks.Game.Types.{Vec2, vec2, Tank, GameInstance, no_occupant}
use silent_tanks.Game.Tank.{
  turn_clockwise, turn_counter_clockwise, barrel_clockwise, barrel_counter_clockwise,
}
use silent_tanks.Game.Grid.{is_terrain, cell_at, set_occupant, get_tank, put_tank, beyond}

unfoldable pub rotate_tank : GameInstance → ℕ → ℕ → Option GameInstance
unfolding get_tank put_tank
rotate_tank g id dir = do
  tank ← get_tank g id
  put_tank g id (if dir == 0 then turn_clockwise tank else turn_counter_clockwise tank)

unfoldable pub rotate_tank_barrel : GameInstance → ℕ → ℕ → Option GameInstance
unfolding get_tank put_tank
rotate_tank_barrel g id dir = do
  tank ← get_tank g id
  put_tank g id (if dir == 0 then barrel_clockwise tank else barrel_counter_clockwise tank)

-- What a case of the switch decides: `none` for `return false`, else the new position.
abbrev pub Decision : Type 0
Decision = Option Vec2

module _ (g : GameInstance) (prev : Vec2) where
  -- The tests on the cell that the tank would enter, for a move along an axis.
  unfoldable pub enter_straight : Vec2 → Option Decision
  enter_straight p = do
    moved_cell ← cell_at g p
    some (
        if moved_cell.occupant != no_occupant
        then none
        else if is_terrain moved_cell.cell_type
        then none
        else some p)

  -- A diagonal move may not cut between two mountains.
  unfoldable pub squeeze : Vec2 → Option Decision
  squeeze p = do
    m1 ← cell_at g (vec2 p.x prev.y)
    m2 ← cell_at g (vec2 prev.x p.y)
    some (if is_terrain m1.cell_type && is_terrain m2.cell_type then none else some p)

  unfoldable pub enter_diagonal : Vec2 → Option Decision
  unfolding squeeze
  enter_diagonal p = do
    moved_cell ← cell_at g p
    if moved_cell.occupant != no_occupant
        then some none
        else if is_terrain moved_cell.cell_type
        then some none
        else squeeze p

  out_x : ℕ → Bool
  out_x x = beyond x g.game_env.width

  out_y : ℕ → Bool
  out_y y = beyond y g.game_env.height

  unfoldable pub move_north : Option Decision
  unfolding out_y enter_straight
  move_north =
      let y = sub8 prev.y 1 in if out_y y then some none else enter_straight (vec2 prev.x y)

  unfoldable pub move_north_east : Option Decision
  unfolding out_x out_y enter_diagonal
  move_north_east =
      let y = sub8 prev.y 1 in
      let x = add8 prev.x 1 in if out_y y || out_x x then some none else enter_diagonal (vec2 x y)

  unfoldable pub move_east : Option Decision
  unfolding out_x enter_straight
  move_east = let x = add8 prev.x 1 in if out_x x then some none else enter_straight (vec2 x prev.y)

  unfoldable pub move_south_east : Option Decision
  unfolding out_x out_y enter_diagonal
  move_south_east =
      let y = add8 prev.y 1 in
      let x = add8 prev.x 1 in if out_y y || out_x x then some none else enter_diagonal (vec2 x y)

  unfoldable pub move_south : Option Decision
  unfolding out_y enter_straight
  move_south =
      let y = add8 prev.y 1 in if out_y y then some none else enter_straight (vec2 prev.x y)

  unfoldable pub move_south_west : Option Decision
  unfolding out_x out_y enter_diagonal
  move_south_west =
      let y = add8 prev.y 1 in
      let x = sub8 prev.x 1 in if out_y y || out_x x then some none else enter_diagonal (vec2 x y)

  unfoldable pub move_west : Option Decision
  unfolding out_x enter_straight
  move_west = let x = sub8 prev.x 1 in if out_x x then some none else enter_straight (vec2 x prev.y)

  unfoldable pub move_north_west : Option Decision
  unfolding out_x out_y enter_diagonal
  move_north_west =
      let y = sub8 prev.y 1 in
      let x = sub8 prev.x 1 in if out_y y || out_x x then some none else enter_diagonal (vec2 x y)

  -- The switch. A direction past 7 matches no case, and the tank stays where it is.
  unfoldable pub decide_move : ℕ → Option Decision
  decide_move dir =
      if dir == 0
      then move_north
      else if dir == 1
      then move_north_east
      else if dir == 2
      then move_east
      else if dir == 3
      then move_south_east
      else if dir == 4
      then move_south
      else if dir == 5
      then move_south_west
      else if dir == 6
      then move_west
      else if dir == 7
      then move_north_west
      else some (some prev)

-- The updates after the switch: the old cell is emptied first, then the new one is taken.
unfoldable pub finish_move : GameInstance → ℕ → Tank → Decision → Option (Bool × GameInstance)
finish_move g id tank none = some (false, g)
finish_move g id tank (some p) = do
  moved ← put_tank g id (record tank { pos = p })
  left ← set_occupant moved tank.pos no_occupant
  entered ← set_occupant left p id
  some (true, entered)

unfoldable pub heading : Tank → Bool → ℕ
heading tank reverse = if reverse then (tank.current_direction + 4) % 8 else tank.current_direction

unfoldable pub move_tank : GameInstance → ℕ → Bool → Option (Bool × GameInstance)
unfolding heading finish_move
move_tank g id reverse = do
  tank ← get_tank g id
  decision ← decide_move g tank.pos (heading tank reverse)
  finish_move g id tank decision
