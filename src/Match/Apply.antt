-- ===== src/Match/Apply.antt =====
-- `MatchInstance::apply_command` (src/server/match-instance.cpp), one function for each case.
pub mod Cases
pub mod Sound
use silent_tanks.Base.{
  ℕ, ◌+◌, ◌*◌, Bool, true, false, leb, ◌==◌, ◌!=◌, ◌||◌, not, if◌then◌else◌, Option, some, none,
  add8, ◌&&◌,
}
use mathlib.Core.Option
use silent_tanks.Game.Types.{Vec2, vec2, Tank, GameInstance, GameState, setup}
use silent_tanks.Game.Grid.{get_tank, beyond, check_placement}
use silent_tanks.Game.Move.{move_tank, rotate_tank, rotate_tank_barrel}
use silent_tanks.Game.Fire.{fire_tank, load_tank}
use silent_tanks.Game.Placement.{place_tank}
use silent_tanks.Protocol.Command.{
  Command, CommandType, move, rotate_tank as rotate_tank_command, rotate_barrel, fire, place, load,
  no_op,
}
use silent_tanks.Match.Types.{Match, Result, ok, err, ◌>>=◌, in_range, ApplyResult}

abbrev pub invalid : ApplyResult
invalid = record { valid_move = false; op_status = false }

abbrev pub valid : Bool → ApplyResult
valid op_status = record { valid_move = true; op_status = op_status }

-- The tank does not exist.
abbrev pub no_such_tank : GameInstance → Command → Bool
no_such_tank g cmd = leb (g.num_players * g.num_tanks) cmd.tank_id

-- The tank is dead, or not the sender's.
abbrev pub not_commanded : Tank → Command → Bool
not_commanded t cmd = (t.health == 0) || (t.owner != cmd.sender)

abbrev pub is_setup : GameState → Bool
is_setup setup = true
is_setup _ = false

abbrev pub is_place : CommandType → Bool
is_place place = true
is_place _ = false

-- What a case returns: the result and the new game.
abbrev pub Applied : Type 0
Applied = Result (ApplyResult × GameInstance)

unfoldable pub apply_move : GameInstance → Command → Applied
apply_move g cmd =
    if no_such_tank g cmd
    then ok (invalid, g)
    else in_range (get_tank g cmd.tank_id) >>= λ this_tank.
        if not_commanded this_tank cmd
        then ok (invalid, g)
        else in_range (move_tank g cmd.tank_id (cmd.payload_first != 0)) >>= λ (status, h).
            ok (valid status, h)

unfoldable pub apply_rotate_tank : GameInstance → Command → Applied
apply_rotate_tank g cmd =
    if no_such_tank g cmd
    then ok (invalid, g)
    else in_range (get_tank g cmd.tank_id) >>= λ this_tank.
        if not_commanded this_tank cmd
        then ok (invalid, g)
        else in_range (rotate_tank g cmd.tank_id cmd.payload_first) >>= λ h. ok (valid true, h)

unfoldable pub apply_rotate_barrel : GameInstance → Command → Applied
apply_rotate_barrel g cmd =
    if no_such_tank g cmd
    then ok (invalid, g)
    else in_range (get_tank g cmd.tank_id) >>= λ this_tank.
        if not_commanded this_tank cmd
        then ok (invalid, g)
        else in_range (rotate_tank_barrel g cmd.tank_id cmd.payload_first) >>= λ h.
            ok (valid true, h)

unfoldable pub apply_fire : GameInstance → Command → Applied
apply_fire g cmd =
    if no_such_tank g cmd
    then ok (invalid, g)
    else in_range (get_tank g cmd.tank_id) >>= λ this_tank.
        if not_commanded this_tank cmd
        then ok (invalid, g)
        else if not this_tank.loaded
        then ok (invalid, g)
        else in_range (fire_tank g cmd.tank_id) >>= λ (status, h). ok (valid status, h)

unfoldable pub apply_load : GameInstance → Command → Applied
apply_load g cmd =
    if no_such_tank g cmd
    then ok (invalid, g)
    else in_range (get_tank g cmd.tank_id) >>= λ this_tank.
        if this_tank.loaded || not_commanded this_tank cmd
        then ok (invalid, g)
        else in_range (load_tank g cmd.tank_id) >>= λ h. ok (valid false, h)

unfoldable pub apply_place : GameState → GameInstance → Command → Applied
apply_place state g cmd =
    let pos = vec2 cmd.payload_first cmd.payload_second in
    if not (is_setup state)
    then ok (invalid, g)
    else if beyond pos.x g.game_env.width || beyond pos.y g.game_env.height
    then ok (invalid, g)
    else in_range (check_placement g pos cmd.sender) >>= λ permitted.
        if not permitted
        then ok (invalid, g)
        else if leb 8 cmd.tank_id
        then ok (invalid, g)
        else in_range (place_tank g pos cmd.sender cmd.tank_id) >>= λ h. ok (valid false, h)

unfoldable pub apply_case : GameState → GameInstance → Command → CommandType → Applied
unfolding apply_move apply_rotate_tank apply_rotate_barrel apply_fire apply_load apply_place
apply_case state g cmd move = apply_move g cmd
apply_case state g cmd rotate_tank_command = apply_rotate_tank g cmd
apply_case state g cmd rotate_barrel = apply_rotate_barrel g cmd
apply_case state g cmd fire = apply_fire g cmd
apply_case state g cmd load = apply_load g cmd
apply_case state g cmd place = apply_place state g cmd
apply_case state g cmd no_op = ok (invalid, g)

-- A valid placement is counted.
abbrev pub count_placement : CommandType → ApplyResult → ℕ → ℕ
count_placement type res n = if is_place type then (if res.valid_move then add8 n 1 else n) else n

unfoldable pub apply_command : Match → Command → Result (ApplyResult × Match)
apply_command m cmd =
    if is_setup m.current_state && not (is_place cmd.command_type)
    then ok (invalid, m)
    else apply_case m.current_state m.game cmd cmd.command_type >>= λ (res, h). ok (
      res,
      record m { game = h; tanks_placed = count_placement cmd.command_type res m.tanks_placed },
    )
