-- ===== src/Protocol/Parse/Views.antt =====
-- `Message::to_player_view` of src/protocol/message.cpp.
use silent_tanks.Base.{◌*◌, Bool, ltb, ◌!=◌, if◌then◌else◌, Option, some, none, length, ◌>>=◌}
use silent_tanks.Game.Types.{vec2, Tank}
use silent_tanks.Protocol.Bytes.{Bytes, next_byte, next_net, next_many}
use silent_tanks.Protocol.Structs.{CellBytes, PlayerView}

unfoldable pub next_cell : Bytes → Option (CellBytes × Bytes)
unfolding next_byte
next_cell rest = do
  (type_byte, r1) ← next_byte rest
  (occupant, r2) ← next_byte r1
  (visible, r3) ← next_byte r2
  some (record { type_byte = type_byte; occupant = occupant; visible = visible != 0 }, r3)

unfoldable pub next_tank : Bytes → Option (Tank × Bytes)
unfolding next_byte
next_tank rest = do
  (x, r1) ← next_byte rest
  (y, r2) ← next_byte r1
  (current_direction, r3) ← next_byte r2
  (barrel_direction, r4) ← next_byte r3
  (id, r5) ← next_byte r4
  (health, r6) ← next_byte r5
  (aim_focused, r7) ← next_byte r6
  (loaded, r8) ← next_byte r7
  (owner, r9) ← next_byte r8
  some (
    record {
      pos = vec2 x y;
      current_direction = current_direction;
      barrel_direction = barrel_direction;
      id = id;
      health = health;
      aim_focused = aim_focused != 0;
      loaded = loaded != 0;
      owner = owner;
    },
    r9,
  )

-- The cells of the map come in the order of the array. Bytes after the last timer are ignored.
unfoldable pub to_player_view : Bool → Bytes → Option PlayerView
unfolding next_byte next_many next_cell next_tank next_net
to_player_view little payload = do
  (n_tanks, r1) ← next_byte payload
  (current_player, r2) ← next_byte r1
  (width, r3) ← next_byte r2
  (height, r4) ← next_byte r3
  (current_fuel, r5) ← next_byte r4
  (current_state, r6) ← next_byte r5
  (n_timers, r7) ← next_byte r6
  if ltb (length r7) (width * height * 3) then none else (do
    (cells, r8) ← next_many next_cell (width * height) r7
    if ltb (length r8) (n_tanks * 9) then none else (do
      (tanks, r9) ← next_many next_tank n_tanks r8
      if ltb (length r9) (n_timers * 8) then none else (do
        (timers, _) ← next_many (next_net little 8) n_timers r9
        some (record {
          map_view = record { width = width; height = height; array = cells };
          visible_tanks = tanks;
          timers = timers;
          current_player = current_player;
          current_fuel = current_fuel;
          current_state = current_state;
        }))))
