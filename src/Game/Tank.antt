-- ===== src/Game/Tank.antt =====
-- Turning, damage and repair of one tank: src/libgame/tank-entity.h and tank-entity.cpp.
use silent_tanks.Base.{ℕ, ◌+◌, ◌-◌, ◌%◌, ltb, if◌then◌else◌, true, false}
use silent_tanks.Game.Types.{Tank, vec2, no_pos_vec, no_owner, initial_health}

-- The default constructor leaves `id_` unset: its value is an argument.
unfoldable pub empty_tank : ℕ → Tank
empty_tank unset = record {
  pos = no_pos_vec;
  current_direction = 0;
  barrel_direction = 0;
  id = unset;
  health = 0;
  aim_focused = false;
  loaded = false;
  owner = no_owner;
}

unfoldable pub new_tank : ℕ → ℕ → ℕ → ℕ → ℕ → Tank
new_tank x_start y_start start_dir owner unset = record {
  pos = vec2 x_start y_start;
  current_direction = start_dir;
  barrel_direction = start_dir;
  id = unset;
  health = initial_health;
  aim_focused = false;
  loaded = true;
  owner = owner;
}

unfoldable pub turn_clockwise : Tank → Tank
turn_clockwise t = record t { current_direction = (t.current_direction + 1) % 8 }

unfoldable pub barrel_clockwise : Tank → Tank
barrel_clockwise t = record t { barrel_direction = (t.barrel_direction + 1) % 8 }

unfoldable pub turn_counter_clockwise : Tank → Tank
turn_counter_clockwise t = record t { current_direction = (t.current_direction + 7) % 8 }

unfoldable pub barrel_counter_clockwise : Tank → Tank
barrel_counter_clockwise t = record t { barrel_direction = (t.barrel_direction + 7) % 8 }

unfoldable pub deal_damage : Tank → ℕ → Tank
deal_damage t damage =
    if ltb t.health damage then record t { health = 0 } else record t { health = t.health - damage }

-- The sum is an `int`; the assignment in the other branch would be to a `uint8_t`.
unfoldable pub repair : Tank → ℕ → Tank
repair t repair_amount =
    if ltb t.health (t.health + repair_amount)
    then record t { health = initial_health }
    else record t { health = (t.health + repair_amount) % 256 }
