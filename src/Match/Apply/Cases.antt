-- ===== src/Match/Apply/Cases.antt =====
-- The cases of `MatchInstance::apply_command` (src/server/match-instance.cpp) for one tank, on a
-- sound game.
use silent_tanks.Game.Fire.Occupancy.{Fires, fire_tank-Fires, misses, spares, damages}
use silent_tanks.Game.Fire.{load_tank}
use silent_tanks.Game.Move.{rotate_tank, rotate_tank_barrel}
use silent_tanks.Game.Tank.{
  turn_clockwise, turn_counter_clockwise, barrel_clockwise, barrel_counter_clockwise,
}
use silent_tanks.Base.{
  ℕ, ◌<◌, ◌≡◌, Bool, true, false, Option, some, refl, arith, Bool-cases, inl, inr, if◌then◌else◌,
  get_elem?-lt, ◌-◌, ◌==◌, ◌||◌, ◌!=◌,
}
use silent_tanks.Game.Types.{Tank, GameInstance}
use silent_tanks.Game.Grid.{get_tank}
use silent_tanks.Game.Grid.Board.{occupant_at}
use silent_tanks.Game.Occupancy.{IsSound, Puts, put_tank-Puts, Puts-IsSound}
use silent_tanks.Game.Roster.{
  IsRostered, Keeps, Keeps-IsRostered, replace-Keeps, Serves, Keeps-refl, Keeps-trans,
}
use silent_tanks.Game.Move.Occupancy.{Moves, moved, blocked, move_tank-Moves}
use silent_tanks.Protocol.Command.{Command}
use silent_tanks.Match.Types.{ok, ApplyResult, ◌>>=◌, in_range}
use silent_tanks.Match.Apply.{
  Applied, apply_move, apply_rotate_tank, apply_rotate_barrel, apply_fire, apply_load, no_such_tank,
  not_commanded, invalid, valid, rotate_tank, in_range,
}

-- A case returns, with a game that is in order, and the same if the command was refused.
pub record Applies (g : GameInstance) (r : Applied) : Type 0 where
  pub res : ApplyResult
  pub game : GameInstance
  pub returns : r ≡ ok (res, game)
  pub sound : IsSound game
  pub rostered : IsRostered game
  pub refused : res.valid_move ≡ false → game ≡ g
  pub num_tanks : game.num_tanks ≡ g.num_tanks

module _ (g : GameInstance) (sound : IsSound g) (rostered : IsRostered g) where
  pub refuse : Applies g (ok (invalid, g))
  refuse = record {
    res = invalid;
    game = g;
    returns = refl;
    sound = sound;
    rostered = rostered;
    refused = λ _. refl;
    num_tanks = refl;
  }

  accept :
      (status : Bool) (h : GameInstance) → IsSound h → Keeps g h → Applies g (ok (valid status, h))
  accept status h s k = record {
    res = valid status;
    game = h;
    returns = refl;
    sound = s;
    rostered = Keeps-IsRostered k rostered;
    refused = λ e. cc;
    num_tanks = k.num_tanks;
  }

  -- A case that changes one tank in place.
  adjust :
      (id : ℕ) (t u : Tank) (h : GameInstance) (status : Bool)
      → get_tank g id ≡ some t
      → u.pos ≡ t.pos
      → u.health ≡ t.health
      → Serves t u
      → Puts g id u h
      → Applies g (ok (valid status, h))
  adjust id t u h status stored here life v p =
      accept status h (Puts-IsSound id t u sound stored here (ground arith) p)
        (replace-Keeps id t u p.players p.num_tanks p.num_players stored v p.tank)

  -- The guards that the cases for one tank share.
  guarded :
      (cmd : Command) (after : Tank → Applied)
      → ((t : Tank) → get_tank g cmd.tank_id ≡ some t → Applies g (after t))
      → Applies g (
          if no_such_tank g cmd
          then ok (invalid, g)
          else in_range (get_tank g cmd.tank_id) >>= after)
  unfolding get_tank
  guarded cmd after each = elim (Bool-cases (no_such_tank g cmd)) [
    | inl off ↦ rw off refuse
    | inr on ↦
        let (t, e) = get_elem?-lt g.tanks cmd.tank_id (ground (arith, sound.sized.tanks)) in
        rw (on, e) (each t e)
  ]

  owned :
      (cmd : Command) (t : Tank) (after : Applied)
      → (0 < t.health → Applies g after)
      → Applies g (if not_commanded t cmd then ok (invalid, g) else after)
  owned cmd t after each = elim (Bool-cases (not_commanded t cmd)) [
    | inl refusal ↦ rw refusal refuse
    | inr fine ↦ rw fine (each (ground arith))
  ]

  pub apply_rotate_tank-Applies : (cmd : Command) → Applies g (apply_rotate_tank g cmd)
  unfolding apply_rotate_tank rotate_tank turn_clockwise turn_counter_clockwise
  apply_rotate_tank-Applies cmd = guarded cmd _ λ t e. owned cmd t _ λ alive.
      let u : Tank =
        if cmd.payload_first == 0 then turn_clockwise t else turn_counter_clockwise t in
      let (h, e', p) = put_tank-Puts g cmd.tank_id t u e in
      rw (e, e')
        (adjust cmd.tank_id t u h true e (ground arith) (ground arith)
          (record { owner = ground arith; dead = λ d. ground arith; headed = λ c. ground arith }) p)

  pub apply_rotate_barrel-Applies : (cmd : Command) → Applies g (apply_rotate_barrel g cmd)
  unfolding apply_rotate_barrel rotate_tank_barrel barrel_clockwise barrel_counter_clockwise
  apply_rotate_barrel-Applies cmd = guarded cmd _ λ t e. owned cmd t _ λ alive.
      let u : Tank =
        if cmd.payload_first == 0 then barrel_clockwise t else barrel_counter_clockwise t in
      let (h, e', p) = put_tank-Puts g cmd.tank_id t u e in
      rw (e, e')
        (adjust cmd.tank_id t u h true e (ground arith) (ground arith)
          (record { owner = ground arith; dead = λ d. ground arith; headed = λ c. ground arith }) p)

  pub apply_load-Applies : (cmd : Command) → Applies g (apply_load g cmd)
  unfolding apply_load load_tank
  apply_load-Applies cmd = guarded cmd _ λ t e.
      elim (Bool-cases (t.loaded || not_commanded t cmd)) [
        | inl refusal ↦ rw refusal refuse
        | inr fine ↦
            let u : Tank = record t { loaded = true } in
            let (h, e', p) = put_tank-Puts g cmd.tank_id t u e in
            rw (fine, e, e')
              (adjust cmd.tank_id t u h false e refl refl
                (record { owner = refl; dead = λ d. d; headed = λ c. c }) p)
      ]

  Moves-Applies :
      (id : ℕ) (t : Tank) (dir : ℕ) (r : Option (Bool × GameInstance))
      → get_tank g id ≡ some t
      → Moves g id t dir r
      → Applies g (in_range r >>= λ (status, h). ok (valid status, h))
  Moves-Applies id t dir r e (moved q h legal returns w s) = rw returns (
      accept true h s (
        replace-Keeps id t (record t { pos = q }) w.players w.num_tanks w.num_players e
          (record { owner = refl; dead = λ d. d; headed = λ c. c }) w.tank))
  Moves-Applies id t dir r e (blocked none_legal returns) =
      rw returns (accept false g sound (Keeps-refl g))

  pub apply_move-Applies : (cmd : Command) → Applies g (apply_move g cmd)
  unfolding apply_move
  apply_move-Applies cmd = guarded cmd _ λ t e. owned cmd t _ λ alive.
      Moves-Applies cmd.tank_id t _ _ e (
        move_tank-Moves g cmd.tank_id t (cmd.payload_first != 0) sound e alive
          (rostered.headed cmd.tank_id t e).0)

  unload-Keeps :
      (id : ℕ) (t : Tank) (u : GameInstance)
      → get_tank g id ≡ some t
      → Puts g id (record t { loaded = false }) u
      → Keeps g u
  unload-Keeps id t u e p =
      replace-Keeps id t (record t { loaded = false }) p.players p.num_tanks p.num_players e
        (record { owner = refl; dead = λ d. d; headed = λ c. c }) p.tank

  Fires-Applies :
      (id : ℕ) (t : Tank) (r : Option (Bool × GameInstance))
      → get_tank g id ≡ some t
      → Fires g id t r
      → Applies g (in_range r >>= λ (status, h). ok (valid status, h))
  Fires-Applies id t r e (misses u none_shot p s returns) =
      rw returns (accept false u s (unload-Keeps id t u e p))
  Fires-Applies id t r e (spares u q friend shot stored same p s returns) =
      rw returns (accept false u s (unload-Keeps id t u e p))
  Fires-Applies id t r e (damages u h q foe shot stored here other p d s returns) = rw returns (
      accept true h s (
        Keeps-trans (unload-Keeps id t u e p) (
          replace-Keeps (occupant_at g q) foe (record foe { health = foe.health - 1 }) d.players
            d.num_tanks d.num_players stored
            (record { owner = refl; dead = λ x. omega arith; headed = λ c. c }) d.tank)))

  pub apply_fire-Applies : (cmd : Command) → Applies g (apply_fire g cmd)
  unfolding apply_fire
  apply_fire-Applies cmd = guarded cmd _ λ t e. owned cmd t _ λ alive. elim (Bool-cases t.loaded) [
    | inl ready ↦ rw ready (
        Fires-Applies cmd.tank_id t _ e
          (fire_tank-Fires g cmd.tank_id t sound e alive (rostered.headed cmd.tank_id t e).1))
    | inr empty ↦ rw empty refuse
  ]
