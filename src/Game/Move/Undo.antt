-- ===== src/Game/Move/Undo.antt =====
-- A move and the move back: `GameInstance::move_tank` (src/libgame/game-instance.cpp) as the replay
-- of a match undoes it.
use silent_tanks.Base.{
  ℕ, ◌+◌, ◌<◌, ◌%◌, Bool, true, false, ◌&&◌, some, ◌≡◌, refl, arith, ◌∙◌, ap, sym, subst, some_inj,
}
use silent_tanks.Game.Types.{Vec2, vec2, Tank, GameInstance, no_occupant}
use silent_tanks.Game.Grid.{get_tank}
use silent_tanks.Game.Grid.Board.{Inside, occupant_at, terrain_at, same→≡}
use silent_tanks.Game.Occupancy.{Lives, IsSound, Lives-id}
use silent_tanks.Game.Move.{move_tank}
use silent_tanks.Game.Move.Legal.{IsLegal, dx, dy}
use silent_tanks.Game.Move.Occupancy.{Relocates, moved, blocked, move_tank-Moves}

-- Two instances with the same tanks, players and board.
pub record Same (g h : GameInstance) : Type 0 where
  pub tank : (j : ℕ) → get_tank h j ≡ get_tank g j
  pub occupants : (r : Vec2) → Inside g r → occupant_at h r ≡ occupant_at g r
  pub terrains : (r : Vec2) → Inside g r → terrain_at h r ≡ terrain_at g r
  pub width : h.game_env.width ≡ g.game_env.width
  pub height : h.game_env.height ≡ g.game_env.height
  pub players : h.players ≡ g.players
  pub mask : h.placement_mask ≡ g.placement_mask

abbrev back : ℕ → ℕ
back dir = (dir + 4) % 8

dx_back : (dir : ℕ) → dir < 8 → dx dir + dx (back dir) ≡ 2
dx_back dir h = ground arith

dy_back : (dir : ℕ) → dir < 8 → dy dir + dy (back dir) ≡ 2
dy_back dir h = ground arith

module _ (g h : GameInstance) (id : ℕ) (t : Tank) (q : Vec2) (sound : IsSound g)
    (stored : get_tank g id ≡ some t) (alive : 0 < t.health) (headed : t.current_direction < 8)
    (legal : IsLegal g t.pos t.current_direction q) (r : Relocates g id t q h) where
  mine : Lives g id t.pos
  mine = record { tank = t; stored = stored; alive = alive; place = refl }

  was_seated : Inside g t.pos × (occupant_at g t.pos ≡ id)
  was_seated = sound.seated id t.pos mine

  left_free : occupant_at h t.pos ≡ no_occupant
  left_free = ground (
    arith,
    r.occupants t.pos was_seated.0,
    was_seated.1,
    legal.free,
    same→≡ q t.pos,
    Lives-id sound.sized mine,
  )

  was_dry : terrain_at g t.pos ≡ false
  was_dry =
      sound.dry t.pos was_seated.0 (λ e. omega (arith, e, was_seated.1, Lives-id sound.sized mine))

  -- The way back is legal.
  back-IsLegal : IsLegal h q (back t.current_direction) t.pos
  back-IsLegal = record {
    column = omega (arith, legal.column, dx_back t.current_direction headed);
    row = omega (arith, legal.row, dy_back t.current_direction headed);
    inside = ground (arith, was_seated.0, r.width, r.height);
    free = left_free;
    passable = r.terrains t.pos was_seated.0 ∙ was_dry;
    open_corner = λ odd. corners (legal.open_corner (ground (arith, odd, headed)));
  }
    where
      corners :
          (terrain_at g (vec2 q.x t.pos.y) && terrain_at g (vec2 t.pos.x q.y)) ≡ false
          → (terrain_at h (vec2 t.pos.x q.y) && terrain_at h (vec2 q.x t.pos.y)) ≡ false
      corners e =
          let a = r.terrains (vec2 t.pos.x q.y) (was_seated.0.0, legal.inside.1) in
          let b = r.terrains (vec2 q.x t.pos.y) (legal.inside.0, was_seated.0.1) in
          ground (arith, a, b, e)

  returned-Same :
      (k : GameInstance) (p : Vec2)
      → IsLegal h q (back t.current_direction) p
      → Relocates h id (record t { pos = q }) p k
      → Same g k
  returned-Same k p legal' r' =
      back_home (subst (λ v. Relocates h id (record t { pos = q }) v k) (arrived p legal') r')
    where
      arrived : (p : Vec2) → IsLegal h q (back t.current_direction) p → p ≡ t.pos
      arrived p l =
          let x : p.x ≡ t.pos.x =
            omega (arith, legal.column, l.column, dx_back t.current_direction headed) in
          let y : p.y ≡ t.pos.y =
            omega (arith, legal.row, l.row, dy_back t.current_direction headed) in
          ground (arith, x, y)

      back_home : Relocates h id (record t { pos = q }) t.pos k → Same g k
      back_home b = record {
        tank = λ j. ground (arith, b.tank j, r.tank j, stored);
        occupants = λ s is. ground (
          arith,
          b.occupants s (ground (arith, is, r.width, r.height)),
          r.occupants s is,
          was_seated.1,
          legal.free,
          same→≡ t.pos s,
          same→≡ q s,
        );
        terrains = λ s is. b.terrains s (ground (arith, is, r.width, r.height)) ∙ r.terrains s is;
        width = b.width ∙ r.width;
        height = b.height ∙ r.height;
        players = b.players ∙ r.players;
        mask = b.mask ∙ r.mask;
      }

-- On a sound instance, if a living tank whose heading is a direction of the compass has moved
-- forwards, then the move in reverse succeeds, and restores the tanks, the players and the board.
pub move_tank-undo :
    (g h : GameInstance) (id : ℕ) (t : Tank)
    → IsSound g
    → get_tank g id ≡ some t
    → 0 < t.health
    → t.current_direction < 8
    → move_tank g id false ≡ some (true, h)
    → (k : GameInstance) × (move_tank h id true ≡ some (true, k)) × Same g k
move_tank-undo g h id t sound stored alive headed e =
    elim (move_tank-Moves g id t false sound stored alive headed) [
      | blocked never e' ↦ absurd (ground (arith, e, e'))
      | moved q h' legal e' r sound' ↦
          let same_instance : h' ≡ h =
            ap (λ (a : Bool × GameInstance). a.1) (some_inj (sym e' ∙ e)) in
          returns q (subst (λ i. Relocates g id t q i) same_instance r) legal
            (subst IsSound same_instance sound')
    ]
  where
    returns :
        (q : Vec2)
        → Relocates g id t q h
        → IsLegal g t.pos t.current_direction q
        → IsSound h
        → (k : GameInstance) × (move_tank h id true ≡ some (true, k)) × Same g k
    returns q r legal sound' =
        let u : Tank = record t { pos = q } in
        let su : get_tank h id ≡ some u = ground (arith, r.tank id) in
        elim (move_tank-Moves h id u true sound' su alive headed) [
          | blocked never e' ↦
              absurd (never t.pos (back-IsLegal g h id t q sound stored alive headed legal r))
          | moved p k legal' e' r' _ ↦
              (k, e', returned-Same g h id t q sound stored alive headed legal r k p legal' r')
        ]
