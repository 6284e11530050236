-- ===== src/Match/Apply/Sound.antt =====
-- `MatchInstance::apply_command` (src/server/match-instance.cpp) on a sound game: no case of it
-- faults, and none breaks the game.
use silent_tanks.Game.Placement.Order.{place_tank_lem}
use silent_tanks.Game.Tank.{}
use silent_tanks.Base.{
  ℕ, ◌<◌, ◌≡◌, Bool, true, false, some, refl, arith, Bool-cases, inl, inr, if◌then◌else◌,
  get_elem?-lt, ◌==◌, ◌||◌, ◌&&◌, not, leb, get_elem?,
}
use silent_tanks.Game.Types.{Vec2, vec2, Player, GameInstance, GameState, no_occupant}
use silent_tanks.Game.Grid.{get_player, check_placement, beyond, idx, is_terrain}
use silent_tanks.Game.Grid.Board.{Inside, occupant_at, terrain_at, idx-lt, cell_at-Inside}
use silent_tanks.Game.Occupancy.{IsSound}
use silent_tanks.Game.Roster.{IsRostered}
use silent_tanks.Protocol.Command.{
  Command, CommandType, move, rotate_tank as rotate_tank_command, rotate_barrel, fire, load, place,
  no_op,
}
use silent_tanks.Match.Types.{Match, ok, ApplyResult}
use silent_tanks.Match.Apply.{
  apply_place, apply_case, apply_command, invalid, valid, is_setup, is_place, count_placement,
}
use silent_tanks.Match.Apply.Cases.{
  Applies, refuse, apply_rotate_tank-Applies, apply_rotate_barrel-Applies, apply_load-Applies,
  apply_move-Applies, apply_fire-Applies,
}

module _ (g : GameInstance) (sound : IsSound g) (rostered : IsRostered g) where
  -- A permitted placement is on a free cell of the player's area that is no mountain.
  check_placement_lem :
      (pos : Vec2) (k : ℕ)
      → Inside g pos
      → (b : Bool) × (check_placement g pos k ≡ some b)
        × (b ≡ true
            → (occupant_at g pos ≡ no_occupant)
              × (terrain_at g pos ≡ false)
              × (get_elem? g.placement_mask (idx g.game_env pos.x pos.y) ≡ some k))
  unfolding check_placement occupant_at terrain_at
  check_placement_lem pos k i =
      let (c, e) = cell_at-Inside g sound.sized pos i in
      let (o, e') = get_elem?-lt g.placement_mask (idx g.game_env pos.x pos.y) (
        omega (
          arith,
          sound.sized.mask,
          idx-lt g.game_env.width g.game_env.height pos.x pos.y i.0 i.1,
        )) in
      elim (Bool-cases (o == k)) [
        | inl mine ↦ (
          if is_terrain c.cell_type then false else c.occupant == no_occupant,
          rw (e', mine, e),
          λ fine. rw (e, e') (ground arith, ground arith, ground arith),
        )
        | inr other ↦ (false, rw (e', other), λ never. cc)
      ]

  apply_place-Applies :
      (state : GameState) (cmd : Command) (p : Player)
      → get_player g cmd.sender ≡ some p
      → (is_setup state ≡ true → p.tanks_placed < g.num_tanks)
      → Applies g (apply_place state g cmd)
  unfolding apply_place
  apply_place-Applies state cmd p had room =
      let pos = vec2 cmd.payload_first cmd.payload_second in
      elim (Bool-cases (is_setup state)) [
        | inr late ↦ rw late (refuse g sound rostered)
        | inl early ↦
            elim (Bool-cases (beyond pos.x g.game_env.width || beyond pos.y g.game_env.height)) [
              | inl off ↦ rw (early, off) (refuse g sound rostered)
              | inr on ↦
                  let inside : Inside g pos = (ground arith, ground arith) in
                  let (b, e, fine) = check_placement_lem pos cmd.sender inside in
                  elim (Bool-cases b) [
                    | inr forbidden ↦ rw (early, on, e, forbidden) (refuse g sound rostered)
                    | inl permitted ↦ elim (Bool-cases (leb 8 cmd.tank_id)) [
                      | inl wrong ↦ rw (early, on, e, permitted, wrong) (refuse g sound rostered)
                      | inr compass ↦
                          let (free, low, _) = fine permitted in
                          let (h, returns, changes, s, r) =
                            place_tank_lem g pos cmd.sender cmd.tank_id p sound rostered had
                              (room early) (ground arith) inside free low in
                          rw (early, on, e, permitted, compass, returns)
                            (record {
                              res = valid false;
                              game = h;
                              returns = refl;
                              sound = s;
                              rostered = r;
                              refused = λ x. cc;
                              num_tanks = changes.num_tanks;
                            })
                    ]
                  ]
            ]
      ]

  apply_case-Applies :
      (state : GameState) (cmd : Command) (type : CommandType) (p : Player)
      → get_player g cmd.sender ≡ some p
      → (is_setup state ≡ true → p.tanks_placed < g.num_tanks)
      → Applies g (apply_case state g cmd type)
  unfolding apply_case
  apply_case-Applies state cmd move p had room = apply_move-Applies g sound rostered cmd
  apply_case-Applies state cmd rotate_tank_command p had room =
      apply_rotate_tank-Applies g sound rostered cmd
  apply_case-Applies state cmd rotate_barrel p had room =
      apply_rotate_barrel-Applies g sound rostered cmd
  apply_case-Applies state cmd fire p had room = apply_fire-Applies g sound rostered cmd
  apply_case-Applies state cmd load p had room = apply_load-Applies g sound rostered cmd
  apply_case-Applies state cmd place p had room = apply_place-Applies state cmd p had room
  apply_case-Applies state cmd no_op p had room = refuse g sound rostered

-- For a match whose game is in order, and a sender who is a player with a tank left to place during
-- the setup, `apply_command` does not fault for any command; it keeps the game in order, and if it
-- reports an invalid move the match is unchanged.
pub apply_command-IsSound :
    (m : Match) (cmd : Command) (p : Player)
    → IsSound m.game
    → IsRostered m.game
    → get_player m.game cmd.sender ≡ some p
    → (is_setup m.current_state ≡ true → p.tanks_placed < m.game.num_tanks)
    → (res : ApplyResult) × (m' : Match) × (apply_command m cmd ≡ ok (res, m'))
      × IsSound m'.game
      × IsRostered m'.game
      × (res.valid_move ≡ false → m' ≡ m)
unfolding apply_command
apply_command-IsSound m cmd p sound rostered had room =
    elim (Bool-cases (is_setup m.current_state && not (is_place cmd.command_type))) [
      | inl early ↦ (invalid, m, rw early, sound, rostered, λ _. refl)
      | inr fine ↦
          let a =
            apply_case-Applies m.game sound rostered m.current_state cmd cmd.command_type p had
              room in
          (
            a.res,
            record m {
              game = a.game;
              tanks_placed = count_placement cmd.command_type a.res m.tanks_placed;
            },
            rw (fine, a.returns),
            a.sound,
            a.rostered,
            λ refusal. ground (arith, a.refused refusal),
          )
    ]
