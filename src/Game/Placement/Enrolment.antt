-- ===== src/Game/Placement/Enrolment.antt =====
-- `GameInstance::place_tank` (src/libgame/game-instance.cpp) on a sound instance.
use silent_tanks.Base.{
  ℕ, ◌+◌, ◌*◌, ◌<◌, ◌≡◌, some, length, refl, arith, ◌∙◌, set, lt-get_elem?, lt→ltb, length-set,
  get_elem?-set, if◌then◌else◌, ◌==◌, false, ◌%◌, add8,
}
use silent_tanks.Game.Types.{Vec2, Tank, Player, GameInstance}
use silent_tanks.Game.Grid.{get_tank, get_player, put_player, cell_at, is_terrain}
use silent_tanks.Game.Grid.Board.{
  Inside, IsSized, occupant_at, terrain_at, Seats, put_cell-Seats, cell_at-Inside, same,
}
use silent_tanks.Game.Occupancy.{
  IsSound, Puts, put_tank-Puts, Puts-IsSized, Seats-IsSized, Seats-get_tank, Puts-occupant_at,
  get_tank-lt,
}
use silent_tanks.Game.Roster.{Enlisted, IsRostered}
use silent_tanks.Game.Placement.{place_tank, placed_tank}

-- `h` is `g` with tank `id` of player `k` placed at `q`.
pub record Enrols (g : GameInstance) (k id : ℕ) (q : Vec2) (dir : ℕ) (h : GameInstance)
    : Type 0 where
  pub before : Tank
  pub was : get_tank g id ≡ some before
  pub tank :
      (j : ℕ)
      → get_tank h j ≡ (if id == j then some (placed_tank before q k 3 id dir) else get_tank g j)
  pub occupants :
      (r : Vec2) → Inside g r → occupant_at h r ≡ (if same q r then id else occupant_at g r)
  pub terrains : (r : Vec2) → Inside g r → terrain_at h r ≡ terrain_at g r
  pub width : h.game_env.width ≡ g.game_env.width
  pub height : h.game_env.height ≡ g.game_env.height
  pub mask : h.placement_mask ≡ g.placement_mask
  pub num_players : h.num_players ≡ g.num_players
  pub num_tanks : h.num_tanks ≡ g.num_tanks
  pub player : Player
  pub had : get_player g k ≡ some player
  pub players :
      (j : ℕ)
      → get_player h j ≡ (
          if k == j
          then some (record player {
            tanks_placed = player.tanks_placed + 1;
            owned_tank_ids = set player.owned_tank_ids player.tanks_placed id;
          })
          else get_player g j)
  pub sized : IsSized h

-- `h` is `g` with the player `k` replaced.
pub record Enters (g : GameInstance) (k : ℕ) (p : Player) (h : GameInstance) : Type 0 where
  pub env : h.game_env ≡ g.game_env
  pub tanks : h.tanks ≡ g.tanks
  pub mask : h.placement_mask ≡ g.placement_mask
  pub num_players : h.num_players ≡ g.num_players
  pub num_tanks : h.num_tanks ≡ g.num_tanks
  pub count : length h.players ≡ length g.players
  pub players : (j : ℕ) → get_player h j ≡ (if k == j then some p else get_player g j)

pub put_player-Enters :
    (g : GameInstance) (k : ℕ) (old p : Player)
    → get_player g k ≡ some old
    → (h : GameInstance) × (put_player g k p ≡ some h) × Enters g k p h
unfolding get_player put_player
put_player-Enters g k old p e =
    let lt : k < length g.players = lt-get_elem? g.players k old e in
    (
      record g { players = set g.players k p },
      rw (lt→ltb _ _ lt),
      record {
        env = refl;
        tanks = refl;
        mask = refl;
        num_players = refl;
        num_tanks = refl;
        count = length-set g.players k p;
        players = λ j. get_elem?-set g.players k j p lt;
      },
    )

pub Enters-IsSized :
    {g h : GameInstance} {k : ℕ} {p : Player} → Enters g k p h → IsSized g → IsSized h
Enters-IsSized e s = ground arith

pub Enters-board :
    {g h : GameInstance} {k : ℕ} {p : Player}
    → Enters g k p h
    → ((j : ℕ) → get_tank h j ≡ get_tank g j)
      × ((q : Vec2) → occupant_at h q ≡ occupant_at g q)
      × ((q : Vec2) → terrain_at h q ≡ terrain_at g q)
unfolding get_tank occupant_at terrain_at cell_at
Enters-board e = (λ j. rw e.tanks, λ q. rw e.env, λ q. rw e.env)

pub same_cell :
    (h g : GameInstance) (q : Vec2) → h.game_env ≡ g.game_env → cell_at h q ≡ cell_at g q
unfolding cell_at
same_cell h g q e = rw e

pub same_players :
    (h g : GameInstance) (j : ℕ) → h.players ≡ g.players → get_player h j ≡ get_player g j
unfolding get_player
same_players h g j e = rw e

Enrols-chain :
    {g g1 g2 h : GameInstance} (k id : ℕ) (q : Vec2) (dir : ℕ) (t : Tank) (p : Player)
    → IsSized g
    → get_tank g id ≡ some t
    → get_player g k ≡ some p
    → Puts g id (placed_tank t q k 3 id dir) g1
    → Seats g1 q id g2
    → Enters g2 k
        (record p {
          tanks_placed = p.tanks_placed + 1;
          owned_tank_ids = set p.owned_tank_ids p.tanks_placed id;
        })
        h
    → Enrols g k id q dir h
unfolding get_player
Enrols-chain {g} {g1} {g2} {h} k id q dir t p sized was had e1 e2 e3 = record {
  before = t;
  was = was;
  tank = λ j. (Enters-board e3).0 j ∙ Seats-get_tank e2 j ∙ e1.tank j;
  occupants = λ r ir.
      let i1 : Inside g1 r = rw e1.env ir in
      ground (arith, (Enters-board e3).1 r, e2.occupants r i1, (Puts-occupant_at e1 r).0);
  terrains = λ r ir.
      let i1 : Inside g1 r = rw e1.env ir in
      (Enters-board e3).2 r ∙ e2.terrains r i1 ∙ (Puts-occupant_at e1 r).1;
  width = ground (arith, e1.env, e2.width, e3.env);
  height = ground (arith, e1.env, e2.height, e3.env);
  mask = e3.mask ∙ e2.mask ∙ e1.mask;
  num_players = e3.num_players ∙ e2.num_players ∙ e1.num_players;
  num_tanks = e3.num_tanks ∙ e2.num_tanks ∙ e1.num_tanks;
  player = p;
  had = had;
  players = λ j. ground (arith, e3.players j, same_players g2 g j (e2.players ∙ e1.players));
  sized = Enters-IsSized e3 (Seats-IsSized e2 (Puts-IsSized e1 sized));
}

-- The number of the next tank of a player fits a `uint8_t`.
pub next_id :
    (g : GameInstance) (k : ℕ) (p : Player)
    → IsSound g
    → Enlisted g g.num_tanks k p
    → p.tanks_placed < g.num_tanks
    → (p.tanks_placed + k * g.num_tanks) % 256 ≡ p.tanks_placed + k * g.num_tanks
next_id g k p sound e room =
    let (t, stored, _) = e.spare p.tanks_placed (omega arith) room in
    omega (arith, get_tank-lt g _ t stored, sound.sized.ids)

module _ (g : GameInstance) (pos : Vec2) (k dir : ℕ) (p : Player) (sound : IsSound g)
    (rostered : IsRostered g) (had : get_player g k ≡ some p) (room : p.tanks_placed < g.num_tanks)
    (inside : Inside g pos) (low : terrain_at g pos ≡ false) where
  abbrev pub id : ℕ
  id = p.tanks_placed + k * g.num_tanks

  pub place_tank-Enrols :
      (h : GameInstance) × (place_tank g pos k dir ≡ some h) × Enrols g k id pos dir h
  unfolding place_tank terrain_at
  place_tank-Enrols =
      let e = rostered.enlisted k p had in
      let (t, was, dead) = e.spare p.tanks_placed (omega arith) room in
      let (c, at) = cell_at-Inside g sound.sized pos inside in
      let flat_here : is_terrain c.cell_type ≡ false = rw at at low in
      let (g1, e1, p1) = put_tank-Puts g id t (placed_tank t pos k 3 id dir) was in
      let s1 = Puts-IsSized p1 sound.sized in
      let (g2, e2, p2) =
        put_cell-Seats g1 s1 pos (rw p1.env inside) c id (same_cell g1 g pos p1.env ∙ at) in
      let (h, e3, p3) =
        put_player-Enters g2 k p
          (record p {
            tanks_placed = p.tanks_placed + 1;
            owned_tank_ids = set p.owned_tank_ids p.tanks_placed id;
          })
          (same_players g2 g k (p2.players ∙ p1.players) ∙ had) in
      let count : add8 p.tanks_placed 1 ≡ p.tanks_placed + 1 =
        omega (arith, get_tank-lt g _ t was, sound.sized.ids) in
      (
        h,
        rw
            (
              at,
              had,
              next_id g k p sound e room,
              was,
              flat_here,
              e1,
              e2,
              lt→ltb p.tanks_placed (length p.owned_tank_ids) (omega (arith, e.slots)),
              count,
            )
            e3,
        Enrols-chain k id pos dir t p sound.sized was had p1 p2 p3,
      )
