-- ===== src/Game/Move/Occupancy.antt =====
-- `GameInstance::move_tank` (src/libgame/game-instance.cpp) on a sound instance.
use silent_tanks.Base.{
  ℕ, ◌+◌, ◌<◌, ◌%◌, Bool, true, false, ◌==◌, if◌then◌else◌, Option, some, ◌>>=◌, ◌≡◌, refl, arith,
  ◌∙◌, ap, subst,
}
use silent_tanks.Game.Types.{Vec2, FlatArray, GridCell, Tank, GameInstance, no_occupant}
use silent_tanks.Game.Grid.{get_tank}
use silent_tanks.Game.Grid.Board.{
  Inside, IsSized, occupant_at, terrain_at, Seats, same, same→≡, set_occupant-Seats,
}
use silent_tanks.Game.Occupancy.{
  Lives, IsSound, Puts, Seats-get_tank, put_tank-Puts, Puts-IsSized, Seats-IsSized,
  Puts-occupant_at, reseat-IsSound, Lives-id,
}
use silent_tanks.Game.Move.{Decision, finish_move, move_tank}
use silent_tanks.Game.Move.Legal.{IsLegal, Verdict, moves, stays, decide_move-Verdict}

-- `h` is `g` with the tank `id` moved from `p` to `q`: its cells are exchanged, the tank differs in
-- its position alone, and nothing else changes.
pub record Relocates (g : GameInstance) (id : ℕ) (t : Tank) (q : Vec2) (h : GameInstance)
    : Type 0 where
  pub tank :
      (j : ℕ) → get_tank h j ≡ (if id == j then some (record t { pos = q }) else get_tank g j)
  pub occupants :
      (r : Vec2)
      → Inside g r
      → occupant_at h r
        ≡ (if same q r then id else if same t.pos r then no_occupant else occupant_at g r)
  pub terrains : (r : Vec2) → Inside g r → terrain_at h r ≡ terrain_at g r
  pub width : h.game_env.width ≡ g.game_env.width
  pub height : h.game_env.height ≡ g.game_env.height
  pub players : h.players ≡ g.players
  pub mask : h.placement_mask ≡ g.placement_mask
  pub num_players : h.num_players ≡ g.num_players
  pub num_tanks : h.num_tanks ≡ g.num_tanks
  pub sized : IsSized h

Relocates-chain :
    {g g1 g2 g3 : GameInstance} (id : ℕ) (t : Tank) (q : Vec2)
    → IsSized g
    → Puts g id (record t { pos = q }) g1
    → Seats g1 t.pos no_occupant g2
    → Seats g2 q id g3
    → Relocates g id t q g3
Relocates-chain {g} {g1} {g2} id t q sized p1 p2 p3 = record {
  tank = λ j. Seats-get_tank p3 j ∙ Seats-get_tank p2 j ∙ p1.tank j;
  occupants = λ r ir.
      let i1 : Inside g1 r = rw p1.env ir in
      let i2 : Inside g2 r = ground (arith, p2.width, p2.height) in
      ground (arith, p3.occupants r i2, p2.occupants r i1, (Puts-occupant_at p1 r).0);
  terrains = λ r ir.
      let i1 : Inside g1 r = rw p1.env ir in
      let i2 : Inside g2 r = ground (arith, p2.width, p2.height) in
      p3.terrains r i2 ∙ p2.terrains r i1 ∙ (Puts-occupant_at p1 r).1;
  width = p3.width ∙ p2.width ∙ ap (λ (e : FlatArray GridCell). e.width) p1.env;
  height = p3.height ∙ p2.height ∙ ap (λ (e : FlatArray GridCell). e.height) p1.env;
  players = p3.players ∙ p2.players ∙ p1.players;
  mask = p3.mask ∙ p2.mask ∙ p1.mask;
  num_players = p3.num_players ∙ p2.num_players ∙ p1.num_players;
  num_tanks = p3.num_tanks ∙ p2.num_tanks ∙ p1.num_tanks;
  sized = Seats-IsSized p3 (Seats-IsSized p2 (Puts-IsSized p1 sized));
}

-- The updates after an accepted move do not fault.
finish_move-Relocates :
    (g : GameInstance) (id : ℕ) (t : Tank)
    → IsSized g
    → get_tank g id ≡ some t
    → Inside g t.pos
    → (q : Vec2) → Inside g q
    → (h : GameInstance) × (finish_move g id t (some q) ≡ some (true, h)) × Relocates g id t q h
unfolding finish_move
finish_move-Relocates g id t sized stored from q to =
    let (g1, e1, p1) = put_tank-Puts g id t (record t { pos = q }) stored in
    let (g2, e2, p2) =
      set_occupant-Seats g1 (Puts-IsSized p1 sized) t.pos (rw p1.env from) no_occupant in
    let (g3, e3, p3) =
      set_occupant-Seats g2 (Seats-IsSized p2 (Puts-IsSized p1 sized)) q (at_g2 p1.env p2) id in
    (g3, rw (e1, e2, e3), Relocates-chain id t q sized p1 p2 p3)
  where
    at_g2 :
        {g1 g2 : GameInstance} {p : Vec2}
        → g1.game_env ≡ g.game_env
        → Seats g1 p no_occupant g2
        → Inside g2 q
    at_g2 e s = ground (arith, to, s.width, s.height)

-- A legal relocation of a living tank keeps the instance sound.
Relocates-IsSound :
    {g h : GameInstance} (id : ℕ) (t : Tank) (q : Vec2) (dir : ℕ)
    → IsSound g
    → get_tank g id ≡ some t
    → 0 < t.health
    → IsLegal g t.pos dir q
    → Relocates g id t q h
    → IsSound h
Relocates-IsSound {g} {h} id t q dir sound stored alive legal r =
    reseat-IsSound id (record t { pos = q }) sound r.sized r.tank (same t.pos) (same q) r.occupants
      r.terrains r.width r.height
      (λ p ip far gone here.
        let l : Lives g id p =
          subst (λ o. Lives g o p) here
            (sound.manned p ip (λ e. ground (arith, Lives-id sound.sized mine))) in
        ground (arith, l.stored, l.place))
      (λ p ip either.
        ground (arith, same→≡ q p, same→≡ t.pos p, legal.free, (sound.seated id t.pos mine).1))
      (λ _. (legal.inside, ground arith))
      (λ p taken. (alive, same→≡ q p taken, ground (arith, same→≡ q p, legal.passable)))
  where
    mine : Lives g id t.pos
    mine = record { tank = t; stored = stored; alive = alive; place = refl }

-- What `move_tank` does to a living tank of a sound instance: it moves it to the legal position, or
-- returns false with nothing changed if there is none. It never faults.
pub data Moves (g : GameInstance) (id : ℕ) (t : Tank) (dir : ℕ) (r : Option (Bool × GameInstance))
    : Type 0 where
  moved :
      (q : Vec2) (h : GameInstance)
      → IsLegal g t.pos dir q
      → r ≡ some (true, h)
      → Relocates g id t q h
      → IsSound h
      → Moves g id t dir r
  blocked : ((q : Vec2) → ¬ IsLegal g t.pos dir q) → r ≡ some (false, g) → Moves g id t dir r

finish_move-Moves :
    (g : GameInstance) (id : ℕ) (t : Tank) (dir : ℕ) (o : Option Decision)
    → IsSound g
    → get_tank g id ≡ some t
    → 0 < t.health
    → Inside g t.pos
    → Verdict g t.pos dir o
    → Moves g id t dir (o >>= finish_move g id t)
unfolding finish_move
finish_move-Moves g id t dir o sound stored alive at (moves q legal e) =
    let (h, e', r) = finish_move-Relocates g id t sound.sized stored at q legal.inside in
    moved q h legal (rw e e') r (Relocates-IsSound id t q dir sound stored alive legal r)
finish_move-Moves g id t dir o sound stored alive at (stays none_legal e) =
    blocked none_legal (rw e)

-- On a sound instance, `move_tank` of a living tank with a direction of the compass, forwards or in
-- reverse, moves it exactly when the next position is legal, and the instance stays sound.
pub move_tank-Moves :
    (g : GameInstance) (id : ℕ) (t : Tank) (reverse : Bool)
    → IsSound g
    → get_tank g id ≡ some t
    → 0 < t.health
    → t.current_direction < 8
    → Moves g id t
        (if reverse then (t.current_direction + 4) % 8 else t.current_direction)
        (move_tank g id reverse)
unfolding move_tank
move_tank-Moves g id t reverse sound stored alive headed =
    let at : Inside g t.pos =
      (sound.seated id t.pos
        (record { tank = t; stored = stored; alive = alive; place = refl })).0 in
    rw stored (
      finish_move-Moves g id t _ _ sound stored alive at
        (decide_move-Verdict g sound.sized t.pos at _ (ground arith)))
