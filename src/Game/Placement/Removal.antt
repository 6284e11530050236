-- ===== src/Game/Placement/Removal.antt =====
-- A placement and its undoing: `place_tank` and `remove_tank` of src/libgame/game-instance.cpp.
use silent_tanks.Base.{
  ℕ, zero, suc, ◌+◌, ◌*◌, ◌<◌, ◌≡◌, some, List, [], ◌∷◌, length, refl, arith, ◌∙◌, set, lt→ltb,
  length-set, ◌==◌, false, ◌%◌, sub8, ap, sym, subst, some_inj,
}
use silent_tanks.Game.Types.{
  Vec2, Tank, Player, GameInstance, no_occupant, no_tank, no_owner, no_pos_vec, GridCell, GridCell,
}
use silent_tanks.Game.Grid.{
  get_tank, get_player, put_player, cell_at, put_tank, put_cell, put_tank, put_cell,
}
use silent_tanks.Game.Grid.Board.{
  Inside, IsSized, occupant_at, terrain_at, Seats, put_cell-Seats, cell_at-Inside, same→≡,
}
use silent_tanks.Game.Occupancy.{
  IsSound, Puts, put_tank-Puts, Puts-IsSized, Seats-get_tank, Puts-occupant_at, get_tank-lt,
}
use silent_tanks.Game.Roster.{IsRostered}
use silent_tanks.Game.Placement.{place_tank, remove_tank, placed_tank}
use silent_tanks.Game.Placement.Enrolment.{
  Enrols, Enters, put_player-Enters, Enters-board, same_cell, same_players, place_tank-Enrols,
}

-- A tank after its removal.
abbrev removed_tank : Tank → ℕ → Tank
removed_tank t id = record t {
  pos = no_pos_vec;
  owner = no_owner;
  health = 0;
  loaded = false;
  id = id;
  current_direction = 0;
  barrel_direction = 0;
}

-- `h` is `g` with the spare tank `id` reset and the first free slot of player `k`, who is `p`, empty:
-- the board, the other tanks, the other players and the count of placed tanks are those of `g`.
pub record Restores (g : GameInstance) (k id : ℕ) (p : Player) (h : GameInstance) : Type 0 where
  pub spare : (t : Tank) × (get_tank g id ≡ some t) × (get_tank h id ≡ some (removed_tank t id))
  pub others : (j : ℕ) → (id == j) ≡ false → get_tank h j ≡ get_tank g j
  pub occupants : (r : Vec2) → Inside g r → occupant_at h r ≡ occupant_at g r
  pub terrains : (r : Vec2) → Inside g r → terrain_at h r ≡ terrain_at g r
  pub width : h.game_env.width ≡ g.game_env.width
  pub height : h.game_env.height ≡ g.game_env.height
  pub mask : h.placement_mask ≡ g.placement_mask
  pub player :
      get_player h k
      ≡ some (record p { owned_tank_ids = set p.owned_tank_ids p.tanks_placed no_tank })
  pub other_players : (j : ℕ) → (k == j) ≡ false → get_player h j ≡ get_player g j

set-set {ℓ} : {A : Type ℓ} (xs : List A) (i : ℕ) (u v : A) → set (set xs i u) i v ≡ set xs i v
set-set [] i u v = refl
set-set (x ∷ xs) zero u v = refl
set-set (x ∷ xs) (suc i) u v = ap (λ ys. x ∷ ys) (set-set xs i u v)

module _ (g h : GameInstance) (pos : Vec2) (k id dir : ℕ) (p : Player) (sized : IsSized g)
    (e : Enrols g k id pos dir h) (had : get_player g k ≡ some p)
    (free : occupant_at g pos ≡ no_occupant) where
  -- The three writes of a removal.
  restored :
      {g1 g2 r : GameInstance}
      → Puts h id (removed_tank e.before id) g1
      → Seats g1 pos no_tank g2
      → Enters g2 k (record p { owned_tank_ids = set p.owned_tank_ids p.tanks_placed no_tank }) r
      → Restores g k id p r
  unfolding get_player
  restored {g1} {g2} {r} e1 e2 e3 = record {
    spare = (
      e.before,
      e.was,
      (Enters-board e3).0 id ∙ Seats-get_tank e2 id ∙ ground (arith, e1.tank id),
    );
    others =
        λ j ne. ground (arith, (Enters-board e3).0 j, Seats-get_tank e2 j, e1.tank j, e.tank j);
    occupants = λ s is.
        let ih : Inside h s = ground (arith, is, e.width, e.height) in
        let i1 : Inside g1 s = rw e1.env ih in
        ground (
          arith,
          (Enters-board e3).1 s,
          e2.occupants s i1,
          (Puts-occupant_at e1 s).0,
          e.occupants s is,
          same→≡ pos s,
          free,
        );
    terrains = λ s is.
        let ih : Inside h s = ground (arith, is, e.width, e.height) in
        let i1 : Inside g1 s = rw e1.env ih in
        (Enters-board e3).2 s ∙ e2.terrains s i1 ∙ (Puts-occupant_at e1 s).1 ∙ e.terrains s is;
    width = ground (arith, e1.env, e2.width, e3.env, e.width);
    height = ground (arith, e1.env, e2.height, e3.env, e.height);
    mask = e3.mask ∙ e2.mask ∙ e1.mask ∙ e.mask;
    player = ground (arith, e3.players k);
    other_players = λ j ne.
        ground (arith, e3.players j, same_players g2 h j (e2.players ∙ e1.players), e.players j);
  }

-- The code of a removal, when none of its accesses faults.
remove_tank_lem :
    (h g1 g2 r : GameInstance) (pos : Vec2) (k id placed : ℕ) (c : GridCell) (q : Player) (t : Tank)
    → cell_at h pos ≡ some c
    → get_player h k ≡ some q
    → (q.tanks_placed + 255 + k * h.num_tanks) % 256 ≡ id
    → get_tank h id ≡ some t
    → put_tank h id (removed_tank t id) ≡ some g1
    → put_cell g1 pos (record c { occupant = no_tank }) ≡ some g2
    → sub8 q.tanks_placed 1 ≡ placed
    → placed < length q.owned_tank_ids
    → put_player g2 k
        (record q { owned_tank_ids = set q.owned_tank_ids placed no_tank; tanks_placed = placed })
      ≡ some r
    → remove_tank h pos k ≡ some r
unfolding remove_tank
remove_tank_lem h g1 g2 r pos k id placed c q t at had number now e1 e2 count long e3 =
    rw (at, had, number, now, e1, e2, count, lt→ltb _ _ long) e3

removes :
    (g h : GameInstance) (pos : Vec2) (k id dir : ℕ) (p : Player)
    → IsSound g
    → get_player g k ≡ some p
    → p.tanks_placed < length p.owned_tank_ids
    → Inside g pos
    → occupant_at g pos ≡ no_occupant
    → id ≡ p.tanks_placed + k * g.num_tanks
    → Enrols g k id pos dir h
    → (r : GameInstance) × (remove_tank h pos k ≡ some r) × Restores g k id p r
removes g h pos k id dir p sound had slot inside free is_id e =
    let ih : Inside h pos = ground (arith, inside, e.width, e.height) in
    let same_p : e.player ≡ p = ground (arith, e.had) in
    let placed_p : Player = record p {
      tanks_placed = p.tanks_placed + 1;
      owned_tank_ids = set p.owned_tank_ids p.tanks_placed id;
    } in
    let had' : get_player h k ≡ some placed_p = ground (arith, e.players k, same_p) in
    let now : get_tank h id ≡ some (placed_tank e.before pos k 3 id dir) =
      ground (arith, e.tank id) in
    let small : id < 255 = omega (arith, get_tank-lt g id e.before e.was, sound.sized.ids) in
    let (c, at) = cell_at-Inside h e.sized pos ih in
    let (g1, e1, p1) = put_tank-Puts h id _ (removed_tank e.before id) now in
    let (g2, e2, p2) =
      put_cell-Seats g1 (Puts-IsSized p1 e.sized) pos (rw p1.env ih) c no_tank
        (same_cell g1 h pos p1.env ∙ at) in
    let after : Player = record p {
      owned_tank_ids = set (set p.owned_tank_ids p.tanks_placed id) p.tanks_placed no_tank;
    } in
    let (r, e3, p3) =
      put_player-Enters g2 k placed_p after
        (same_players g2 h k (p2.players ∙ p1.players) ∙ had') in
    (
      r,
      remove_tank_lem h g1 g2 r pos k id p.tanks_placed c placed_p
          (placed_tank e.before pos k 3 id dir) at had'
          (rw e.num_tanks (omega (arith, is_id, small))) now e1 e2 (omega (arith, is_id, small))
          (omega (arith, length-set p.owned_tank_ids p.tanks_placed id, slot)) e3,
      restored g h pos k id dir p sound.sized e had free p1 p2 (
          subst (λ ids. Enters g2 k (record p { owned_tank_ids = ids }) r)
            (set-set p.owned_tank_ids p.tanks_placed id no_tank) p3),
    )

-- On a sound instance with its roster in order, after the next tank of a player who has one left was
-- placed on a free cell of the board that is no mountain, `remove_tank` at that cell for that player
-- does not fault, and restores the board, the other tanks, the other players, and the player but for
-- the slot of the tank, which is empty; the tank itself is reset.
pub remove_tank-place_tank :
    (g h : GameInstance) (pos : Vec2) (k dir : ℕ) (p : Player)
    → IsSound g
    → IsRostered g
    → get_player g k ≡ some p
    → p.tanks_placed < g.num_tanks
    → Inside g pos
    → occupant_at g pos ≡ no_occupant
    → terrain_at g pos ≡ false
    → place_tank g pos k dir ≡ some h
    → (r : GameInstance) × (remove_tank h pos k ≡ some r)
      × Restores g k (p.tanks_placed + k * g.num_tanks) p r
remove_tank-place_tank g h pos k dir p sound rostered had room inside free low placed =
    let (h', returns, e) = place_tank-Enrols g pos k dir p sound rostered had room inside low in
    let slot : p.tanks_placed < length p.owned_tank_ids =
      omega (arith, room, (rostered.enlisted k p had).slots) in
    removes g h pos k (p.tanks_placed + k * g.num_tanks) dir p sound had slot inside free refl (
      subst (λ i. Enrols g k (p.tanks_placed + k * g.num_tanks) pos dir i)
        (some_inj (sym returns ∙ placed)) e)
