-- ===== src/Game/Grid/Board.antt =====
-- The board as a map from positions to occupants and terrain, and what a write of one occupant does
-- to it: for the array of src/libgame/flat-array.h and `set_occupant` of game-instance.h.
use silent_tanks.Base.{
  ℕ, ◌+◌, ◌*◌, ◌<◌, ◌≤◌, Bool, true, false, ◌==◌, ◌&&◌, if◌then◌else◌, Option, none, some, length,
  get_elem?, set, ◌≡◌, refl, arith, get_elem?-lt, get_elem?-set, length-set, lt→ltb, ◌∙◌, ap,
}
use silent_tanks.Game.Types.{Vec2, GridCell, GameInstance, no_occupant}
use silent_tanks.Game.Grid.{idx, is_terrain, cell_at, put_cell, set_occupant}

abbrev pub Inside : GameInstance → Vec2 → Type 0
Inside g p = (p.x < g.game_env.width) × (p.y < g.game_env.height)

-- The sizes of the vectors, which the constructors set and no operation changes.
pub record IsSized (g : GameInstance) : Type 0 where
  pub width_u8 : g.game_env.width ≤ 255
  pub height_u8 : g.game_env.height ≤ 255
  pub cells : length g.game_env.array ≡ g.game_env.width * g.game_env.height
  pub mask : length g.placement_mask ≡ g.game_env.width * g.game_env.height
  pub tanks : length g.tanks ≡ g.num_players * g.num_tanks
  pub ids : length g.tanks ≤ 255
  pub players : length g.players ≡ g.num_players

abbrev pub occupant_in : Option GridCell → ℕ
occupant_in none = no_occupant
occupant_in (some c) = c.occupant

abbrev pub terrain_in : Option GridCell → Bool
terrain_in none = false
terrain_in (some c) = is_terrain c.cell_type

unfoldable pub occupant_at : GameInstance → Vec2 → ℕ
occupant_at g p = occupant_in (cell_at g p)

unfoldable pub terrain_at : GameInstance → Vec2 → Bool
terrain_at g p = terrain_in (cell_at g p)

-- Two positions as one test.
abbrev pub same : Vec2 → Vec2 → Bool
same p q = p.x == q.x && p.y == q.y

pub same→≡ : (p q : Vec2) → same p q ≡ true → p ≡ q
same→≡ p q e = ground arith

pub idx-lt : (w h x y : ℕ) → x < w → y < h → x + w * y < w * h
idx-lt w h x y p q = grind arith

idx-lt-idx : (w x y u v : ℕ) → x < w → y < v → x + w * y < u + w * v
idx-lt-idx w x y u v p q = grind arith

-- Positions on the board have places of their own.
idx_inj : (w : ℕ) (p q : Vec2) → p.x < w → q.x < w → (p.x + w * p.y == q.x + w * q.y) ≡ same p q
idx_inj w p q hp hq = ground (arith, idx-lt-idx w p.x p.y q.x q.y, idx-lt-idx w q.x q.y p.x p.y)

-- `h` is `g` with the occupant `o` written at `p`.
pub record Seats (g : GameInstance) (p : Vec2) (o : ℕ) (h : GameInstance) : Type 0 where
  pub tanks : h.tanks ≡ g.tanks
  pub players : h.players ≡ g.players
  pub mask : h.placement_mask ≡ g.placement_mask
  pub num_players : h.num_players ≡ g.num_players
  pub num_tanks : h.num_tanks ≡ g.num_tanks
  pub width : h.game_env.width ≡ g.game_env.width
  pub height : h.game_env.height ≡ g.game_env.height
  pub cells : length h.game_env.array ≡ length g.game_env.array
  pub occupants :
      (q : Vec2) → Inside g q → occupant_at h q ≡ (if same p q then o else occupant_at g q)
  pub terrains : (q : Vec2) → Inside g q → terrain_at h q ≡ terrain_at g q

module _ (g : GameInstance) (sized : IsSized g) (p : Vec2) (inside : Inside g p) where
  in_range : idx g.game_env p.x p.y < length g.game_env.array
  in_range =
      omega
        (arith, sized.cells, idx-lt g.game_env.width g.game_env.height p.x p.y inside.0 inside.1)

  -- A position on the board has a cell.
  pub cell_at-Inside : (c : GridCell) × (cell_at g p ≡ some c)
  unfolding cell_at
  cell_at-Inside = get_elem?-lt g.game_env.array (idx g.game_env p.x p.y) in_range

  replaced : GridCell → GameInstance
  replaced c = record g {
    game_env = record (g.game_env) { array = set g.game_env.array (idx g.game_env p.x p.y) c };
  }

  put_cell-Inside : (c : GridCell) → put_cell g p c ≡ some (replaced c)
  unfolding put_cell replaced
  put_cell-Inside c = rw (lt→ltb _ _ in_range)

  replaced_at :
      (c : GridCell) (q : Vec2)
      → Inside g q
      → cell_at (replaced c) q ≡ (if same p q then some c else cell_at g q)
  unfolding cell_at replaced
  replaced_at c q iq =
      get_elem?-set g.game_env.array (idx g.game_env p.x p.y) (idx g.game_env q.x q.y) c in_range
      ∙ ap (λ b. if b then some c else get_elem? g.game_env.array (idx g.game_env q.x q.y))
          (idx_inj g.game_env.width p q inside.0 iq.0)

  replaced-Seats :
      (c : GridCell) (o : ℕ)
      → cell_at g p ≡ some c
      → Seats g p o (replaced (record c { occupant = o }))
  unfolding replaced
  replaced-Seats c o e = record {
    tanks = refl;
    players = refl;
    mask = refl;
    num_players = refl;
    num_tanks = refl;
    width = refl;
    height = refl;
    cells = length-set g.game_env.array (idx g.game_env p.x p.y) (record c { occupant = o });
    occupants = λ q iq.
        unfold occupant_at in rw (replaced_at (record c { occupant = o }) q iq) (ground arith);
    terrains = λ q iq.
        unfold terrain_at in
        rw (replaced_at (record c { occupant = o }) q iq) (ground (arith, same→≡ p q));
  }

  -- On the board `set_occupant` does not fault, and changes one occupant.
  pub set_occupant-Seats :
      (o : ℕ) → (h : GameInstance) × (set_occupant g p o ≡ some h) × Seats g p o h
  unfolding set_occupant
  set_occupant-Seats o =
      let (c, e) = cell_at-Inside in
      let c' : GridCell = record c { occupant = o } in
      (replaced c', rw e (put_cell-Inside c'), replaced-Seats c o e)

  pub put_cell-Seats :
      (c : GridCell) (o : ℕ)
      → cell_at g p ≡ some c
      → (h : GameInstance) × (put_cell g p (record c { occupant = o }) ≡ some h) × Seats g p o h
  put_cell-Seats c o e = (
    replaced (record c { occupant = o }),
    put_cell-Inside (record c { occupant = o }),
    replaced-Seats c o e,
  )
