-- ===== src/Game/Fire/Shot.antt =====
-- The flight of a shell in coordinates without wrap-around, and that the loop of
-- `GameInstance::fire_tank` (src/libgame/game-instance.cpp) follows it.
use silent_tanks.Base.{
  ℕ, zero, suc, ◌+◌, true, false, ◌==◌, ◌!=◌, if◌then◌else◌, some, ◌≡◌, ◌≢◌, refl, arith,
  Bool-cases, inl, inr, get_elem?, ◌∙◌, ap, subst,
}
use silent_tanks.Game.Types.{Vec2, GridCell, GameInstance, no_occupant}
use silent_tanks.Game.Grid.{is_terrain, cell_at}
use silent_tanks.Game.Grid.Board.{Inside, IsSized, occupant_at, terrain_at, cell_at-Inside}
use silent_tanks.Game.Move.Legal.{dx, dy}
use silent_tanks.Game.Fire.{
  dir_to_vec, add_vec2, out_of_bounds, fire_loop, fire_at, miss, replay_fire_loop, replay_fire_at,
}

-- `q` is the cell of the board that follows `p` in direction `dir`, and is no mountain.
pub record Follows (g : GameInstance) (dir : ℕ) (p q : Vec2) : Type 0 where
  pub column : q.x + 1 ≡ p.x + dx dir
  pub row : q.y + 1 ≡ p.y + dy dir
  pub inside : Inside g q
  pub passable : terrain_at g q ≡ false

-- A shell at `p` with `n` steps to go reaches an occupied cell at `q`, over free cells.
pub data Shot (g : GameInstance) (dir : ℕ) : Vec2 → ℕ → Vec2 → Type 0 where
  lands :
      {p : Vec2} {n : ℕ} (q : Vec2)
      → Follows g dir p q
      → occupant_at g q ≢ no_occupant
      → Shot g dir p (suc n) q
  flies :
      {p : Vec2} {n : ℕ} {r : Vec2} (q : Vec2)
      → Follows g dir p q
      → occupant_at g q ≡ no_occupant
      → Shot g dir q n r
      → Shot g dir p (suc n) r

-- What a loop returns that hits with `at` and otherwise with `nothing`.
pub data Flight {ℓ} {R : Type ℓ} (g : GameInstance) (dir : ℕ) (p : Vec2) (n : ℕ) (at : ℕ → R)
    (nothing r : R) : Type ℓ where
  hits : (q : Vec2) → Shot g dir p n q → r ≡ at (occupant_at g q) → Flight g dir p n at nothing r
  ends : ((q : Vec2) → ¬ Shot g dir p n q) → r ≡ nothing → Flight g dir p n at nothing r

module _ (g : GameInstance) (dir : ℕ) (sized : IsSized g) where
  pub Follows-unique :
      (p q r : Vec2) → Follows g dir p q → r.x + 1 ≡ p.x + dx dir → r.y + 1 ≡ p.y + dy dir → q ≡ r
  Follows-unique p q r f cx cy = ground (arith, f.column, f.row)

  -- A step of the code, in wrapped arithmetic: off the board, where no cell follows, or to the
  -- coordinates that follow.
  data Next (p d : Vec2) : Type 0 where
    off : out_of_bounds g (add_vec2 p d) ≡ true → ((q : Vec2) → ¬ Follows g dir p q) → Next p d
    on :
        (add_vec2 p d).x + 1 ≡ p.x + dx dir
        → (add_vec2 p d).y + 1 ≡ p.y + dy dir
        → Inside g (add_vec2 p d)
        → out_of_bounds g (add_vec2 p d) ≡ false
        → Next p d

  abbrev Steps : Vec2 → Vec2 → Type 0
  Steps p d =
      (out_of_bounds g (add_vec2 p d) ≡ true → (q : Vec2) → ¬ Follows g dir p q)
      × (out_of_bounds g (add_vec2 p d) ≡ false
          → ((add_vec2 p d).x + 1 ≡ p.x + dx dir) × ((add_vec2 p d).y + 1 ≡ p.y + dy dir))

  Steps-Next : (p d : Vec2) → Steps p d → Next p d
  Steps-Next p d s = elim (Bool-cases (out_of_bounds g (add_vec2 p d))) [
    | inl out ↦ off out (s.0 out)
    | inr within ↦ on (s.1 within).0 (s.1 within).1 (ground arith, ground arith) within
  ]

module _ (g : GameInstance) (sized : IsSized g) where
  Steps_lem :
      (dir : ℕ) (p d : Vec2)
      → get_elem? dir_to_vec dir ≡ some d
      → Inside g p
      → Steps g dir sized p d
  Steps_lem zero p d e i = (
    λ out q f. ground (arith, sized.width_u8, sized.height_u8, f.column, f.row, f.inside),
    λ within. (ground (arith, sized.width_u8), ground (arith, sized.height_u8)),
  )
  Steps_lem _ p d e i = (
    λ out q f. ground (arith, sized.width_u8, sized.height_u8, f.column, f.row, f.inside),
    λ within. (ground (arith, sized.width_u8), ground (arith, sized.height_u8)),
  )

module _ (g : GameInstance) (sized : IsSized g) (dir : ℕ) (d : Vec2)
    (vector : get_elem? dir_to_vec dir ≡ some d) where
  module _ {ℓ} {R : Type ℓ} (at : ℕ → R) (nothing : R) (n : ℕ) (p : Vec2) where
    -- One round of a loop, by the cell that the shell enters.
    abbrev round : GridCell → R → R
    round c rest =
        if is_terrain c.cell_type
        then nothing
        else if c.occupant != no_occupant
        then at c.occupant
        else rest

    no_next : ((q : Vec2) → ¬ Follows g dir p q) → (q : Vec2) → ¬ Shot g dir p (suc n) q
    no_next none_follows _ (lands q f o) = none_follows q f
    no_next none_follows _ (flies q f o s) = none_follows q f

    module _ (q : Vec2) (column : q.x + 1 ≡ p.x + dx dir) (row : q.y + 1 ≡ p.y + dy dir)
        (inside : Inside g q) (c : GridCell) (stored : cell_at g q ≡ some c) where
      blocked_Flight : terrain_at g q ≡ true → Flight g dir p (suc n) at nothing nothing
      blocked_Flight high =
          ends
            (no_next
              (λ r f. ground (arith, Follows-unique g dir sized p r q f column row, f.passable)))
            refl

      landed_Flight :
          terrain_at g q ≡ false
          → occupant_at g q ≢ no_occupant
          → Flight g dir p (suc n) at nothing (at (occupant_at g q))
      landed_Flight low taken =
          hits q
            (lands q (record { column = column; row = row; inside = inside; passable = low }) taken)
            refl

      flown_inv :
          terrain_at g q ≡ false
          → occupant_at g q ≡ no_occupant
          → (t : Vec2) → Shot g dir p (suc n) t
          → Shot g dir q n t
      flown_inv low free _ (lands t f o) =
          absurd (o (ap (occupant_at g) (Follows-unique g dir sized p t q f column row) ∙ free))
      flown_inv low free r (flies t f o s) =
          subst (λ u. Shot g dir u n r) (Follows-unique g dir sized p t q f column row) s

      flown :
          {r : R}
          → terrain_at g q ≡ false
          → occupant_at g q ≡ no_occupant
          → Flight g dir q n at nothing r
          → Flight g dir p (suc n) at nothing r
      flown low free (hits t s e) =
          hits t
            (flies q (record { column = column; row = row; inside = inside; passable = low }) free
              s)
            e
      flown low free (ends none_shot e) = ends (λ t s. none_shot t (flown_inv low free t s)) e

      round-Flight :
          (rest : R)
          → Flight g dir q n at nothing rest
          → Flight g dir p (suc n) at nothing (round c rest)
      unfolding occupant_at terrain_at
      round-Flight rest f = elim (Bool-cases (is_terrain c.cell_type)) [
        | inl high ↦ rw high (blocked_Flight (rw stored high))
        | inr low ↦ elim (Bool-cases (c.occupant == no_occupant)) [
          | inl free ↦ rw (low, free) (flown (rw stored low) (rw stored (ground arith)) f)
          | inr taken ↦
              rw (low, taken)
                (rw stored at (landed_Flight (rw stored low) (rw stored (ground arith))))
        ]
      ]

  -- The loop of `fire_tank` hits the cell that the shell reaches, and ends with false if there is
  -- none.
  pub fire_loop-Flight :
      (owner n : ℕ) (p : Vec2)
      → Inside g p
      → Flight g dir p n (fire_at g owner) (some (false, g)) (fire_loop g owner d n p)
  unfolding fire_loop
  fire_loop-Flight owner zero p i = ends (λ q s. elim s [ ]) refl
  fire_loop-Flight owner (suc n) p i =
      elim (Steps-Next g dir sized p d (Steps_lem g sized dir p d vector i)) [
        | off out none_follows ↦
            rw out (ends (no_next (fire_at g owner) (some (false, g)) n p none_follows) refl)
        | on column row inside within ↦
            let (c, e) = cell_at-Inside g sized (add_vec2 p d) inside in
            rw (within, e)
              (round-Flight (fire_at g owner) (some (false, g)) n p (add_vec2 p d) column row inside
                c e _ (fire_loop-Flight owner n (add_vec2 p d) inside))
      ]

  pub replay_fire_loop-Flight :
      (n : ℕ) (p : Vec2)
      → Inside g p
      → Flight g dir p n (replay_fire_at g) (some (miss, g)) (replay_fire_loop g d n p)
  unfolding replay_fire_loop
  replay_fire_loop-Flight zero p i = ends (λ q s. elim s [ ]) refl
  replay_fire_loop-Flight (suc n) p i =
      elim (Steps-Next g dir sized p d (Steps_lem g sized dir p d vector i)) [
        | off out none_follows ↦
            rw out (ends (no_next (replay_fire_at g) (some (miss, g)) n p none_follows) refl)
        | on column row inside within ↦
            let (c, e) = cell_at-Inside g sized (add_vec2 p d) inside in
            rw (within, e)
              (round-Flight (replay_fire_at g) (some (miss, g)) n p (add_vec2 p d) column row inside
                c e _ (replay_fire_loop-Flight n (add_vec2 p d) inside))
      ]

pub Shot-target :
    (g : GameInstance) (dir : ℕ) {p : Vec2} {n : ℕ} (q : Vec2)
    → Shot g dir p n q
    → Inside g q × (occupant_at g q ≢ no_occupant)
Shot-target g dir q (lands _ f o) = (f.inside, o)
Shot-target g dir q (flies _ f o s) = Shot-target g dir q s

Follows-board :
    (g h : GameInstance) (dir : ℕ) (p q : Vec2)
    → h.game_env ≡ g.game_env
    → Follows g dir p q
    → Follows h dir p q
unfolding terrain_at cell_at
Follows-board g h dir p q e f = record {
  column = f.column;
  row = f.row;
  inside = rw e f.inside;
  passable = rw e f.passable;
}

occupant-board :
    (g h : GameInstance) (q : Vec2) → h.game_env ≡ g.game_env → occupant_at h q ≡ occupant_at g q
unfolding occupant_at cell_at
occupant-board g h q e = rw e

-- Instances with the same board have the same shots.
pub Shot-board :
    (g h : GameInstance) (dir : ℕ) {p : Vec2} {n : ℕ} {q : Vec2}
    → h.game_env ≡ g.game_env
    → Shot g dir p n q
    → Shot h dir p n q
Shot-board g h dir {p} e (lands q f o) =
    lands q (Follows-board g h dir p q e f) (rw (occupant-board g h q e) o)
Shot-board g h dir {p} e (flies q f o s) =
    flies q (Follows-board g h dir p q e f) (occupant-board g h q e ∙ o) (Shot-board g h dir e s)
