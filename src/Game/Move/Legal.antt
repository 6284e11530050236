-- ===== src/Game/Move/Legal.antt =====
-- The rule of a move, in coordinates without wrap-around, and that the switch of
-- `GameInstance::move_tank` (src/libgame/game-instance.cpp) decides it.
use silent_tanks.Base.{
  ℕ, zero, suc, ◌+◌, ◌%◌, ◌<◌, Bool, true, false, ◌==◌, ◌&&◌, ◌||◌, if◌then◌else◌, Option, none,
  some, ◌≡◌, refl, arith, Bool-cases, inl, inr, sub8, add8, not,
}
use silent_tanks.Game.Types.{Vec2, vec2, GameInstance, no_occupant}
use silent_tanks.Game.Grid.Board.{Inside, IsSized, occupant_at, terrain_at, cell_at-Inside}
use silent_tanks.Game.Move.{
  Decision, enter_straight, enter_diagonal, move_north, move_north_east, move_east, move_south_east,
  move_south, move_south_west, move_west, move_north_west, decide_move, out_x, out_y,
}

-- One more than the change of `x` and of `y` of a step in a direction, the compass of
-- src/libgame/tank-entity.h.
abbrev pub dx : ℕ → ℕ
dx dir = if dir == 0 || dir == 4 then 1 else if dir == 1 || dir == 2 || dir == 3 then 2 else 0

abbrev pub dy : ℕ → ℕ
dy dir = if dir == 2 || dir == 6 then 1 else if dir == 3 || dir == 4 || dir == 5 then 2 else 0

-- The tank at `prev` may move to `q` in direction `dir`: `q` is the next position, on the board,
-- free, and no mountain, and a diagonal step does not pass between two mountains.
pub record IsLegal (g : GameInstance) (prev : Vec2) (dir : ℕ) (q : Vec2) : Type 0 where
  pub column : q.x + 1 ≡ prev.x + dx dir
  pub row : q.y + 1 ≡ prev.y + dy dir
  pub inside : Inside g q
  pub free : occupant_at g q ≡ no_occupant
  pub passable : terrain_at g q ≡ false
  pub open_corner :
      (dir % 2 == 1) ≡ true
      → (terrain_at g (vec2 q.x prev.y) && terrain_at g (vec2 prev.x q.y)) ≡ false

-- What the code returns, and that it is right.
pub data Verdict (g : GameInstance) (prev : Vec2) (dir : ℕ) (o : Option Decision) : Type 0 where
  moves : (q : Vec2) → IsLegal g prev dir q → o ≡ some (some q) → Verdict g prev dir o
  stays : ((q : Vec2) → ¬ IsLegal g prev dir q) → o ≡ some none → Verdict g prev dir o

module _ (g : GameInstance) (sized : IsSized g) (prev : Vec2) (at : Inside g prev) where
  -- The two tests on the entered cell, as one.
  abbrev clear : Vec2 → Bool
  clear p = occupant_at g p == no_occupant && not (terrain_at g p)

  enter_straight_lem :
      (p : Vec2) → Inside g p → enter_straight g prev p ≡ some (if clear p then some p else none)
  unfolding enter_straight occupant_at terrain_at
  enter_straight_lem p i = let (c, e) = cell_at-Inside g sized p i in rw e (ground arith)

  abbrev corner : Vec2 → Bool
  corner p = terrain_at g (vec2 p.x prev.y) && terrain_at g (vec2 prev.x p.y)

  enter_diagonal_lem :
      (p : Vec2)
      → Inside g p
      → enter_diagonal g prev p ≡ some (if clear p && not (corner p) then some p else none)
  unfolding enter_diagonal occupant_at terrain_at
  enter_diagonal_lem p i =
      let (c, e) = cell_at-Inside g sized p i in
      let (c1, e1) = cell_at-Inside g sized (vec2 p.x prev.y) (i.0, at.1) in
      let (c2, e2) = cell_at-Inside g sized (vec2 prev.x p.y) (at.0, i.1) in
      rw (e, e1, e2) (ground arith)

  -- A step on the board that the tests allow is legal, and one that they do not is not.
  module _ (dir : ℕ) (p : Vec2) (column : p.x + 1 ≡ prev.x + dx dir)
      (row : p.y + 1 ≡ prev.y + dy dir) where
    next_unique : (q : Vec2) → IsLegal g prev dir q → q ≡ p
    next_unique q l = ground (arith, l.column, l.row)

    straight_Verdict :
        Inside g p → (dir % 2 == 1) ≡ false → Verdict g prev dir (enter_straight g prev p)
    straight_Verdict i even = elim (Bool-cases (clear p)) [
      | inl ok ↦
          moves p
            (record {
              column = column;
              row = row;
              inside = i;
              free = ground arith;
              passable = ground arith;
              open_corner = λ odd. cc;
            })
            (rw (enter_straight_lem p i, ok))
      | inr bad ↦
          stays (λ q l. ground (arith, next_unique q l, l.free, l.passable))
            (rw (enter_straight_lem p i, bad))
    ]

    diagonal_Verdict :
        Inside g p → (dir % 2 == 1) ≡ true → Verdict g prev dir (enter_diagonal g prev p)
    diagonal_Verdict i odd = elim (Bool-cases (clear p && not (corner p))) [
      | inl ok ↦
          moves p
            (record {
              column = column;
              row = row;
              inside = i;
              free = ground arith;
              passable = ground arith;
              open_corner = λ _. ground arith;
            })
            (rw (enter_diagonal_lem p i, ok))
      | inr bad ↦
          stays (λ q l. ground (arith, next_unique q l, l.free, l.passable, l.open_corner odd))
            (rw (enter_diagonal_lem p i, bad))
    ]

  guarded_Verdict :
      (dir : ℕ) (out : Bool) (o : Option Decision)
      → (out ≡ true → (q : Vec2) → ¬ IsLegal g prev dir q)
      → (out ≡ false → Verdict g prev dir o)
      → Verdict g prev dir (if out then some none else o)
  guarded_Verdict dir true o off on = stays (off refl) refl
  guarded_Verdict dir false o off on = on refl

  north_Verdict : Verdict g prev 0 (move_north g prev)
  unfolding move_north out_y
  north_Verdict =
      guarded_Verdict 0 (out_y g prev (sub8 prev.y 1)) _
        (λ out q l. ground (arith, l.inside, l.column, l.row, sized.width_u8, sized.height_u8))
        λ on.
          straight_Verdict 0 (vec2 prev.x (sub8 prev.y 1)) (ground (arith, sized.width_u8))
            (ground (arith, sized.height_u8)) (ground arith, ground arith) refl

  north_east_Verdict : Verdict g prev 1 (move_north_east g prev)
  unfolding move_north_east out_x out_y
  north_east_Verdict =
      guarded_Verdict 1 (out_y g prev (sub8 prev.y 1) || out_x g prev (add8 prev.x 1)) _
        (λ out q l. ground (arith, l.inside, l.column, l.row, sized.width_u8, sized.height_u8))
        λ on.
          diagonal_Verdict 1 (vec2 (add8 prev.x 1) (sub8 prev.y 1)) (ground (arith, sized.width_u8))
            (ground (arith, sized.height_u8)) (ground arith, ground arith) refl

  east_Verdict : Verdict g prev 2 (move_east g prev)
  unfolding move_east out_x
  east_Verdict =
      guarded_Verdict 2 (out_x g prev (add8 prev.x 1)) _
        (λ out q l. ground (arith, l.inside, l.column, l.row, sized.width_u8, sized.height_u8))
        λ on.
          straight_Verdict 2 (vec2 (add8 prev.x 1) prev.y) (ground (arith, sized.width_u8))
            (ground (arith, sized.height_u8)) (ground arith, ground arith) refl

  south_east_Verdict : Verdict g prev 3 (move_south_east g prev)
  unfolding move_south_east out_x out_y
  south_east_Verdict =
      guarded_Verdict 3 (out_y g prev (add8 prev.y 1) || out_x g prev (add8 prev.x 1)) _
        (λ out q l. ground (arith, l.inside, l.column, l.row, sized.width_u8, sized.height_u8))
        λ on.
          diagonal_Verdict 3 (vec2 (add8 prev.x 1) (add8 prev.y 1)) (ground (arith, sized.width_u8))
            (ground (arith, sized.height_u8)) (ground arith, ground arith) refl

  south_Verdict : Verdict g prev 4 (move_south g prev)
  unfolding move_south out_y
  south_Verdict =
      guarded_Verdict 4 (out_y g prev (add8 prev.y 1)) _
        (λ out q l. ground (arith, l.inside, l.column, l.row, sized.width_u8, sized.height_u8))
        λ on.
          straight_Verdict 4 (vec2 prev.x (add8 prev.y 1)) (ground (arith, sized.width_u8))
            (ground (arith, sized.height_u8)) (ground arith, ground arith) refl

  south_west_Verdict : Verdict g prev 5 (move_south_west g prev)
  unfolding move_south_west out_x out_y
  south_west_Verdict =
      guarded_Verdict 5 (out_y g prev (add8 prev.y 1) || out_x g prev (sub8 prev.x 1)) _
        (λ out q l. ground (arith, l.inside, l.column, l.row, sized.width_u8, sized.height_u8))
        λ on.
          diagonal_Verdict 5 (vec2 (sub8 prev.x 1) (add8 prev.y 1)) (ground (arith, sized.width_u8))
            (ground (arith, sized.height_u8)) (ground arith, ground arith) refl

  west_Verdict : Verdict g prev 6 (move_west g prev)
  unfolding move_west out_x
  west_Verdict =
      guarded_Verdict 6 (out_x g prev (sub8 prev.x 1)) _
        (λ out q l. ground (arith, l.inside, l.column, l.row, sized.width_u8, sized.height_u8))
        λ on.
          straight_Verdict 6 (vec2 (sub8 prev.x 1) prev.y) (ground (arith, sized.width_u8))
            (ground (arith, sized.height_u8)) (ground arith, ground arith) refl

  north_west_Verdict : Verdict g prev 7 (move_north_west g prev)
  unfolding move_north_west out_x out_y
  north_west_Verdict =
      guarded_Verdict 7 (out_y g prev (sub8 prev.y 1) || out_x g prev (sub8 prev.x 1)) _
        (λ out q l. ground (arith, l.inside, l.column, l.row, sized.width_u8, sized.height_u8))
        λ on.
          diagonal_Verdict 7 (vec2 (sub8 prev.x 1) (sub8 prev.y 1)) (ground (arith, sized.width_u8))
            (ground (arith, sized.height_u8)) (ground arith, ground arith) refl

  -- On a board of any size that a `uint8_t` can hold, for a tank on the board, the switch does not
  -- fault, accepts the legal position if there is one, and refuses if there is none.
  pub decide_move-Verdict : (dir : ℕ) → dir < 8 → Verdict g prev dir (decide_move g prev dir)
  unfolding decide_move
  decide_move-Verdict zero h = north_Verdict
  decide_move-Verdict (suc zero) h = north_east_Verdict
  decide_move-Verdict (suc (suc zero)) h = east_Verdict
  decide_move-Verdict (suc (suc (suc zero))) h = south_east_Verdict
  decide_move-Verdict (suc (suc (suc (suc zero)))) h = south_Verdict
  decide_move-Verdict (suc (suc (suc (suc (suc zero))))) h = south_west_Verdict
  decide_move-Verdict (suc (suc (suc (suc (suc (suc zero)))))) h = west_Verdict
  decide_move-Verdict (suc (suc (suc (suc (suc (suc (suc zero))))))) h = north_west_Verdict
  decide_move-Verdict (suc (suc (suc (suc (suc (suc (suc (suc n)))))))) h = absurd (omega arith)
