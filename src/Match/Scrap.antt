-- ===== src/Match/Scrap.antt =====
-- What the loop of `MatchInstance::handle_elimination` (src/server/match-instance.cpp) over the tanks
-- of an eliminated player does to the board.
use silent_tanks.Base.{
  ℕ, zero, suc, ◌+◌, ◌<◌, ◌≡◌, ◌≢◌, ◌==◌, some, List, get_elem?, refl, arith, ◌∙◌, ap, sym, inl,
  inr, Bool-cases,
}
use silent_tanks.Game.Types.{Vec2, Tank, GameInstance, no_occupant}
use silent_tanks.Game.Grid.{get_tank}
use silent_tanks.Game.Grid.Board.{Inside, occupant_at}
use silent_tanks.Game.Occupancy.{Lives, IsSound, Lives-id}
use silent_tanks.Match.Types.{ok}
use silent_tanks.Match.Turns.{scrap_tanks}
use silent_tanks.Match.Wreck.{Retires, scrap-Retires, Retires-Lives, Retires-stays, Retires-IsSound}

-- Slot `i` and the `left - 1` after it list tanks whose positions are on the board, where no other
-- tank lives.
abbrev pub Slots : GameInstance → List ℕ → ℕ → ℕ → Type 0
Slots g ids i zero = Unit
Slots g ids i (suc left) =
    ((id : ℕ) × (t : Tank) × (get_elem? ids i ≡ some id)
      × (get_tank g id ≡ some t)
      × Inside g t.pos
      × ((o : ℕ) → Lives g o t.pos → o ≡ id))
    × Slots g ids (i + 1) left

Retires-Slots :
    {g h : GameInstance} (id : ℕ) (t : Tank)
    → get_tank g id ≡ some t
    → Retires g id t h
    → (ids : List ℕ) (i left : ℕ) → Slots g ids i left
    → Slots h ids i left
Retires-Slots id t stored r ids i zero s = tt
Retires-Slots {g} {h} id t stored r ids i (suc left) ((j, u, listed, su, inside, alone), more) = (
  elim (Bool-cases (id == j)) [
    | inl e ↦ (
      j,
      record t { health = 0 },
      listed,
      ground (arith, r.tank j),
      ground (arith, stored, su, inside, r.width, r.height),
      λ o l. alone o (ground (arith, (Retires-Lives id t r o t.pos l).1)),
    )
    | inr ne ↦ (
      j,
      u,
      listed,
      ground (arith, r.tank j),
      ground (arith, inside, r.width, r.height),
      λ o l. alone o (Retires-Lives id t r o u.pos l).1,
    )
  ],
  Retires-Slots id t stored r ids (i + 1) left more,
)

-- After the loop over slots `i` and up: the listed tanks are dead, and the others as they were.
pub record Scraps (g : GameInstance) (ids : List ℕ) (i left : ℕ) (h : GameInstance) : Type 0 where
  pub sound : IsSound h
  pub dead : (k id : ℕ) → k < left → get_elem? ids (i + k) ≡ some id → (p : Vec2) → ¬ Lives h id p
  pub kept :
      (j : ℕ) → ((k : ℕ) → k < left → get_elem? ids (i + k) ≢ some j) → get_tank h j ≡ get_tank g j
  pub fewer : (o : ℕ) (p : Vec2) → Lives h o p → Lives g o p

-- On a sound instance, if every listed tank has a position on the board and no other tank lives
-- there, then the loop does not fault and keeps the instance sound; the listed tanks are dead after
-- it, every other tank is unchanged, and no tank lives that did not live before at the same place.
pub scrap_tanks-Scraps :
    (g : GameInstance) (ids : List ℕ) (i left : ℕ)
    → IsSound g
    → Slots g ids i left
    → (h : GameInstance) × (scrap_tanks g ids i left ≡ ok h) × Scraps g ids i left h
unfolding scrap_tanks
scrap_tanks-Scraps g ids i zero sound s = (
  g,
  refl,
  record {
    sound = sound;
    dead = λ k id lt. absurd (omega (arith, lt));
    kept = λ j never. refl;
    fewer = λ o p l. l;
  },
)
scrap_tanks-Scraps g ids i (suc left) sound ((id, t, listed, stored, inside, alone), more) =
    let (g1, e, r) = scrap-Retires g ids i left id t sound.sized listed stored inside in
    let (h, e', s) =
      scrap_tanks-Scraps g1 ids (i + 1) left (Retires-IsSound id t sound stored inside alone r)
        (Retires-Slots id t stored r ids (i + 1) left more) in
    (h, e ∙ e', later g1 h id t listed r s)
  where
    later :
        (g1 h : GameInstance) (id : ℕ) (t : Tank)
        → get_elem? ids i ≡ some id
        → Retires g id t g1
        → Scraps g1 ids (i + 1) left h
        → Scraps g ids i (suc left) h
    later g1 h id t listed r s = record {
      sound = s.sound;
      dead = dead;
      kept = λ j absent.
          s.kept j (λ k lt at. absent (suc k) (omega (arith, lt)) (shift k ∙ at))
          ∙ ground (arith, r.tank j, absent 0, listed);
      fewer = λ o p l. (Retires-Lives id t r o p (s.fewer o p l)).1;
    }
      where
        shift : (k : ℕ) → get_elem? ids (i + suc k) ≡ get_elem? ids (i + 1 + k)
        shift k = ap (get_elem? ids) (omega arith)

        dead :
            (k j : ℕ) → k < suc left → get_elem? ids (i + k) ≡ some j → (p : Vec2) → ¬ Lives h j p
        dead zero j lt at p l =
            let (ne, _) = Retires-Lives id t r j p (s.fewer j p l) in ground (arith, ne, listed, at)
        dead (suc k) j lt at p l = s.dead k j (omega (arith, lt)) (sym (shift k) ∙ at) p l

-- On a sound instance, if another tank lives at the position of a listed tank, as it can once the
-- listed tank is dead, then the round of the loop for the listed tank empties that cell: the other
-- tank lives on, its cell names no tank, and the instance is not sound any more.
pub scrap_tanks-evicts :
    (g : GameInstance) (ids : List ℕ) (i id other : ℕ) (t : Tank)
    → IsSound g
    → get_elem? ids i ≡ some id
    → get_tank g id ≡ some t
    → Lives g other t.pos
    → other ≢ id
    → (h : GameInstance) × (scrap_tanks g ids i 1 ≡ ok h)
      × Lives h other t.pos
      × (occupant_at h t.pos ≡ no_occupant)
      × ¬ IsSound h
unfolding scrap_tanks
scrap_tanks-evicts g ids i id other t sound listed stored lives differs =
    let (inside, _) = sound.seated other t.pos lives in
    let (h, e, r) = scrap-Retires g ids i 0 id t sound.sized listed stored inside in
    let on : Lives h other t.pos =
      Retires-stays id t r other t.pos (ground (arith, differs)) lives in
    let gone : occupant_at h t.pos ≡ no_occupant = ground (arith, r.occupants t.pos inside) in
    (
      h,
      e,
      on,
      gone,
      λ sound'. omega (arith, gone, (sound'.seated other t.pos on).1, Lives-id r.sized on),
    )
