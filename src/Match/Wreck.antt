-- ===== src/Match/Wreck.antt =====
-- One round of the loop of `MatchInstance::handle_elimination` (src/server/match-instance.cpp) over
-- the tanks of an eliminated player.
use silent_tanks.Base.{
  ℕ, suc, ◌+◌, ◌≡◌, true, false, ◌==◌, if◌then◌else◌, some, List, get_elem?, refl, arith, ◌∙◌, ap,
  subst, inl, inr, Bool-cases, ◌⊎◌,
}
use silent_tanks.Game.Types.{Vec2, Tank, FlatArray, GridCell, GameInstance, no_occupant}
use silent_tanks.Game.Grid.{get_tank}
use silent_tanks.Game.Grid.Board.{
  Inside, IsSized, occupant_at, terrain_at, Seats, same, same→≡, set_occupant-Seats,
}
use silent_tanks.Game.Occupancy.{
  Lives, IsSound, Puts, Seats-get_tank, put_tank-Puts, Puts-IsSized, Seats-IsSized,
  Puts-occupant_at, reseat-IsSound, get_tank-lt,
}
use silent_tanks.Match.Turns.{scrap_tanks}

-- `h` is `g` with tank `id`, which is `t`, dead, and the cell of its position empty.
pub record Retires (g : GameInstance) (id : ℕ) (t : Tank) (h : GameInstance) : Type 0 where
  pub tank :
      (j : ℕ) → get_tank h j ≡ (if id == j then some (record t { health = 0 }) else get_tank g j)
  pub occupants :
      (r : Vec2)
      → Inside g r
      → occupant_at h r ≡ (if same t.pos r then no_occupant else occupant_at g r)
  pub terrains : (r : Vec2) → Inside g r → terrain_at h r ≡ terrain_at g r
  pub width : h.game_env.width ≡ g.game_env.width
  pub height : h.game_env.height ≡ g.game_env.height
  pub sized : IsSized h

chain-Retires :
    {g g1 h : GameInstance} (id : ℕ) (t : Tank)
    → IsSized g
    → Puts g id (record t { health = 0 }) g1
    → Seats g1 t.pos no_occupant h
    → Retires g id t h
chain-Retires {g} {g1} id t sized p s = record {
  tank = λ j. Seats-get_tank s j ∙ p.tank j;
  occupants = λ r ir.
      let i1 : Inside g1 r = rw p.env ir in
      ground (arith, s.occupants r i1, (Puts-occupant_at p r).0);
  terrains =
      λ r ir. let i1 : Inside g1 r = rw p.env ir in s.terrains r i1 ∙ (Puts-occupant_at p r).1;
  width = s.width ∙ ap (λ (e : FlatArray GridCell). e.width) p.env;
  height = s.height ∙ ap (λ (e : FlatArray GridCell). e.height) p.env;
  sized = Seats-IsSized s (Puts-IsSized p sized);
}

-- One round of the loop.
pub scrap-Retires :
    (g : GameInstance) (ids : List ℕ) (i left id : ℕ) (t : Tank)
    → IsSized g
    → get_elem? ids i ≡ some id
    → get_tank g id ≡ some t
    → Inside g t.pos
    → (h : GameInstance) × (scrap_tanks g ids i (suc left) ≡ scrap_tanks h ids (i + 1) left)
      × Retires g id t h
unfolding scrap_tanks
scrap-Retires g ids i left id t sized listed stored inside =
    let (g1, e1, p) = put_tank-Puts g id t (record t { health = 0 }) stored in
    let (h, e2, s) =
      set_occupant-Seats g1 (Puts-IsSized p sized) t.pos (rw p.env inside) no_occupant in
    (h, rw (listed, stored, e1, e2) refl, chain-Retires id t sized p s)

-- A retired tank is dead, and who lives now lived before.
pub Retires-Lives :
    {g h : GameInstance} (id : ℕ) (t : Tank)
    → Retires g id t h
    → (o : ℕ) (p : Vec2) → Lives h o p
    → ((id == o) ≡ false) × Lives g o p
Retires-Lives id t r o p l = elim (Bool-cases (id == o)) [
  | inl e ↦ absurd (ground (arith, r.tank o, l.stored, l.alive))
  | inr ne ↦ (
    ne,
    record {
      tank = l.tank;
      stored = ground (arith, r.tank o, l.stored);
      alive = l.alive;
      place = l.place;
    },
  )
]

pub Retires-stays :
    {g h : GameInstance} (id : ℕ) (t : Tank)
    → Retires g id t h
    → (o : ℕ) (p : Vec2) → (id == o) ≡ false
    → Lives g o p
    → Lives h o p
Retires-stays id t r o p ne l = record {
  tank = l.tank;
  stored = ground (arith, r.tank o, l.stored);
  alive = l.alive;
  place = l.place;
}

-- No other tank lives at the position of the retired one.
abbrev Alone : GameInstance → ℕ → Tank → Type 0
Alone g id t = (o : ℕ) → Lives g o t.pos → o ≡ id

pub Retires-IsSound :
    {g h : GameInstance} (id : ℕ) (t : Tank)
    → IsSound g
    → get_tank g id ≡ some t
    → Inside g t.pos
    → Alone g id t
    → Retires g id t h
    → IsSound h
Retires-IsSound {g} {h} id t sound stored inside alone r =
    reseat-IsSound id (record t { health = 0 }) sound r.sized r.tank (same t.pos) (λ q. false)
      r.occupants r.terrains r.width r.height
      (λ q iq _ gone here.
        let l : Lives g id q =
          subst (λ o. Lives g o q) here
            (sound.manned q iq
              (λ e. omega (arith, here, e, get_tank-lt g id t stored, sound.sized.ids))) in
        ground (arith, l.stored, l.place, gone))
      (λ q iq either.
        subst (λ v. (occupant_at g v ≡ no_occupant) ⊎ (occupant_at g v ≡ id))
          (same→≡ t.pos q either) (here_or_none (Bool-cases (occupant_at g t.pos == no_occupant))))
      (λ never. absurd (omega arith)) (λ q never. cc)
  where
    here_or_none :
        ((occupant_at g t.pos == no_occupant) ≡ true)
          ⊎ ((occupant_at g t.pos == no_occupant) ≡ false)
        → (occupant_at g t.pos ≡ no_occupant) ⊎ (occupant_at g t.pos ≡ id)
    here_or_none (inl free) = inl (ground arith)
    here_or_none (inr taken) =
        inr (alone (occupant_at g t.pos) (sound.manned t.pos inside (ground arith)))
