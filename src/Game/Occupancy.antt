-- ===== src/Game/Occupancy.antt =====
-- The agreement between the tanks and the board of a game instance (src/libgame/game-instance.h):
-- the cell of a living tank names it, and an occupied cell names a living tank that stands there.
use silent_tanks.Base.{
  ℕ, ◌<◌, Bool, true, false, ◌==◌, ◌||◌, ◌⊎◌, ◌↔◌, subst, if◌then◌else◌, some, length, set, ◌≡◌,
  ◌≢◌, refl, arith, get_elem?-set, length-set, lt-get_elem?, lt→ltb, ◌∙◌, ap, inl, inr, Bool-cases,
  sym,
}
use silent_tanks.Game.Types.{Vec2, Tank, GameInstance, no_occupant}
use silent_tanks.Game.Grid.{get_tank, put_tank, cell_at}
use silent_tanks.Game.Grid.Board.{Inside, IsSized, occupant_at, terrain_at, Seats}

-- Tank `i` lives, at `p`.
pub record Lives (g : GameInstance) (i : ℕ) (p : Vec2) : Type 0 where
  pub tank : Tank
  pub stored : get_tank g i ≡ some tank
  pub alive : 0 < tank.health
  pub place : tank.pos ≡ p

pub record IsSound (g : GameInstance) : Type 0 where
  pub sized : IsSized g
  pub seated : (i : ℕ) (p : Vec2) → Lives g i p → Inside g p × (occupant_at g p ≡ i)
  pub manned : (p : Vec2) → Inside g p → occupant_at g p ≢ no_occupant → Lives g (occupant_at g p) p
  pub dry : (p : Vec2) → Inside g p → occupant_at g p ≢ no_occupant → terrain_at g p ≡ false

-- `h` is `g` with tank `i` replaced.
pub record Puts (g : GameInstance) (i : ℕ) (t : Tank) (h : GameInstance) : Type 0 where
  pub env : h.game_env ≡ g.game_env
  pub players : h.players ≡ g.players
  pub mask : h.placement_mask ≡ g.placement_mask
  pub num_players : h.num_players ≡ g.num_players
  pub num_tanks : h.num_tanks ≡ g.num_tanks
  pub count : length h.tanks ≡ length g.tanks
  pub tank : (j : ℕ) → get_tank h j ≡ (if i == j then some t else get_tank g j)

-- A tank that can be read can be written.
pub put_tank-Puts :
    (g : GameInstance) (i : ℕ) (old t : Tank)
    → get_tank g i ≡ some old
    → (h : GameInstance) × (put_tank g i t ≡ some h) × Puts g i t h
unfolding get_tank put_tank
put_tank-Puts g i old t e =
    let lt : i < length g.tanks = lt-get_elem? g.tanks i old e in
    (
      record g { tanks = set g.tanks i t },
      rw (lt→ltb _ _ lt),
      record {
        env = refl;
        players = refl;
        mask = refl;
        num_players = refl;
        num_tanks = refl;
        count = length-set g.tanks i t;
        tank = λ j. get_elem?-set g.tanks i j t lt;
      },
    )

pub get_tank-lt : (g : GameInstance) (i : ℕ) (t : Tank) → get_tank g i ≡ some t → i < length g.tanks
unfolding get_tank
get_tank-lt g i t e = lt-get_elem? g.tanks i t e

pub Puts-IsSized : {g h : GameInstance} {i : ℕ} {t : Tank} → Puts g i t h → IsSized g → IsSized h
Puts-IsSized p s = ground arith

pub Seats-IsSized : {g h : GameInstance} {p : Vec2} {o : ℕ} → Seats g p o h → IsSized g → IsSized h
Seats-IsSized e s = ground arith

pub Seats-get_tank :
    {g h : GameInstance} {p : Vec2} {o : ℕ} → Seats g p o h → (j : ℕ) → get_tank h j ≡ get_tank g j
unfolding get_tank
Seats-get_tank e j = rw e.tanks

pub Puts-occupant_at :
    {g h : GameInstance} {i : ℕ} {t : Tank}
    → Puts g i t h
    → (q : Vec2) → (occupant_at h q ≡ occupant_at g q) × (terrain_at h q ≡ terrain_at g q)
unfolding occupant_at terrain_at cell_at
Puts-occupant_at p q = (rw p.env, rw p.env)

pub Lives-id : {g : GameInstance} {i : ℕ} {p : Vec2} → IsSized g → Lives g i p → i < 255
Lives-id {g} {i} s l = omega (arith, get_tank-lt g i l.tank l.stored, s.ids)

module _ {g h : GameInstance} (i : ℕ) (t : Tank) (sound : IsSound g) (sized : IsSized h)
    (tanks : (j : ℕ) → get_tank h j ≡ (if i == j then some t else get_tank g j)) where
  -- Every other tank is the one that it was.
  other_before : (j : ℕ) (p : Vec2) → (i == j) ≡ false → Lives h j p → Lives g j p
  other_before j p ne l = record {
    tank = l.tank;
    stored = ground (arith, tanks j, l.stored);
    alive = l.alive;
    place = l.place;
  }

  other_after : (j : ℕ) (p : Vec2) → (i == j) ≡ false → Lives g j p → Lives h j p
  other_after j p ne l = record {
    tank = l.tank;
    stored = ground (arith, tanks j, l.stored);
    alive = l.alive;
    place = l.place;
  }

  self_tank : get_tank h i ≡ some t
  self_tank = ground (arith, tanks i)

  self_is : (j : ℕ) (p : Vec2) → (i == j) ≡ true → (l : Lives h j p) → l.tank ≡ t
  self_is j p e l = ground (arith, tanks j, l.stored)

  -- Tank `i` leaves the cells of `vacates` and takes those of `takes`.
  module _ (vacates takes : Vec2 → Bool)
      (occupants : (q : Vec2)
        → Inside g q
        → occupant_at h q
          ≡ (if takes q then i else if vacates q then no_occupant else occupant_at g q))
      (terrains : (q : Vec2) → Inside g q → terrain_at h q ≡ terrain_at g q)
      (width : h.game_env.width ≡ g.game_env.width) (height : h.game_env.height ≡ g.game_env.height)
      (leaves : (q : Vec2) → Inside g q → takes q ≡ false → vacates q ≡ false → occupant_at g q ≢ i)
      (own : (q : Vec2)
        → Inside g q
        → (takes q || vacates q) ≡ true
        → (occupant_at g q ≡ no_occupant) ⊎ (occupant_at g q ≡ i))
      (arrives : 0 < t.health → Inside g t.pos × (takes t.pos ≡ true))
      (only : (q : Vec2)
        → takes q ≡ true
        → (0 < t.health) × (t.pos ≡ q) × (terrain_at g q ≡ false)) where
    in_g : (q : Vec2) → Inside h q → Inside g q
    in_g q iq = ground (arith, width, height)

    in_h : (q : Vec2) → Inside g q → Inside h q
    in_h q iq = ground (arith, width, height)

    reseat_seated : (j : ℕ) (p : Vec2) → Lives h j p → Inside h p × (occupant_at h p ≡ j)
    reseat_seated j p l = elim (Bool-cases (i == j)) [
      | inl e ↦
          let here : t.pos ≡ p = sym (ap (λ (u : Tank). u.pos) (self_is j p e l)) ∙ l.place in
          let (ip, taken) =
            arrives (subst (λ (u : Tank). 0 < u.health) (self_is j p e l) l.alive) in
          (
            in_h p (subst (λ q. Inside g q) here ip),
            ground (arith, occupants p (subst (λ q. Inside g q) here ip), ap takes here),
          )
      | inr ne ↦
          let (ip, o) = sound.seated j p (other_before j p ne l) in
          (in_h p ip, ground (arith, occupants p ip, own p ip, Lives-id sized l))
    ]

    reseat_manned :
        (p : Vec2) → Inside h p → occupant_at h p ≢ no_occupant → Lives h (occupant_at h p) p
    reseat_manned p ip ne = elim (Bool-cases (takes p)) [
      | inl taken ↦
          rw (occupants p (in_g p ip), taken)
            (record {
              tank = t;
              stored = self_tank;
              alive = (only p taken).0;
              place = (only p taken).1;
            })
      | inr free ↦ elim (Bool-cases (vacates p)) [
        | inl left ↦ absurd (ne (rw (occupants p (in_g p ip), free, left)))
        | inr kept ↦
            let same_occupant : occupant_at h p ≡ occupant_at g p =
              rw (occupants p (in_g p ip), free, kept) in
            rw same_occupant (
              other_after (occupant_at g p) p (ground (arith, leaves p (in_g p ip) free kept))
                (sound.manned p (in_g p ip) (rw same_occupant at ne)))
      ]
    ]

    reseat_dry : (p : Vec2) → Inside h p → occupant_at h p ≢ no_occupant → terrain_at h p ≡ false
    reseat_dry p ip ne = elim (Bool-cases (takes p)) [
      | inl taken ↦ terrains p (in_g p ip) ∙ (only p taken).2
      | inr free ↦
          terrains p (in_g p ip) ∙ sound.dry p (in_g p ip) (ground (arith, occupants p (in_g p ip)))
    ]

    pub reseat-IsSound : IsSound h
    reseat-IsSound = record {
      sized = sized;
      seated = reseat_seated;
      manned = reseat_manned;
      dry = reseat_dry;
    }

-- A change of a tank that leaves it where it is, and alive or dead as it was.
pub Puts-IsSound :
    {g h : GameInstance} (i : ℕ) (old t : Tank)
    → IsSound g
    → get_tank g i ≡ some old
    → t.pos ≡ old.pos
    → ((0 < t.health) ↔ (0 < old.health))
    → Puts g i t h
    → IsSound h
Puts-IsSound {g} {h} i old t sound stored place life p = record {
  sized = Puts-IsSized p sound.sized;
  seated = λ j q l.
      let (iq, o) = sound.seated j q (before j q l) in (rw p.env iq, (Puts-occupant_at p q).0 ∙ o);
  manned = λ q iq ne.
      let iq' : Inside g q = rw p.env at iq in
      let same_occupant = (Puts-occupant_at p q).0 in
      rw same_occupant (after (occupant_at g q) q (sound.manned q iq' (rw same_occupant at ne)));
  dry = λ q iq ne.
      (Puts-occupant_at p q).1 ∙ sound.dry q (rw p.env at iq) (rw (Puts-occupant_at p q).0 at ne);
}
  where
    before : (j : ℕ) (q : Vec2) → Lives h j q → Lives g j q
    before j q l = elim (Bool-cases (i == j)) [
      | inl e ↦ record {
        tank = old;
        stored = ground (arith, stored);
        alive = life.0 (
            subst (λ (u : Tank). 0 < u.health)
              (self_is i t sound (Puts-IsSized p sound.sized) p.tank j q e l) l.alive);
        place =
            sym place
            ∙ sym (
                ap (λ (u : Tank). u.pos)
                  (self_is i t sound (Puts-IsSized p sound.sized) p.tank j q e l))
            ∙ l.place;
      }
      | inr ne ↦ other_before i t sound (Puts-IsSized p sound.sized) p.tank j q ne l
    ]

    after : (j : ℕ) (q : Vec2) → Lives g j q → Lives h j q
    after j q l = elim (Bool-cases (i == j)) [
      | inl e ↦ record {
        tank = t;
        stored = ground (arith, p.tank j);
        alive = ground (arith, stored, l.stored, l.alive, life);
        place = ground (arith, stored, l.stored, l.place);
      }
      | inr ne ↦ other_after i t sound (Puts-IsSized p sound.sized) p.tank j q ne l
    ]
