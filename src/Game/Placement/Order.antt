-- ===== src/Game/Placement/Order.antt =====
-- A placement by `GameInstance::place_tank` (src/libgame/game-instance.cpp) keeps the instance sound
-- and its roster in order.
use silent_tanks.Base.{
  ℕ, ◌+◌, ◌*◌, ◌<◌, ◌≡◌, ◌≢◌, some, refl, arith, ◌∙◌, set, length-set, get_elem?-set, ◌==◌, false,
  subst, Bool-cases, sym, inl, inr,
}
use silent_tanks.Game.Types.{Vec2, Tank, Player, GameInstance, no_occupant}
use silent_tanks.Game.Grid.{get_tank, get_player}
use silent_tanks.Game.Grid.Board.{Inside, occupant_at, terrain_at, same, same→≡}
use silent_tanks.Game.Occupancy.{Lives, IsSound, get_tank-lt, reseat-IsSound}
use silent_tanks.Game.Roster.{Enlisted, IsRostered}
use silent_tanks.Game.Placement.{place_tank, placed_tank}
use silent_tanks.Game.Placement.Enrolment.{Enrols, place_tank-Enrols}

-- A tank placed on a free cell leaves the instance sound.
Enrols-IsSound :
    {g h : GameInstance} (k id : ℕ) (q : Vec2) (dir : ℕ)
    → IsSound g
    → Inside g q
    → occupant_at g q ≡ no_occupant
    → terrain_at g q ≡ false
    → ((t : Tank) → get_tank g id ≡ some t → t.health ≡ 0)
    → Enrols g k id q dir h
    → IsSound h
Enrols-IsSound {g} {h} k id q dir sound inside free low dead e =
    reseat-IsSound id (placed_tank e.before q k 3 id dir) sound e.sized e.tank (λ r. false) (same q)
      (λ r ir. ground (arith, e.occupants r ir)) e.terrains e.width e.height
      (λ r ir _ _ here.
        let taken : occupant_at g r ≢ no_occupant =
          λ none_there. ground (arith, get_tank-lt g id e.before e.was, sound.sized.ids) in
        let l : Lives g id r = subst (λ o. Lives g o r) here (sound.manned r ir taken) in
        omega (arith, dead l.tank l.stored, l.alive))
      (λ r ir either. ground (arith, same→≡ q r, free)) (λ _. (inside, ground arith))
      (λ r taken. (omega arith, same→≡ q r taken, ground (arith, same→≡ q r, low)))

id-lt-id : (n i j i' j' : ℕ) → i < n → j < j' → i + j * n < i' + j' * n
id-lt-id n i j i' j' h l = grind arith

-- Tanks of different players have different numbers.
id_inj : (n i j i' j' : ℕ) → i < n → i' < n → i + j * n ≡ i' + j' * n → j ≡ j'
id_inj n i j i' j' h h' e = ground (arith, id-lt-id n i j i' j', id-lt-id n i' j' i j)

module _ {g h : GameInstance} (k : ℕ) (q : Vec2) (dir : ℕ) (p : Player) (rostered : IsRostered g)
    (had : get_player g k ≡ some p) (room : p.tanks_placed < g.num_tanks)
    (e : Enrols g k (p.tanks_placed + k * g.num_tanks) q dir h) where
  kept :
      (i j : ℕ) (t : Tank)
      → ((p.tanks_placed + k * g.num_tanks) == (i + j * g.num_tanks)) ≡ false
      → get_tank g (i + j * g.num_tanks) ≡ some t
      → get_tank h (i + j * g.num_tanks) ≡ some t
  kept i j t ne st = ground (arith, e.tank (i + j * g.num_tanks))

  other_player :
      (j : ℕ) (r : Player) → (k == j) ≡ false → get_player g j ≡ some r → Enlisted h g.num_tanks j r
  other_player j r ne had' =
      let old = rostered.enlisted j r had' in
      record {
        slots = old.slots;
        within = old.within;
        listed = old.listed;
        unlisted = old.unlisted;
        placed = λ i lt.
            let (t, st, o) = old.placed i lt in
            (t, kept i j t (apart i (omega (arith, old.within))) st, o);
        spare = λ i le lt. let (t, st, o) = old.spare i le lt in (t, kept i j t (apart i lt) st, o);
      }
    where
      apart :
          (i : ℕ)
          → i < g.num_tanks
          → ((p.tanks_placed + k * g.num_tanks) == (i + j * g.num_tanks)) ≡ false
      apart i lt = ground (arith, id_inj g.num_tanks p.tanks_placed k i j room lt)

  promoted : Player
  promoted = record p {
    tanks_placed = p.tanks_placed + 1;
    owned_tank_ids = set p.owned_tank_ids p.tanks_placed (p.tanks_placed + k * g.num_tanks);
  }

  same_player : Enlisted h g.num_tanks k promoted
  unfolding promoted
  same_player =
      let old = rostered.enlisted k p had in
      let id' = p.tanks_placed + k * g.num_tanks in
      record {
        slots = length-set p.owned_tank_ids p.tanks_placed id' ∙ old.slots;
        within = omega arith;
        listed = λ i lt. elim (Bool-cases (p.tanks_placed == i)) [
          | inl here ↦
              ground (arith, get_elem?-set p.owned_tank_ids p.tanks_placed i id', old.slots)
          | inr there ↦
              ground (
                arith,
                get_elem?-set p.owned_tank_ids p.tanks_placed i id',
                old.slots,
                old.listed i,
              )
        ];
        unlisted = λ i le lt.
            ground (
              arith,
              get_elem?-set p.owned_tank_ids p.tanks_placed i id',
              old.slots,
              old.unlisted i,
            );
        placed = λ i lt. elim (Bool-cases (p.tanks_placed == i)) [
          | inl here ↦ (
            placed_tank e.before q k 3 id' dir,
            ground (arith, e.tank (i + k * g.num_tanks)),
            refl,
          )
          | inr there ↦
              let (t, st, o) = old.placed i (ground arith) in (t, kept i k t (ground arith) st, o)
        ];
        spare = λ i le lt.
            let (t, st, o) = old.spare i (omega arith) lt in (t, kept i k t (ground arith) st, o);
      }

  Enrols-IsRostered : dir < 8 → IsRostered h
  unfolding promoted
  Enrols-IsRostered compass = record {
    enlisted = λ j r st.
        subst (λ n. Enlisted h n j r) (sym e.num_tanks)
          (elim (Bool-cases (k == j)) [
            | inl here ↦
                let same_p : e.player ≡ p = ground (arith, e.had) in
                let same_r : promoted ≡ r = ground (arith, e.players j, same_p) in
                let same_k : k ≡ j = ground arith in
                subst (λ x. Enlisted h g.num_tanks j x) same_r
                  (subst (λ x. Enlisted h g.num_tanks x promoted) same_k same_player)
            | inr there ↦ other_player j r there (ground (arith, e.players j))
          ]);
    headed = λ j t st. elim (Bool-cases ((p.tanks_placed + k * g.num_tanks) == j)) [
      | inl here ↦ ground (arith, e.tank j)
      | inr there ↦ rostered.headed j t (ground (arith, e.tank j))
    ];
  }

-- On a sound instance, placing the next tank of a player who has one left, on a free cell of the
-- board that is no mountain and in a direction of the compass, does not fault, changes that tank,
-- that cell and that player alone, and keeps the instance sound and its roster in order.
pub place_tank_lem :
    (g : GameInstance) (pos : Vec2) (k dir : ℕ) (p : Player)
    → IsSound g
    → IsRostered g
    → get_player g k ≡ some p
    → p.tanks_placed < g.num_tanks
    → dir < 8
    → Inside g pos
    → occupant_at g pos ≡ no_occupant
    → terrain_at g pos ≡ false
    → (h : GameInstance) × (place_tank g pos k dir ≡ some h)
      × Enrols g k (p.tanks_placed + k * g.num_tanks) pos dir h
      × IsSound h
      × IsRostered h
place_tank_lem g pos k dir p sound rostered had room compass inside free low =
    let (h, returns, e) = place_tank-Enrols g pos k dir p sound rostered had room inside low in
    let (t, was, dead) = (rostered.enlisted k p had).spare p.tanks_placed (omega arith) room in
    (
      h,
      returns,
      e,
      Enrols-IsSound k _ pos dir sound inside free low (λ u st. ground (arith, was, dead)) e,
      Enrols-IsRostered k pos dir p rostered had room e compass,
    )
