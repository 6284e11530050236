-- ===== src/Game/Fire/Occupancy.antt =====
-- `GameInstance::fire_tank` (src/libgame/game-instance.cpp) on a sound instance.
use silent_tanks.Base.{
  ℕ, ◌-◌, ◌<◌, Bool, true, false, ◌==◌, ◌&&◌, if◌then◌else◌, Option, some, ◌≡◌, ◌≢◌, refl, arith,
  ◌∙◌, ap, inl, inr, Bool-cases, sym, subst, get_elem?, get_elem?-lt,
}
use silent_tanks.Game.Types.{
  Vec2, FlatArray, GridCell, Tank, GameInstance, no_occupant, shell_damage,
}
use silent_tanks.Game.Tank.{deal_damage}
use silent_tanks.Game.Grid.{get_tank}
use silent_tanks.Game.Grid.Board.{
  Inside, IsSized, occupant_at, terrain_at, Seats, same, same→≡, set_occupant-Seats,
}
use silent_tanks.Game.Occupancy.{
  Lives, IsSound, Puts, Seats-get_tank, put_tank-Puts, Puts-IsSized, Seats-IsSized,
  Puts-occupant_at, Puts-IsSound, reseat-IsSound, Lives-id,
}
use silent_tanks.Game.Fire.{hit_tank, fire_at, fire_tank, dir_to_vec, shell_distance}
use silent_tanks.Game.Fire.Shot.{
  Shot, Shot-target, Shot-board, Flight, hits, ends, fire_loop-Flight,
}

-- `h` is `g` with one point of damage dealt to tank `o`, which is `u`: it loses one health, and a
-- tank with none left leaves its cell.
pub record Damages (g : GameInstance) (o : ℕ) (u : Tank) (h : GameInstance) : Type 0 where
  pub tank :
      (j : ℕ)
      → get_tank h j ≡ (if o == j then some (record u { health = u.health - 1 }) else get_tank g j)
  pub occupants :
      (r : Vec2)
      → Inside g r
      → occupant_at h r ≡ (if same u.pos r && (u.health == 1) then no_occupant else occupant_at g r)
  pub terrains : (r : Vec2) → Inside g r → terrain_at h r ≡ terrain_at g r
  pub width : h.game_env.width ≡ g.game_env.width
  pub height : h.game_env.height ≡ g.game_env.height
  pub players : h.players ≡ g.players
  pub mask : h.placement_mask ≡ g.placement_mask
  pub num_players : h.num_players ≡ g.num_players
  pub num_tanks : h.num_tanks ≡ g.num_tanks
  pub sized : IsSized h

Puts-Damages :
    {g h : GameInstance} (o : ℕ) (u : Tank)
    → IsSized g
    → (u.health == 1) ≡ false
    → Puts g o (record u { health = u.health - 1 }) h
    → Damages g o u h
Puts-Damages o u sized more p = record {
  tank = p.tank;
  occupants = λ r ir. (Puts-occupant_at p r).0 ∙ ground arith;
  terrains = λ r ir. (Puts-occupant_at p r).1;
  width = ap (λ (e : FlatArray GridCell). e.width) p.env;
  height = ap (λ (e : FlatArray GridCell). e.height) p.env;
  players = p.players;
  mask = p.mask;
  num_players = p.num_players;
  num_tanks = p.num_tanks;
  sized = Puts-IsSized p sized;
}

Seats-Damages :
    {g g1 h : GameInstance} (o : ℕ) (u : Tank)
    → IsSized g
    → (u.health == 1) ≡ true
    → Puts g o (record u { health = u.health - 1 }) g1
    → Seats g1 u.pos no_occupant h
    → Damages g o u h
Seats-Damages {g} {g1} {h} o u sized last p s = record {
  tank = λ j. Seats-get_tank s j ∙ p.tank j;
  occupants = λ r ir.
      let i1 : Inside g1 r = rw p.env ir in
      ground (arith, s.occupants r i1, (Puts-occupant_at p r).0);
  terrains =
      λ r ir. let i1 : Inside g1 r = rw p.env ir in s.terrains r i1 ∙ (Puts-occupant_at p r).1;
  width = s.width ∙ ap (λ (e : FlatArray GridCell). e.width) p.env;
  height = s.height ∙ ap (λ (e : FlatArray GridCell). e.height) p.env;
  players = s.players ∙ p.players;
  mask = s.mask ∙ p.mask;
  num_players = s.num_players ∙ p.num_players;
  num_tanks = s.num_tanks ∙ p.num_tanks;
  sized = Seats-IsSized s (Puts-IsSized p sized);
}

Damages-IsSound :
    {g h : GameInstance} (o : ℕ) (u : Tank)
    → IsSound g
    → get_tank g o ≡ some u
    → 0 < u.health
    → (u.health == 1) ≡ true
    → Damages g o u h
    → IsSound h
Damages-IsSound {g} {h} o u sound stored alive last d =
    reseat-IsSound o (record u { health = u.health - 1 }) sound d.sized d.tank (same u.pos)
      (λ q. false) (λ q iq. ground (arith, d.occupants q iq)) d.terrains d.width d.height
      (λ p ip _ gone here.
        let l : Lives g o p =
          subst (λ i. Lives g i p) here
            (sound.manned p ip (λ e. ground (arith, Lives-id sound.sized mine))) in
        ground (arith, l.stored, l.place))
      (λ p ip either. ground (arith, same→≡ u.pos p, (sound.seated o u.pos mine).1))
      (λ still. absurd (ground arith)) (λ p never. cc)
  where
    mine : Lives g o u.pos
    mine = record { tank = u; stored = stored; alive = alive; place = refl }

-- A hit on a living tank does not fault, deals the damage, and keeps the instance sound.
pub hit_tank-Damages :
    (g : GameInstance) (o : ℕ) (u : Tank)
    → IsSound g
    → get_tank g o ≡ some u
    → 0 < u.health
    → (h : GameInstance) × (hit_tank g o u ≡ some h) × Damages g o u h × IsSound h
unfolding hit_tank deal_damage
hit_tank-Damages g o u sound stored alive =
    let at : Inside g u.pos =
      (sound.seated o u.pos
        (record { tank = u; stored = stored; alive = alive; place = refl })).0 in
    let weaker : Tank = record u { health = u.health - 1 } in
    let (g1, e1, p1) = put_tank-Puts g o u weaker stored in
    let dealt : deal_damage u shell_damage ≡ weaker = ground arith in
    elim (Bool-cases (u.health == 1)) [
      | inl last ↦
          let (g2, e2, p2) =
            set_occupant-Seats g1 (Puts-IsSized p1 sound.sized) u.pos (rw p1.env at) no_occupant in
          let d = Seats-Damages o u sound.sized last p1 p2 in
          (g2, rw (dealt, e1) (ground arith), d, Damages-IsSound o u sound stored alive last d)
      | inr more ↦ (
        g1,
        rw (dealt, e1) (ground arith),
        Puts-Damages o u sound.sized more p1,
        Puts-IsSound o u weaker sound stored refl (ground arith) p1,
      )
    ]

-- What `fire_tank` does for a living tank `t` of a sound instance `g`. In each case `u` is `g` with
-- the shell of the tank expended.
pub data Fires (g : GameInstance) (id : ℕ) (t : Tank) (r : Option (Bool × GameInstance))
    : Type 0 where
  -- The shell reaches no tank.
  misses :
      (u : GameInstance)
      → ((q : Vec2) → ¬ Shot g t.barrel_direction t.pos (shell_distance t.barrel_direction) q)
      → Puts g id (record t { loaded = false }) u
      → IsSound u
      → r ≡ some (false, u)
      → Fires g id t r
  -- It reaches a tank of the same owner, which takes no damage.
  spares :
      (u : GameInstance) (q : Vec2) (friend : Tank)
      → Shot g t.barrel_direction t.pos (shell_distance t.barrel_direction) q
      → get_tank u (occupant_at g q) ≡ some friend
      → friend.owner ≡ t.owner
      → Puts g id (record t { loaded = false }) u
      → IsSound u
      → r ≡ some (false, u)
      → Fires g id t r
  -- It reaches a living tank of another owner, at the place where that tank stands.
  damages :
      (u h : GameInstance) (q : Vec2) (foe : Tank)
      → Shot g t.barrel_direction t.pos (shell_distance t.barrel_direction) q
      → get_tank u (occupant_at g q) ≡ some foe
      → foe.pos ≡ q
      → foe.owner ≢ t.owner
      → Puts g id (record t { loaded = false }) u
      → Damages u (occupant_at g q) foe h
      → IsSound h
      → r ≡ some (true, h)
      → Fires g id t r

module _ (g u : GameInstance) (id : ℕ) (t : Tank) (p : Puts g id (record t { loaded = false }) u)
    (sound : IsSound u) where
  fire_at-Fires :
      (q : Vec2)
      → Shot g t.barrel_direction t.pos (shell_distance t.barrel_direction) q
      → Fires g id t (fire_at u t.owner (occupant_at u q))
  unfolding fire_at
  fire_at-Fires q shot =
      let same_occupant = (Puts-occupant_at p q).0 in
      let (iq, taken) = Shot-target g t.barrel_direction q shot in
      let l = sound.manned q (rw p.env iq) (rw same_occupant taken) in
      let (h, e, d, sound') = hit_tank-Damages u (occupant_at u q) l.tank sound l.stored l.alive in
      elim (Bool-cases (l.tank.owner == t.owner)) [
        | inl friendly ↦
            rw (l.stored, friendly)
              (spares u q l.tank shot (rw same_occupant at l.stored) (ground arith) p sound refl)
        | inr hostile ↦
            rw (l.stored, hostile, e)
              (damages u h q l.tank shot (rw same_occupant at l.stored) l.place (ground arith) p
                (rw same_occupant at d) sound' refl)
      ]

  fire_loop-Fires :
      (r : Option (Bool × GameInstance))
      → Flight u t.barrel_direction t.pos
          (shell_distance t.barrel_direction)
          (fire_at u t.owner)
          (some (false, u))
          r
      → Fires g id t r
  fire_loop-Fires r (hits q shot e) =
      rw e (fire_at-Fires q (Shot-board u g t.barrel_direction (sym p.env) shot))
  fire_loop-Fires r (ends none_shot e) =
      misses u (λ q shot. none_shot q (Shot-board g u t.barrel_direction p.env shot)) p sound e

pub dir_to_vec-lt : (dir : ℕ) → dir < 8 → (d : Vec2) × (get_elem? dir_to_vec dir ≡ some d)
dir_to_vec-lt dir h = get_elem?-lt dir_to_vec dir h

-- On a sound instance, `fire_tank` of a living tank whose barrel has a direction of the compass
-- never faults, expends the shell, and keeps the instance sound. It returns true exactly when the
-- first occupied cell in range, with no mountain before it, holds a tank of another owner, which
-- then loses one health and, with none left, its cell.
pub fire_tank-Fires :
    (g : GameInstance) (id : ℕ) (t : Tank)
    → IsSound g
    → get_tank g id ≡ some t
    → 0 < t.health
    → t.barrel_direction < 8
    → Fires g id t (fire_tank g id)
unfolding fire_tank
fire_tank-Fires g id t sound stored alive aimed =
    let at : Inside g t.pos =
      (sound.seated id t.pos
        (record { tank = t; stored = stored; alive = alive; place = refl })).0 in
    let (d, vector) = dir_to_vec-lt t.barrel_direction aimed in
    let (u, e, p) = put_tank-Puts g id t (record t { loaded = false }) stored in
    let sound' =
      Puts-IsSound id t (record t { loaded = false }) sound stored refl (ground arith) p in
    rw (stored, vector, e)
      (fire_loop-Fires g u id t p sound' _
        (fire_loop-Flight u sound'.sized t.barrel_direction d vector t.owner _ t.pos (rw p.env at)))
