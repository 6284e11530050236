-- ===== src/Game/Fire/Replay.antt =====
-- `replay_fire_tank` against `fire_tank` (src/libgame/game-instance.cpp).
use silent_tanks.Base.{
  ℕ, ◌<◌, Bool, true, false, ◌==◌, Option, some, ◌≡◌, refl, arith, inl, inr, Bool-cases, sym, subst,
  ◌∷◌, [], ap, ◌∙◌,
}
use silent_tanks.Game.Types.{Vec2, Tank, GameInstance, MoveStatus}
use silent_tanks.Game.Grid.{get_tank}
use silent_tanks.Game.Grid.Board.{IsSized, occupant_at}
use silent_tanks.Game.Occupancy.{IsSound, Puts, put_tank-Puts, Puts-IsSound}
use silent_tanks.Game.Fire.{
  fire_at, replay_fire_at, fire_tank, replay_fire_tank, shell_distance, miss,
}
use silent_tanks.Game.Fire.Shot.{
  Follows-unique, Shot, lands, flies, Flight, hits, ends, Shot-target, Shot-board, fire_loop-Flight,
  replay_fire_loop-Flight,
}
use silent_tanks.Game.Fire.Occupancy.{Damages, hit_tank-Damages, dir_to_vec-lt}

-- A shell reaches one cell at most.
Shot-unique :
    (g : GameInstance) (dir : ℕ) (sized : IsSized g) {p : Vec2} {n : ℕ} (q r : Vec2)
    → Shot g dir p n q
    → Shot g dir p n r
    → q ≡ r
Shot-unique g dir sized {p} q r (lands _ f o) (lands _ f' o') =
    Follows-unique g dir sized p q r f f'.column f'.row
Shot-unique g dir sized {p} q r (lands _ f o) (flies s f' o' t) =
    absurd (o (ap (occupant_at g) (Follows-unique g dir sized p q s f f'.column f'.row) ∙ o'))
Shot-unique g dir sized {p} q r (flies s f o t) (lands _ f' o') =
    absurd (o' (ap (occupant_at g) (Follows-unique g dir sized p r s f' f.column f.row) ∙ o))
Shot-unique g dir sized {p} q r (flies {n = n} s f o t) (flies s' f' o' t') =
    Shot-unique g dir sized q r
      (subst (λ v. Shot g dir v n q) (Follows-unique g dir sized p s s' f f'.column f'.row) t) t'

-- What a shot of tank `id`, which is `t`, and its replay return.
pub data Replays (g : GameInstance) (id : ℕ) (t : Tank) (fired : Option (Bool × GameInstance))
    (replayed : Option (MoveStatus × GameInstance)) : Type 0 where
  alike :
      (status : MoveStatus) (h : GameInstance)
      → fired ≡ some (status.success, h)
      → replayed ≡ some (status, h)
      → Replays g id t fired replayed
  friendly_fire :
      (u h : GameInstance) (q : Vec2) (hit : Tank)
      → Shot g t.barrel_direction t.pos (shell_distance t.barrel_direction) q
      → get_tank u (occupant_at u q) ≡ some hit
      → hit.owner ≡ t.owner
      → Puts g id (record t { loaded = false }) u
      → fired ≡ some (false, u)
      → Damages u (occupant_at u q) hit h
      → replayed ≡ some (record { success = true; hits = hit.pos ∷ [] }, h)
      → Replays g id t fired replayed

module _ (g u : GameInstance) (id : ℕ) (t : Tank) (p : Puts g id (record t { loaded = false }) u)
    (sound : IsSound u) where
  hit_Replays :
      (q : Vec2)
      → Shot u t.barrel_direction t.pos (shell_distance t.barrel_direction) q
      → Replays g id t (fire_at u t.owner (occupant_at u q)) (replay_fire_at u (occupant_at u q))
  unfolding fire_at replay_fire_at
  hit_Replays q shot =
      let (iq, taken) = Shot-target u t.barrel_direction q shot in
      let l = sound.manned q iq taken in
      let (h, e, d, _) = hit_tank-Damages u (occupant_at u q) l.tank sound l.stored l.alive in
      elim (Bool-cases (l.tank.owner == t.owner)) [
        | inl friendly ↦
            rw (l.stored, friendly, e)
              (friendly_fire u h q l.tank (Shot-board u g t.barrel_direction (sym p.env) shot)
                l.stored (ground arith) p refl d refl)
        | inr hostile ↦
            rw (l.stored, hostile, e)
              (alike (record { success = true; hits = l.tank.pos ∷ [] }) h refl refl)
      ]

  loops_Replays :
      (fired : Option (Bool × GameInstance)) (replayed : Option (MoveStatus × GameInstance))
      → Flight u t.barrel_direction t.pos
          (shell_distance t.barrel_direction)
          (fire_at u t.owner)
          (some (false, u))
          fired
      → Flight u t.barrel_direction t.pos
          (shell_distance t.barrel_direction)
          (replay_fire_at u)
          (some (miss, u))
          replayed
      → Replays g id t fired replayed
  loops_Replays fired replayed (hits q s e) (hits r s' e') =
      let same : r ≡ q = Shot-unique u t.barrel_direction sound.sized r q s' s in
      rw (e, e' ∙ ap (λ v. replay_fire_at u (occupant_at u v)) same) (hit_Replays q s)
  loops_Replays fired replayed (hits q s e) (ends never e') = absurd (never q s)
  loops_Replays fired replayed (ends never e) (hits r s' e') = absurd (never r s')
  loops_Replays fired replayed (ends never e) (ends never' e') = alike miss u e e'

-- On a sound instance, for a living tank whose barrel has a direction of the compass, the replay of
-- a shot has the same outcome and the same final instance as the shot, unless the first occupied
-- cell in range holds a tank of the same owner: then `fire_tank` returns false and changes nothing
-- but the loaded flag, and `replay_fire_tank` returns success and damages that tank.
pub replay_fire_tank-Replays :
    (g : GameInstance) (id : ℕ) (t : Tank)
    → IsSound g
    → get_tank g id ≡ some t
    → 0 < t.health
    → t.barrel_direction < 8
    → Replays g id t (fire_tank g id) (replay_fire_tank g id)
unfolding fire_tank replay_fire_tank
replay_fire_tank-Replays g id t sound stored alive aimed =
    let at =
      (sound.seated id t.pos
        (record { tank = t; stored = stored; alive = alive; place = refl })).0 in
    let (d, vector) = dir_to_vec-lt t.barrel_direction aimed in
    let (u, e, p) = put_tank-Puts g id t (record t { loaded = false }) stored in
    let sound' =
      Puts-IsSound id t (record t { loaded = false }) sound stored refl (ground arith) p in
    rw (stored, vector, e)
      (loops_Replays g u id t p sound' _ _
        (fire_loop-Flight u sound'.sized t.barrel_direction d vector t.owner _ t.pos (rw p.env at))
        (replay_fire_loop-Flight u sound'.sized t.barrel_direction d vector _ t.pos (rw p.env at)))
