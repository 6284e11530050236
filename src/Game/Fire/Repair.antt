-- ===== src/Game/Fire/Repair.antt =====
-- Damage and repair of a tank (src/libgame/tank-entity.cpp), as `repair_tank` of game-instance.cpp
-- beside it uses them to undo a hit.
use silent_tanks.Base.{ℕ, ◌<◌, ◌≡◌, ◌↔◌, arith, ap, ◌∙◌, sym}
use silent_tanks.Game.Types.{Tank, initial_health}
use silent_tanks.Game.Tank.{deal_damage, repair}

-- A repair by a positive amount after any damage does not add the amount: it restores the initial
-- health, whatever the health was, and so undoes the damage exactly for a tank that had the initial
-- health before it.
pub repair-deal_damage :
    (t : Tank) (damage amount : ℕ)
    → 0 < amount
    → (repair (deal_damage t damage) amount ≡ record t { health = initial_health })
      × ((repair (deal_damage t damage) amount ≡ t) ↔ (t.health ≡ initial_health))
unfolding repair deal_damage
repair-deal_damage t damage amount some_amount =
    let full : repair (deal_damage t damage) amount ≡ record t { health = initial_health } =
      ground arith in
    (full, (λ e. ap (λ (u : Tank). u.health) (sym e ∙ full), λ e. full ∙ ground (arith, e)))
