-- ===== src/Game/Placement/Initial.antt =====
-- A game instance as its constructors leave it (src/libgame/game-instance.cpp).
use silent_tanks.Base.{
  ℕ, zero, suc, ◌+◌, ◌*◌, ◌<◌, ◌≤◌, ◌≡◌, some, length, get_elem?, refl, arith, ◌∙◌, ap,
  lt-get_elem?, Option-cases, length-replicate, get_elem?-replicate, inl, inr, sym, subst, some_inj,
}
use silent_tanks.Game.Types.{Vec2, GridCell, Tank, Player, GameMap, no_occupant, no_tank}
use silent_tanks.Game.Tank.{empty_tank}
use silent_tanks.Game.Grid.{get_tank, get_player, cell_at}
use silent_tanks.Game.Grid.Board.{IsSized, occupant_at}
use silent_tanks.Game.Occupancy.{Lives, IsSound}
use silent_tanks.Game.Roster.{Enlisted, IsRostered}
use silent_tanks.Game.Placement.{new_player, new_players, from_map}

-- A map whose vectors fit its settings, with no tanks on it and room for their numbers.
pub record IsMap (m : GameMap) : Type 0 where
  pub width : m.env.width ≡ m.map_settings.width
  pub height : m.env.height ≡ m.map_settings.height
  pub width_u8 : m.map_settings.width ≤ 255
  pub height_u8 : m.map_settings.height ≤ 255
  pub cells : length m.env.array ≡ m.map_settings.width * m.map_settings.height
  pub mask : length m.mask ≡ m.map_settings.width * m.map_settings.height
  pub ids : m.map_settings.num_players * m.map_settings.num_tanks ≤ 255
  pub vacant : (i : ℕ) (c : GridCell) → get_elem? m.env.array i ≡ some c → c.occupant ≡ no_occupant

length-new_players : (n i left : ℕ) → length (new_players n i left) ≡ left
unfolding new_players
length-new_players n i zero = refl
length-new_players n i (suc left) = ap suc (length-new_players n (i + 1) left)

get_elem?-new_players :
    (n i left k : ℕ) → k < left → get_elem? (new_players n i left) k ≡ some (new_player n (i + k))
unfolding new_players
get_elem?-new_players n i zero k h = absurd (omega arith)
get_elem?-new_players n i (suc left) zero h = ap (λ j. some (new_player n j)) (omega arith)
get_elem?-new_players n i (suc left) (suc k) h =
    get_elem?-new_players n (i + 1) left k (omega arith)
    ∙ ap (λ j. some (new_player n j)) (omega arith)

in_block : (n k i c : ℕ) → k < c → i < n → i + k * n < c * n
in_block n k i c hk hi = grind arith

module _ (m : GameMap) (unset : ℕ) (is_map : IsMap m) where
  from_map-IsSized : IsSized (from_map m unset)
  unfolding from_map
  from_map-IsSized = record {
    width_u8 = omega (arith, is_map.width, is_map.width_u8);
    height_u8 = omega (arith, is_map.height, is_map.height_u8);
    cells = rw (is_map.width, is_map.height) is_map.cells;
    mask = rw (is_map.width, is_map.height) is_map.mask;
    tanks = length-replicate _ _;
    ids = rw length-replicate is_map.ids;
    players = length-new_players _ _ _;
  }

  vacant_at : (p : Vec2) → occupant_at (from_map m unset) p ≡ no_occupant
  unfolding occupant_at cell_at from_map
  vacant_at p = elim (Option-cases (get_elem? m.env.array (p.x + m.env.width * p.y))) [
    | inl e ↦ rw e
    | inr (c, e) ↦ rw e (is_map.vacant _ c e)
  ]

  every_tank : (i : ℕ) (t : Tank) → get_tank (from_map m unset) i ≡ some t → t ≡ empty_tank unset
  unfolding get_tank from_map
  every_tank i t e = some_inj (
      sym e
      ∙ get_elem?-replicate _ i (empty_tank unset) (rw length-replicate at (lt-get_elem? _ i t e)))

  -- A new instance on a map is sound.
  pub from_map-IsSound : IsSound (from_map m unset)
  unfolding empty_tank
  from_map-IsSound = record {
    sized = from_map-IsSized;
    seated = λ i p l. absurd (ground (arith, every_tank i l.tank l.stored, l.alive));
    manned = λ p ip ne. absurd (ne (vacant_at p));
    dry = λ p ip ne. absurd (ne (vacant_at p));
  }

  spare_tank :
      (n k i : ℕ)
      → n ≡ m.map_settings.num_tanks
      → k < m.map_settings.num_players
      → i < n
      → get_tank (from_map m unset) (i + k * n) ≡ some (empty_tank unset)
  unfolding get_tank from_map
  spare_tank n k i e hk hi =
      get_elem?-replicate (m.map_settings.num_players * m.map_settings.num_tanks) (i + k * n)
        (empty_tank unset) (rw (← e) (in_block n k i _ hk hi))

  from_map-Enlisted :
      (k : ℕ) (p : Player)
      → get_player (from_map m unset) k ≡ some p
      → Enlisted (from_map m unset) m.map_settings.num_tanks k p
  unfolding get_player from_map new_player
  from_map-Enlisted k p e =
      let n = m.map_settings.num_tanks in
      let lt : k < m.map_settings.num_players = rw length-new_players at (lt-get_elem? _ k p e) in
      let same_p : new_player n k ≡ p =
        ap (new_player n) (omega arith) ∙ some_inj (sym (get_elem?-new_players n 0 _ k lt) ∙ e) in
      subst (Enlisted (from_map m unset) n k) same_p (record {
        slots = length-replicate n _;
        within = omega arith;
        listed = λ i h. absurd (omega arith);
        unlisted = λ i _ h. get_elem?-replicate n i no_tank h;
        placed = λ i h. absurd (omega arith);
        spare = λ i _ h. (empty_tank unset, spare_tank n k i refl lt h, unfold empty_tank in refl);
      })

  pub from_map-IsRostered : IsRostered (from_map m unset)
  unfolding from_map empty_tank
  from_map-IsRostered = record {
    enlisted = from_map-Enlisted;
    headed = λ j t e. ground (arith, every_tank j t e);
  }

-- On a map whose vectors fit its settings, with no tanks on it and at most 255 tank numbers, the
-- constructor of a game instance gives a sound instance with its roster in order, where every player
-- has all tanks left to place and no tank lives.
pub from_map_lem :
    (m : GameMap) (unset : ℕ)
    → IsMap m
    → IsSound (from_map m unset)
      × IsRostered (from_map m unset)
      × ((k : ℕ)
          → k < m.map_settings.num_players
          → get_player (from_map m unset) k ≡ some (new_player m.map_settings.num_tanks k))
      × ((i : ℕ) (p : Vec2) → ¬ Lives (from_map m unset) i p)
unfolding from_map empty_tank get_player
from_map_lem m unset is_map = (
  from_map-IsSound m unset is_map,
  from_map-IsRostered m unset is_map,
  λ k lt.
      get_elem?-new_players m.map_settings.num_tanks 0 m.map_settings.num_players k lt
      ∙ ap (λ j. some (new_player m.map_settings.num_tanks j)) (omega arith),
  λ i p l. ground (arith, every_tank m unset is_map i l.tank l.stored, l.alive),
)
