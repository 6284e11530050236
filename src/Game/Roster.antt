-- ===== src/Game/Roster.antt =====
-- Which tanks belong to a player, and their headings: an invariant of `Player` (src/libgame/player.h)
-- and `Tank` (tank-entity.h) as the game instance uses them.
use silent_tanks.Base.{
  ℕ, ◌+◌, ◌*◌, ◌<◌, ◌≤◌, ◌≡◌, some, length, get_elem?, refl, arith, ◌∙◌, Bool-cases, subst, sym,
  ◌==◌, inl, inr, if◌then◌else◌,
}
use silent_tanks.Game.Types.{Tank, Player, GameInstance, no_tank}
use silent_tanks.Game.Grid.{get_tank, get_player}

-- With `n` tanks to a player, player `k` owns the tanks `k * n` and up, of which the first `tanks_placed` are in use.
pub record Enlisted (g : GameInstance) (n k : ℕ) (p : Player) : Type 0 where
  pub slots : length p.owned_tank_ids ≡ n
  pub within : p.tanks_placed ≤ n
  pub listed : (i : ℕ) → i < p.tanks_placed → get_elem? p.owned_tank_ids i ≡ some (i + k * n)
  pub unlisted : (i : ℕ) → p.tanks_placed ≤ i → i < n → get_elem? p.owned_tank_ids i ≡ some no_tank
  pub placed :
      (i : ℕ) → i < p.tanks_placed → (t : Tank) × (get_tank g (i + k * n) ≡ some t) × (t.owner ≡ k)
  pub spare :
      (i : ℕ)
      → p.tanks_placed ≤ i
      → i < n
      → (t : Tank) × (get_tank g (i + k * n) ≡ some t) × (t.health ≡ 0)

pub record IsRostered (g : GameInstance) : Type 0 where
  pub enlisted : (k : ℕ) (p : Player) → get_player g k ≡ some p → Enlisted g g.num_tanks k p
  pub headed :
      (j : ℕ) (t : Tank)
      → get_tank g j ≡ some t
      → (t.current_direction < 8) × (t.barrel_direction < 8)

-- From `t` to `u` the owner stays, a dead tank stays dead, and the headings stay on the compass.
pub record Serves (t u : Tank) : Type 0 where
  pub owner : u.owner ≡ t.owner
  pub dead : t.health ≡ 0 → u.health ≡ 0
  pub headed :
      (t.current_direction < 8) × (t.barrel_direction < 8)
      → (u.current_direction < 8) × (u.barrel_direction < 8)

-- `h` has the players of `g`, and its tanks serve on.
pub record Keeps (g h : GameInstance) : Type 0 where
  pub players : h.players ≡ g.players
  pub num_tanks : h.num_tanks ≡ g.num_tanks
  pub num_players : h.num_players ≡ g.num_players
  pub tanks :
      (j : ℕ) (t : Tank) → get_tank g j ≡ some t → (u : Tank) × (get_tank h j ≡ some u) × Serves t u
  pub back :
      (j : ℕ) (u : Tank) → get_tank h j ≡ some u → (t : Tank) × (get_tank g j ≡ some t) × Serves t u

Keeps-Enlisted :
    {g h : GameInstance} (n k : ℕ) (p : Player) → Keeps g h → Enlisted g n k p → Enlisted h n k p
Keeps-Enlisted n k p s e = record {
  slots = e.slots;
  within = e.within;
  listed = e.listed;
  unlisted = e.unlisted;
  placed = λ i lt.
      let (t, st, o) = e.placed i lt in let (u, su, v) = s.tanks _ t st in (u, su, v.owner ∙ o);
  spare = λ i le lt.
      let (t, st, o) = e.spare i le lt in let (u, su, v) = s.tanks _ t st in (u, su, v.dead o);
}

pub Keeps-IsRostered : {g h : GameInstance} → Keeps g h → IsRostered g → IsRostered h
unfolding get_player
Keeps-IsRostered {g} {h} s r = record {
  enlisted = λ k p e.
      subst (λ n. Enlisted h n k p) (sym s.num_tanks)
        (Keeps-Enlisted g.num_tanks k p s
          (r.enlisted k p (subst (λ ps. get_elem? ps k ≡ some p) s.players e)));
  headed = λ j u e. let (t, st, v) = s.back j u e in v.headed (r.headed j t st);
}

Serves-refl : (t : Tank) → Serves t t
Serves-refl t = record { owner = refl; dead = λ d. d; headed = λ d. d }

-- One tank is replaced by one that serves on.
pub replace-Keeps :
    {g h : GameInstance} (i : ℕ) (t u : Tank)
    → h.players ≡ g.players
    → h.num_tanks ≡ g.num_tanks
    → h.num_players ≡ g.num_players
    → get_tank g i ≡ some t
    → Serves t u
    → ((j : ℕ) → get_tank h j ≡ (if i == j then some u else get_tank g j))
    → Keeps g h
replace-Keeps i t u players num_tanks num_players stored v tank = record {
  players = players;
  num_tanks = num_tanks;
  num_players = num_players;
  tanks = λ j w e. elim (Bool-cases (i == j)) [
    | inl here ↦ (u, ground (arith, tank j), subst (λ x. Serves x u) (ground arith) v)
    | inr there ↦ (w, ground (arith, tank j), Serves-refl w)
  ];
  back = λ j w e. elim (Bool-cases (i == j)) [
    | inl here ↦ (t, ground arith, subst (λ x. Serves t x) (ground (arith, tank j)) v)
    | inr there ↦ (w, ground (arith, tank j), Serves-refl w)
  ];
}

pub Keeps-refl : (g : GameInstance) → Keeps g g
Keeps-refl g = record {
  players = refl;
  num_tanks = refl;
  num_players = refl;
  tanks = λ j t e. (t, e, Serves-refl t);
  back = λ j u e. (u, e, Serves-refl u);
}

Serves-trans : {t u v : Tank} → Serves t u → Serves u v → Serves t v
Serves-trans a b = record {
  owner = b.owner ∙ a.owner;
  dead = λ d. b.dead (a.dead d);
  headed = λ c. b.headed (a.headed c);
}

pub Keeps-trans : {g h i : GameInstance} → Keeps g h → Keeps h i → Keeps g i
Keeps-trans a b = record {
  players = b.players ∙ a.players;
  num_tanks = b.num_tanks ∙ a.num_tanks;
  num_players = b.num_players ∙ a.num_players;
  tanks = λ j t e.
      let (u, eu, s) = a.tanks j t e in
      let (v, ev, s') = b.tanks j u eu in (v, ev, Serves-trans s s');
  back = λ j v e.
      let (u, eu, s') = b.back j v e in
      let (t, et, s) = a.back j u eu in (t, et, Serves-trans s s');
}
