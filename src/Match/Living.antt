-- ===== src/Match/Living.antt =====
-- The count of the living tanks of a player by which `MatchInstance::compute_all_views`
-- (src/server/match-instance.cpp) eliminates players.
use silent_tanks.Base.{
  ℕ, zero, suc, ◌+◌, ◌*◌, ◌<◌, ◌≤◌, ◌≡◌, false, ltb, ◌==◌, if◌then◌else◌, Option, none, some, arith,
  ◌∙◌, ap, inl, inr, Bool-cases, add8, ltb→lt, ◌-◌,
}
use silent_tanks.Game.Types.{Tank, Player, GameInstance, no_tank}
use silent_tanks.Game.Grid.{get_tank, get_player}
use silent_tanks.Game.Occupancy.{IsSound, get_tank-lt}
use silent_tanks.Game.Roster.{Enlisted, IsRostered}
use silent_tanks.Match.Types.{ok}
use silent_tanks.Match.Views.{count_live, live_tanks}

abbrev lives_in : Option Tank → ℕ
lives_in none = 0
lives_in (some t) = if t.health == 0 then 0 else 1

-- How many of the `count` tanks from number `first` on live.
abbrev pub living : GameInstance → ℕ → ℕ → ℕ
living g first zero = 0
living g first (suc count) = lives_in (get_tank g first) + living g (first + 1) count

module _ (g : GameInstance) (k n : ℕ) (p : Player) (sound : IsSound g) (e : Enlisted g n k p) where
  -- A number of the player is that of a tank.
  number : (i : ℕ) → i < n → (t : Tank) × (get_tank g (i + k * n) ≡ some t)
  number i lt = elim (Bool-cases (ltb i p.tanks_placed)) [
    | inl used ↦ let (t, st, _) = e.placed i (ltb→lt _ _ used) in (t, st)
    | inr free ↦ let (t, st, _) = e.spare i (ground arith) lt in (t, st)
  ]

  number-lt : (i : ℕ) → i < n → i + k * n < 255
  number-lt i lt = let (t, st) = number i lt in omega (arith, get_tank-lt g _ t st, sound.sized.ids)

  -- The count of the tanks after tank `i`.
  abbrev Rest : ℕ → ℕ → Type 0
  Rest i left =
      (live' : ℕ)
      → live' + left ≤ 255
      → count_live g p (i + 1) left live' ≡ ok (live' + living g (i + 1 + k * n) left)

  next :
      (i left live live' c : ℕ)
      → Rest i left
      → live' ≡ live + c
      → live' + left ≤ 255
      → count_live g p (i + 1) left live' ≡ ok (live + (c + living g (i + k * n + 1) left))
  next i left live live' c rest same few =
      let shift : i + 1 + k * n ≡ i + k * n + 1 = omega arith in
      rest live' few ∙ ap ok (omega (arith, same, ap (λ b. living g b left) shift))

  counted :
      (i left live : ℕ) (t : Tank)
      → Rest i left
      → live + suc left ≤ 255
      → count_live g p (i + 1) left (if t.health == 0 then live else add8 live 1)
        ≡ ok (live + ((if t.health == 0 then 0 else 1) + living g (i + k * n + 1) left))
  counted i left live t rest room = elim (Bool-cases (t.health == 0)) [
    | inl dead ↦ rw dead (next i left live live 0 rest (omega arith) (omega (arith, room)))
    | inr alive ↦
        rw alive (next i left live (add8 live 1) 1 rest (omega (arith, room)) (omega (arith, room)))
  ]

  count_live-living :
      (i left live : ℕ)
      → i + left ≡ n
      → live + left ≤ 255
      → count_live g p i left live ≡ ok (live + living g (i + k * n) left)
  unfolding count_live
  count_live-living i zero live all room = ap ok (omega arith)
  count_live-living i (suc left) live all room = elim (Bool-cases (ltb i p.tanks_placed)) [
    | inl used ↦
        let (t, st, _) = e.placed i (ltb→lt _ _ used) in
        let real : ((i + k * n) == no_tank) ≡ false =
          ground (arith, number-lt i (omega (arith, all))) in
        rw (e.listed i (ltb→lt _ _ used), real, st)
          (counted i left live t
            (λ live'. count_live-living (i + 1) left live' (omega (arith, all))) room)
    | inr free ↦
        let (t, st, dead) = e.spare i (ground arith) (omega (arith, all)) in
        rw (e.unlisted i (ground arith) (omega (arith, all)), st, dead)
          (next i left live live 0
            (λ live'. count_live-living (i + 1) left live' (omega (arith, all))) (omega arith)
            (omega (arith, room)))
  ]

-- On a sound instance with its roster in order, the count that `compute_view` makes for a player does
-- not fault and does not wrap around: it is how many of the tanks with the numbers of the player live.
pub live_tanks-living :
    (g : GameInstance) (k : ℕ) (p : Player)
    → IsSound g
    → IsRostered g
    → get_player g k ≡ some p
    → live_tanks g k ≡ ok (living g (k * g.num_tanks) g.num_tanks)
unfolding live_tanks
live_tanks-living g k p sound rostered had =
    let e = rostered.enlisted k p had in
    let start : 0 + k * g.num_tanks ≡ k * g.num_tanks = omega arith in
    rw had (
      count_live-living g k g.num_tanks p sound e 0 g.num_tanks 0 (omega arith) (room e)
      ∙ ap ok (omega arith)
      ∙ ap ok (ap (λ b. living g b g.num_tanks) start))
  where
    room : Enlisted g g.num_tanks k p → 0 + g.num_tanks ≤ 255
    room e = elim (Bool-cases (ltb 0 g.num_tanks)) [
      | inl some_tanks ↦
          omega (
            arith,
            number-lt g k g.num_tanks p sound e (g.num_tanks - 1) (ground arith),
            some_tanks,
          )
      | inr no_tanks ↦ ground (arith, no_tanks)
    ]
