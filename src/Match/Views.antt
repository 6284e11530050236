-- ===== src/Match/Views.antt =====
-- `MatchInstance::compute_all_views` (src/server/match-instance.cpp), and the count of living tanks
-- that `GameInstance::compute_view` (src/libgame/game-instance.cpp) makes for it. What a view shows
-- is not part of this model.
use silent_tanks.Base.{ℕ, zero, suc, ◌+◌, false, ◌==◌, ◌&&◌, not, if◌then◌else◌, add8, sub8}
use silent_tanks.Game.Types.{GameInstance, Player, no_tank}
use silent_tanks.Game.Grid.{get_tank, get_player}
use silent_tanks.Protocol.Header.{eliminated, player_view}
use silent_tanks.Match.Types.{Match, Result, ok, ◌>>=◌, in_range, fetch, store, send_player}
use silent_tanks.Match.Apply.{is_setup}

-- The loop over the tanks of the player, from slot `i` on.
unfoldable pub count_live : GameInstance → Player → ℕ → ℕ → ℕ → Result ℕ
count_live g p i zero live = ok live
count_live g p i (suc left) live = fetch p.owned_tank_ids i >>= λ id.
    if id == no_tank
    then count_live g p (i + 1) left live
    else in_range (get_tank g id) >>= λ tank.
        count_live g p (i + 1) left (if tank.health == 0 then live else add8 live 1)

-- `num_live_tanks` after `compute_view(player_ID, num_live_tanks)`.
unfoldable pub live_tanks : GameInstance → ℕ → Result ℕ
unfolding count_live
live_tanks g player_id = do p ← in_range (get_player g player_id); count_live g p 0 g.num_tanks 0

-- The branch for a player who is found to have no tanks.
unfoldable pub eliminate_empty : Match → ℕ → Result Match
unfolding send_player
eliminate_empty m i = do
  info ← fetch m.players i
  players ← store m.players i (record info { alive = false })
  order ← store m.results.elimination_order i m.elim_counter
  send_player
      (record m {
        remaining_players = sub8 m.remaining_players 1;
        players = players;
        results = record (m.results) { elimination_order = order };
        elim_counter = add8 m.elim_counter 1;
      })
      i eliminated

unfoldable pub view_player : Match → ℕ → Result Match
unfolding eliminate_empty send_player live_tanks
view_player m i = fetch m.players i >>= λ info.
    if not info.alive
    then ok m
    else live_tanks m.game i >>= λ live.
        (if (live == 0) && not (is_setup m.current_state) then eliminate_empty m i else ok m)
        >>= λ m'. send_player m' i player_view

unfoldable pub view_players : Match → ℕ → ℕ → Result Match
view_players m i zero = ok m
view_players m i (suc left) = view_player m i >>= λ m'. view_players m' (i + 1) left

unfoldable pub compute_all_views : Match → Result Match
unfolding view_players
compute_all_views m = view_players m 0 m.n_players
