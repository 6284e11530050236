-- ===== src/Matchmaking/Maker/Steps.antt =====
-- The calls and the tasks of the match maker, one after another (src/server/match-maker.cpp).
use silent_tanks.Base.{ℕ, Bool, List, [], ◌∷◌}
use silent_tanks.Matchmaking.Types.{GameMode, Session}
use silent_tanks.Matchmaking.Maker.{
  Maker, Effect, enqueue, cancel, cancel_task, route_impl, send_match_message, forfeit_impl,
  async_shutdown, make_match, take_results,
}

-- The calls and the tasks of the match maker.
pub data MakerTask : Type 0 where
  enqueue_call cancel_call : Session → GameMode → MakerTask
  cancel_posted : Session → Bool → MakerTask
  route_posted forfeit_posted : Session → MakerTask
  message_posted : Session → ℕ → MakerTask
  make_posted : (ℕ → Bool) → Bool → List Session → MakerTask
  results_posted : ℕ → GameMode → List ℕ → MakerTask
  shutdown_posted : MakerTask

unfoldable pub maker_step : Maker → MakerTask → Maker × List Effect
unfolding enqueue cancel cancel_task route_impl forfeit_impl send_match_message make_match
    take_results async_shutdown
maker_step m (enqueue_call p mode) = enqueue m p mode
maker_step m (cancel_call p mode) = cancel m p mode
maker_step m (cancel_posted p called_by_user) = cancel_task m p called_by_user
maker_step m (route_posted p) = route_impl m p
maker_step m (forfeit_posted p) = forfeit_impl m p
maker_step m (message_posted p user_id) = send_match_message m p user_id
maker_step m (make_posted is_live made players) = make_match m is_live made players
maker_step m (results_posted match_id mode user_ids) = take_results m match_id mode user_ids
maker_step m shutdown_posted = async_shutdown m

unfoldable pub maker_run : Maker → List MakerTask → Maker
unfolding maker_step
maker_run m [] = m
maker_run m (t ∷ ts) = maker_run (maker_step m t).0 ts
