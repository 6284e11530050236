-- ===== src/Matchmaking/Casual.antt =====
-- The casual strategies of src/server/match-strategy.cpp. `CasualTwoPlayerStrategy`,
-- `CasualThreePlayerStrategy` and `CasualFivePlayerStrategy` are one strategy here, whose argument is
-- the number of players of a match: their code differs in nothing else. The map that a match is
-- given at random is left out.
pub mod Users
pub mod Refinement
pub mod Matches
pub mod Arrivals
use silent_tanks.Base.{
  ℕ, zero, suc, ◌==◌, leb, if◌then◌else◌, List, [], ◌∷◌, ◌++◌, length, take, drop,
}
use mathlib.Core.Option
use silent_tanks.Matchmaking.Types.{
  Session, Lookup, no_users, insert, erase, contains, erase_users, queued,
}

-- `lookup` is a set of users.
pub record Casual : Type 0 where
  pub queue : List Session
  pub lookup : Lookup {0} Unit

abbrev pub no_casual : Casual
no_casual = record { queue = []; lookup = no_users }

-- `remove_if` with the id of a user.
unfoldable pub remove_user : ℕ → List Session → List Session
remove_user u [] = []
remove_user u (p ∷ ps) = if p.user_id == u then remove_user u ps else p ∷ remove_user u ps

-- The loop of `try_form_match`, with the number of its rounds as fuel: each round takes sessions off
-- the queue. The result has the matches that `on_match_ready_` is called for.
unfoldable pub try_form_match : ℕ → ℕ → Casual → Casual × List (List Session)
unfolding erase_users
try_form_match n zero s = (s, [])
try_form_match n (suc fuel) s =
    let players = take n s.queue in
    let popped : Casual = record {
      queue = drop n s.queue;
      lookup = erase_users s.lookup players;
    } in
    let (after, matches) = try_form_match n fuel popped in
    if leb n (length s.queue) then (after, players ∷ matches) else (s, [])

unfoldable pub enqueue : ℕ → Casual → Session → Casual × List (List Session)
unfolding try_form_match
enqueue n s p =
    if contains s.lookup p.user_id
    then (s, [])
    else try_form_match n (suc (length s.queue))
        (record { queue = s.queue ++ p ∷ []; lookup = insert s.lookup p.user_id tt })

unfoldable pub cancel : Casual → Session → Casual
unfolding remove_user
cancel s p =
    if contains s.lookup p.user_id
    then record { queue = remove_user p.user_id s.queue; lookup = erase s.lookup p.user_id }
    else s

-- The tasks of the strand.
pub data CasualTask : Type 0 where
  enqueue_task cancel_task : Session → CasualTask
  tick_task : CasualTask

unfoldable pub casual_step : ℕ → Casual → CasualTask → Casual × List (List Session)
unfolding enqueue cancel
casual_step n s (enqueue_task p) = enqueue n s p
casual_step n s (cancel_task p) = (cancel s p, [])
casual_step n s tick_task = (s, [])

-- A run of tasks, with the matches in the order in which they are formed.
unfoldable pub casual_run : ℕ → Casual → List CasualTask → Casual × List (List Session)
unfolding casual_step
casual_run n s [] = (s, [])
casual_run n s (t ∷ ts) =
    let (next, formed) = casual_step n s t in
    let (after, more) = casual_run n next ts in (after, formed ++ more)
