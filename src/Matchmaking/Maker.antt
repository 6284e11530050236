-- ===== src/Matchmaking/Maker.antt =====
-- `MatchMaker` (src/server/match-maker.cpp). A match instance is the number under which it is in
-- `live_matches_`. What a task asks of sessions, strategies, instances and the user manager is a list
-- of effects, in order; the strategies, which run on strands of their own, call `make_match` later.
pub mod Steps
pub mod Disjoint
pub mod Waiting
pub mod Dropped
pub mod Stale
use silent_tanks.Base.{
  ℕ, ◌+◌, ◌%◌, ◌==◌, ltb, Bool, ◌&&◌, if◌then◌else◌, Option, some, none, List, [], ◌∷◌, ◌++◌,
  length, map, false, true,
}
use mathlib.Core.Option
use silent_tanks.Matchmaking.Types.{GameMode, Session, Lookup, no_users, insert, erase, contains}

pub data Notice : Type 0 where
  bad_queue bad_cancel queue_dropped match_creation_error no_match_found : Notice
  match_starting : ℕ → Notice

-- `notify_finished` has no mode for `GameMode::NO_MODE`.
pub data Effect : Type 0 where
  deliver : ℕ → Notice → Effect
  queue_up take_off : GameMode → Session → Effect
  notify_start : ℕ → ℕ → Effect
  notify_finished : ℕ → Option GameMode → Effect
  start_match shut_down : ℕ → Effect
  give_command forfeit_player match_message : ℕ → ℕ → Effect
  record_result shut_down_done : Effect

pub record Maker : Type 0 where
  pub uuid_to_match : Lookup ℕ
  pub uuid_to_gamemode : Lookup GameMode
  pub live_matches : List ℕ
  pub next_match_id : ℕ
  pub shutting_down : Bool

abbrev pub new_maker : Maker
new_maker = record {
  uuid_to_match = no_users;
  uuid_to_gamemode = no_users;
  live_matches = [];
  next_match_id = 0;
  shutting_down = false;
}

unfoldable pub enqueue : Maker → Session → GameMode → Maker × List Effect
enqueue m p queued_mode =
    if contains m.uuid_to_match p.user_id
    then (m, deliver p.id bad_queue ∷ [])
    else if contains m.uuid_to_gamemode p.user_id
    then (m, deliver p.id bad_queue ∷ [])
    else (
      record m { uuid_to_gamemode = insert m.uuid_to_gamemode p.user_id queued_mode },
      queue_up queued_mode p ∷ [],
    )

-- What `cancel` does at once, and the task that it posts.
unfoldable pub cancel : Maker → Session → GameMode → Maker × List Effect
cancel m p queued_mode = (
  record m { uuid_to_gamemode = erase m.uuid_to_gamemode p.user_id },
  take_off queued_mode p ∷ [],
)

unfoldable pub cancel_task : Maker → Session → Bool → Maker × List Effect
cancel_task m p called_by_user =
    if called_by_user && contains m.uuid_to_match p.user_id
    then (m, deliver p.id bad_cancel ∷ [])
    else (m, [])

unfoldable pub route_impl : Maker → Session → Maker × List Effect
route_impl m p = elim (m.uuid_to_match p.user_id) [
  | some match_id ↦ (m, give_command match_id p.user_id ∷ [])
  | none ↦ (m, deliver p.id no_match_found ∷ [])
]

unfoldable pub send_match_message : Maker → Session → ℕ → Maker × List Effect
send_match_message m p user_id = elim (m.uuid_to_match user_id) [
  | some match_id ↦ (m, match_message match_id user_id ∷ [])
  | none ↦ (m, deliver p.id no_match_found ∷ [])
]

unfoldable pub forfeit_impl : Maker → Session → Maker × List Effect
forfeit_impl m p = elim (m.uuid_to_match p.user_id) [
  | some match_id ↦ (
    record m { uuid_to_match = erase m.uuid_to_match p.user_id },
    forfeit_player match_id p.user_id ∷ notify_finished p.user_id none ∷ [],
  )
  | none ↦ (m, [])
]

unfoldable pub async_shutdown : Maker → Maker × List Effect
async_shutdown m =
    if m.shutting_down
    then (m, [])
    else (record m { shutting_down = true }, map shut_down m.live_matches ++ shut_down_done ∷ [])

-- The first loop of `make_match_on_strand`: it takes the users off `uuid_to_gamemode_` and stops at
-- the first session that is not live.
unfoldable pub live_players :
    (ℕ → Bool) → Lookup GameMode → List Session → Lookup GameMode × List Session
live_players is_live modes [] = (modes, [])
live_players is_live modes (p ∷ ps) =
    let erased = erase modes p.user_id in
    let (after, live) = live_players is_live erased ps in
    if is_live p.id then (after, p ∷ live) else (erased, [])

unfoldable pub start_notices : ℕ → List Session → List Effect
start_notices p_id [] = []
start_notices p_id (p ∷ ps) = deliver p.id (match_starting p_id) ∷ start_notices (p_id + 1) ps

-- The loop that enters the players into `uuid_to_match_`.
unfoldable pub enter_players : ℕ → Lookup ℕ → List Session → Lookup ℕ × List Effect
enter_players match_id matches [] = (matches, [])
enter_players match_id matches (p ∷ ps) =
    let (after, effects) = enter_players match_id (insert matches p.user_id match_id) ps in
    (after, notify_start p.user_id match_id ∷ effects)

-- `is_live` answers for the sessions, and `made` says whether the constructor of the instance returned.
-- The vector has at least two players, of whom the log speaks.
unfoldable pub make_match : Maker → (ℕ → Bool) → Bool → List Session → Maker × List Effect
unfolding live_players start_notices enter_players
make_match m is_live made players =
    let (modes, live) = live_players is_live m.uuid_to_gamemode players in
    let unqueued = record m { uuid_to_gamemode = modes } in
    let starts = start_notices 0 players in
    let match_id = (m.next_match_id + 1) % 18446744073709551616 in
    let (matches, entries) = enter_players match_id m.uuid_to_match players in
    if ltb (length live) (length players)
    then (unqueued, map (λ (p : Session). deliver p.id queue_dropped) live)
    else if made
    then (
      record unqueued {
        uuid_to_match = matches;
        live_matches = match_id ∷ m.live_matches;
        next_match_id = match_id;
      },
      starts ++ (entries ++ start_match match_id ∷ []),
    )
    else (unqueued, starts ++ map (λ (p : Session). deliver p.id match_creation_error) players)

unfoldable pub remove_match : ℕ → List ℕ → List ℕ
remove_match match_id [] = []
remove_match match_id (i ∷ is) =
    if i == match_id then remove_match match_id is else i ∷ remove_match match_id is

-- The loop of the results callback over the users of the result.
unfoldable pub leave_players : GameMode → Lookup ℕ → List ℕ → Lookup ℕ × List Effect
leave_players mode matches [] = (matches, [])
leave_players mode matches (u ∷ us) =
    let (after, effects) = leave_players mode (erase matches u) us in
    (after, notify_finished u (some mode) ∷ effects)

-- The task of the results callback of the instance `match_id`.
unfoldable pub take_results : Maker → ℕ → GameMode → List ℕ → Maker × List Effect
unfolding leave_players remove_match
take_results m match_id mode user_ids =
    let (matches, effects) = leave_players mode m.uuid_to_match user_ids in
    (
      record m { uuid_to_match = matches; live_matches = remove_match match_id m.live_matches },
      effects ++ record_result ∷ [],
    )
