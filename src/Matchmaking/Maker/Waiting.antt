-- ===== src/Matchmaking/Maker/Waiting.antt =====
-- A user who is in `uuid_to_gamemode_` of the match maker (src/server/match-maker.cpp), the tasks that
-- take the user off it, and the effects that pass the user to a strategy.
pub mod Runs
use silent_tanks.Base.{
  ℕ, ◌+◌, ◌%◌, ◌==◌, ◌≡◌, ltb, ◌&&◌, Option-cases, Bool, true, false, if◌then◌else◌, List, [], ◌∷◌,
  ◌++◌, map, length, refl, sym, ap, ◌∙◌, arith, inl, inr, Bool-cases, none, some, ==_iff, subst,
}
use silent_tanks.Matchmaking.Types.{
  GameMode, Session, Lookup, insert, erase, is_some, contains, queued,
}
use silent_tanks.Matchmaking.Types.Lookups.{is_some-if, is_some-unless}
use silent_tanks.Matchmaking.Maker.{
  Maker, Effect, deliver, queue_up, take_off, notify_start, notify_finished, start_match, shut_down,
  give_command, forfeit_player, match_message, record_result, shut_down_done, new_maker, enqueue,
  cancel_task, route_impl, send_match_message, forfeit_impl, async_shutdown, live_players,
  enter_players, make_match, leave_players, start_notices, take_results, match_creation_error,
}
use silent_tanks.Matchmaking.Maker.Steps.{
  MakerTask, enqueue_call, cancel_call, cancel_posted, route_posted, forfeit_posted, message_posted,
  make_posted, results_posted, shutdown_posted, maker_step, maker_run,
}
use silent_tanks.Matchmaking.Maker.Disjoint.{IsDisjoint, maker_run-IsDisjoint, run-keeps}

-- Does the call or the task take the user `u` off the queue?
unfoldable pub takes_off : ℕ → MakerTask → Bool
unfolding queued
takes_off u (cancel_call p mode) = u == p.user_id
takes_off u (make_posted is_live made players) = queued u players
takes_off u (enqueue_call p mode) = false
takes_off u (cancel_posted p called_by_user) = false
takes_off u (route_posted p) = false
takes_off u (forfeit_posted p) = false
takes_off u (message_posted p user_id) = false
takes_off u (results_posted match_id mode user_ids) = false
takes_off u shutdown_posted = false

unfoldable pub any_takes_off : ℕ → List MakerTask → Bool
unfolding takes_off
any_takes_off u [] = false
any_takes_off u (t ∷ ts) = if takes_off u t then true else any_takes_off u ts

-- Does the effect pass a session of the user `u` to a strategy?
unfoldable pub asks : ℕ → Effect → Bool
asks u (queue_up mode p) = u == p.user_id
asks u e = false

unfoldable pub passed_on : ℕ → List Effect → Bool
unfolding asks
passed_on u [] = false
passed_on u (e ∷ es) = if asks u e then true else passed_on u es

-- Does one of the tasks pass a session of the user `u` to a strategy?
unfoldable pub ever_passed_on : ℕ → Maker → List MakerTask → Bool
unfolding maker_step passed_on
ever_passed_on u m [] = false
ever_passed_on u m (t ∷ ts) =
    let (m', effects) = maker_step m t in
    if passed_on u effects then true else ever_passed_on u m' ts

-- The user `u` stays in `uuid_to_gamemode_`, and is not passed to a strategy.
abbrev pub Stays : ℕ → Maker × List Effect → Type 0
Stays u (m, effects) = (contains m.uuid_to_gamemode u ≡ true) × (passed_on u effects ≡ false)

pub passed_on-append :
    (u : ℕ) (es fs : List Effect)
    → passed_on u es ≡ false
    → passed_on u fs ≡ false
    → passed_on u (es ++ fs) ≡ false
unfolding passed_on
passed_on-append u [] fs here there = there
passed_on-append u (e ∷ es) fs here there = elim (Bool-cases (asks u e)) [
  | inl asked ↦ absurd (ground (arith, rw asked at here))
  | inr other ↦ rw other (passed_on-append u es fs (rw other at here) there)
]

pub passed_on-map {ℓ} :
    {A : Type ℓ} (u : ℕ) (f : A → Effect) (xs : List A)
    → ((a : A) → asks u (f a) ≡ false)
    → passed_on u (map f xs) ≡ false
unfolding passed_on
passed_on-map u f [] h = refl
passed_on-map u f (x ∷ xs) h = rw (h x) (passed_on-map u f xs h)

pub starts-quiet : (u i : ℕ) (ps : List Session) → passed_on u (start_notices i ps) ≡ false
unfolding passed_on start_notices
starts-quiet u i [] = refl
starts-quiet u i (p ∷ ps) = starts-quiet u (i + 1) ps

pub entries-quiet :
    (u i : ℕ) (matches : Lookup ℕ) (ps : List Session)
    → passed_on u (enter_players i matches ps).1 ≡ false
unfolding passed_on enter_players
entries-quiet u i matches [] = refl
entries-quiet u i matches (p ∷ ps) = entries-quiet u i (insert matches p.user_id i) ps

pub leavers-quiet :
    (u : ℕ) (mode : GameMode) (matches : Lookup ℕ) (us : List ℕ)
    → passed_on u (leave_players mode matches us).1 ≡ false
unfolding passed_on leave_players
leavers-quiet u mode matches [] = refl
leavers-quiet u mode matches (k ∷ us) = leavers-quiet u mode (erase matches k) us

pub erase-keeps {ℓ} :
    {A : Type ℓ} (m : Lookup A) (k u : ℕ)
    → (u == k) ≡ false
    → contains m u ≡ true
    → contains (erase m k) u ≡ true
erase-keeps m k u other has = is_some-unless (u == k) (m u) ∙ rw other has

pub live_players-keeps :
    (is_live : ℕ → Bool) (modes : Lookup GameMode) (ps : List Session) (u : ℕ)
    → queued u ps ≡ false
    → contains modes u ≡ true
    → contains (live_players is_live modes ps).0 u ≡ true
unfolding live_players queued
live_players-keeps is_live modes [] u other has = has
live_players-keeps is_live modes (p ∷ ps) u other has = elim (Bool-cases (u == p.user_id)) [
  | inl same ↦ absurd (ground (arith, rw same at other))
  | inr apart ↦
      let here = erase-keeps modes p.user_id u apart has in
      elim (Bool-cases (is_live p.id)) [
        | inl live ↦
            rw live
              (live_players-keeps is_live (erase modes p.user_id) ps u (rw apart at other) here)
        | inr dead ↦ rw dead here
      ]
]
