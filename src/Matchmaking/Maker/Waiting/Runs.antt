-- ===== src/Matchmaking/Maker/Waiting/Runs.antt =====
-- What `MatchMaker` (src/server/match-maker.cpp) does for a user who is in `uuid_to_gamemode_`, until
-- the user cancels or is given to `make_match`.
use silent_tanks.Base.{
  ℕ, ◌+◌, ◌%◌, ◌==◌, ◌≡◌, ltb, ◌&&◌, Option-cases, Bool, true, false, List, [], ◌∷◌, ◌++◌, map,
  length, refl, ap, ◌∙◌, arith, inl, inr, Bool-cases, ==_iff,
}
use silent_tanks.Matchmaking.Types.{GameMode, Session, contains, queued}
use silent_tanks.Matchmaking.Types.Lookups.{is_some-if}
use silent_tanks.Matchmaking.Maker.{
  Maker, deliver, start_match, shut_down, record_result, shut_down_done, new_maker, enqueue,
  cancel_task, route_impl, send_match_message, forfeit_impl, async_shutdown, live_players,
  enter_players, make_match, leave_players, start_notices, take_results, match_creation_error,
}
use silent_tanks.Matchmaking.Maker.Steps.{
  MakerTask, enqueue_call, cancel_call, cancel_posted, route_posted, forfeit_posted, message_posted,
  make_posted, results_posted, shutdown_posted, maker_step, maker_run,
}
use silent_tanks.Matchmaking.Maker.Disjoint.{IsDisjoint, maker_run-IsDisjoint, run-keeps}
use silent_tanks.Matchmaking.Maker.Waiting.{
  takes_off, any_takes_off, asks, passed_on, ever_passed_on, Stays, passed_on-append, passed_on-map,
  starts-quiet, entries-quiet, leavers-quiet, erase-keeps, live_players-keeps,
}

enqueue-Stays :
    (m : Maker) (p : Session) (mode : GameMode) (u : ℕ)
    → contains m.uuid_to_gamemode u ≡ true
    → Stays u (enqueue m p mode)
unfolding enqueue passed_on asks
enqueue-Stays m p mode u waits = elim (Bool-cases (contains m.uuid_to_match p.user_id)) [
  | inl plays ↦ rw plays (waits, refl)
  | inr free ↦ elim (Bool-cases (contains m.uuid_to_gamemode p.user_id)) [
    | inl known ↦ rw (free, known) (waits, refl)
    | inr new ↦
        let other : (u == p.user_id) ≡ false = elim (Bool-cases (u == p.user_id)) [
          | inl same ↦
              let e : contains m.uuid_to_gamemode u ≡ contains m.uuid_to_gamemode p.user_id =
                ap (contains m.uuid_to_gamemode) ((==_iff u p.user_id).0 same) in
              absurd (ground (arith, e, waits, new))
          | inr apart ↦ apart
        ] in
        rw (free, new)
          (is_some-if (u == p.user_id) mode (m.uuid_to_gamemode u) ∙ rw other waits, rw other refl)
  ]
]

make_match-Stays :
    (m : Maker) (is_live : ℕ → Bool) (made : Bool) (players : List Session) (u : ℕ)
    → queued u players ≡ false
    → contains m.uuid_to_gamemode u ≡ true
    → Stays u (make_match m is_live made players)
unfolding make_match asks passed_on
make_match-Stays m is_live made players u other waits =
    let kept = live_players-keeps is_live m.uuid_to_gamemode players u other waits in
    let live = live_players is_live m.uuid_to_gamemode players in
    let starts = start_notices 0 players in
    let match_id = (m.next_match_id + 1) % 18446744073709551616 in
    let entries = (enter_players match_id m.uuid_to_match players).1 in
    let failures = map (λ (p : Session). deliver p.id match_creation_error) players in
    let quiet = starts-quiet u 0 players in
    elim (Bool-cases (ltb (length live.1) (length players))) [
      | inl cancelled ↦ rw cancelled (kept, passed_on-map u _ live.1 (λ p. refl))
      | inr all ↦ elim (Bool-cases made) [
        | inr failed ↦
            rw (all, failed)
              (
                kept,
                passed_on-append u starts failures quiet (passed_on-map u _ players (λ p. refl)),
              )
        | inl works ↦
            rw (all, works)
              (
                kept,
                passed_on-append u starts (entries ++ start_match match_id ∷ []) quiet (
                    passed_on-append u entries (start_match match_id ∷ [])
                      (entries-quiet u match_id m.uuid_to_match players) refl),
              )
      ]
    ]

take_results-Stays :
    (m : Maker) (match_id : ℕ) (mode : GameMode) (user_ids : List ℕ) (u : ℕ)
    → contains m.uuid_to_gamemode u ≡ true
    → Stays u (take_results m match_id mode user_ids)
unfolding take_results asks passed_on
take_results-Stays m match_id mode user_ids u waits = (
  waits,
  passed_on-append u (leave_players mode m.uuid_to_match user_ids).1 (record_result ∷ [])
      (leavers-quiet u mode m.uuid_to_match user_ids) refl,
)

async_shutdown-Stays :
    (m : Maker) (u : ℕ) → contains m.uuid_to_gamemode u ≡ true → Stays u (async_shutdown m)
unfolding async_shutdown asks passed_on
async_shutdown-Stays m u waits = elim (Bool-cases m.shutting_down) [
  | inl again ↦ rw again (waits, refl)
  | inr first ↦ rw first (
    waits,
    passed_on-append u (map shut_down m.live_matches) (shut_down_done ∷ [])
        (passed_on-map u shut_down m.live_matches (λ i. refl)) refl,
  )
]

-- The tasks that look a user up among the users in a match.
route_impl-Stays :
    (m : Maker) (p : Session) (u : ℕ)
    → contains m.uuid_to_gamemode u ≡ true
    → Stays u (route_impl m p)
unfolding route_impl asks passed_on
route_impl-Stays m p u waits = elim (Option-cases (m.uuid_to_match p.user_id)) [
  | inl absent ↦ rw (absent, route_impl) (waits, refl)
  | inr (match_id, known) ↦ rw (known, route_impl) (waits, refl)
]

send_match_message-Stays :
    (m : Maker) (p : Session) (user_id u : ℕ)
    → contains m.uuid_to_gamemode u ≡ true
    → Stays u (send_match_message m p user_id)
unfolding send_match_message asks passed_on
send_match_message-Stays m p user_id u waits = elim (Option-cases (m.uuid_to_match user_id)) [
  | inl absent ↦ rw (absent, send_match_message) (waits, refl)
  | inr (match_id, known) ↦ rw (known, send_match_message) (waits, refl)
]

forfeit_impl-Stays :
    (m : Maker) (p : Session) (u : ℕ)
    → contains m.uuid_to_gamemode u ≡ true
    → Stays u (forfeit_impl m p)
unfolding forfeit_impl asks passed_on
forfeit_impl-Stays m p u waits = elim (Option-cases (m.uuid_to_match p.user_id)) [
  | inl absent ↦ rw (absent, forfeit_impl) (waits, refl)
  | inr (match_id, known) ↦ rw (known, forfeit_impl) (waits, refl)
]

cancel_task-Stays :
    (m : Maker) (p : Session) (called_by_user : Bool) (u : ℕ)
    → contains m.uuid_to_gamemode u ≡ true
    → Stays u (cancel_task m p called_by_user)
unfolding cancel_task asks passed_on
cancel_task-Stays m p called_by_user u waits =
    elim (Bool-cases (called_by_user && contains m.uuid_to_match p.user_id)) [
      | inl known ↦ rw known (waits, refl)
      | inr unknown ↦ rw unknown (waits, refl)
    ]

maker_step-Stays :
    (m : Maker) (t : MakerTask) (u : ℕ)
    → takes_off u t ≡ false
    → contains m.uuid_to_gamemode u ≡ true
    → Stays u (maker_step m t)
unfolding maker_step takes_off asks passed_on
maker_step-Stays m (enqueue_call p mode) u stays waits = enqueue-Stays m p mode u waits
maker_step-Stays m (cancel_call p mode) u stays waits =
    (erase-keeps m.uuid_to_gamemode p.user_id u stays waits, refl)
maker_step-Stays m (cancel_posted p called_by_user) u stays waits =
    cancel_task-Stays m p called_by_user u waits
maker_step-Stays m (route_posted p) u stays waits = route_impl-Stays m p u waits
maker_step-Stays m (forfeit_posted p) u stays waits = forfeit_impl-Stays m p u waits
maker_step-Stays m (message_posted p user_id) u stays waits =
    send_match_message-Stays m p user_id u waits
maker_step-Stays m (make_posted is_live made players) u stays waits =
    make_match-Stays m is_live made players u stays waits
maker_step-Stays m (results_posted match_id mode user_ids) u stays waits =
    take_results-Stays m match_id mode user_ids u waits
maker_step-Stays m shutdown_posted u stays waits = async_shutdown-Stays m u waits

run-stays :
    (m : Maker) (ts : List MakerTask) (u : ℕ)
    → any_takes_off u ts ≡ false
    → contains m.uuid_to_gamemode u ≡ true
    → (contains (maker_run m ts).uuid_to_gamemode u ≡ true) × (ever_passed_on u m ts ≡ false)
unfolding maker_run any_takes_off ever_passed_on
run-stays m [] u stays waits = (waits, refl)
run-stays m (t ∷ ts) u stays waits = elim (Bool-cases (takes_off u t)) [
  | inl off ↦ absurd (ground (arith, rw off at stays))
  | inr here ↦
      let (waits', quiet) = maker_step-Stays m t u here waits in
      let (last, later) = run-stays (maker_step m t).0 ts u (rw here at stays) waits' in
      (last, rw quiet later)
]

absent :
    (m : Maker) (u : ℕ)
    → IsDisjoint m
    → contains m.uuid_to_gamemode u ≡ true
    → contains m.uuid_to_match u ≡ false
absent m u apart waits = elim (Bool-cases (contains m.uuid_to_match u)) [
  | inl plays ↦ absurd (ground (arith, apart u plays, waits))
  | inr free ↦ free
]

-- Calls and tasks of the match maker run in any order from its start, each alone, and then `u` has
-- an entry in `uuid_to_gamemode_`. Then `u` has none in `uuid_to_match_`; and while further calls and
-- tasks run, none of which is a cancellation by `u` or the making of a match with `u`, it stays so,
-- and no session of `u` is passed to a strategy again.
pub maker_run-waits :
    (ts more : List MakerTask) (u : ℕ)
    → contains (maker_run new_maker ts).uuid_to_gamemode u ≡ true
    → any_takes_off u more ≡ false
    → let before = maker_run new_maker ts in
      let after = maker_run before more in
      (contains before.uuid_to_match u ≡ false)
      × (contains after.uuid_to_gamemode u ≡ true)
      × (contains after.uuid_to_match u ≡ false)
      × (ever_passed_on u before more ≡ false)
maker_run-waits ts more u waits stays =
    let before = maker_run new_maker ts in
    let apart = maker_run-IsDisjoint ts in
    let (still, quiet) = run-stays before more u stays waits in
    (
      absent before u apart waits,
      still,
      absent (maker_run before more) u (run-keeps before more apart) still,
      quiet,
    )
