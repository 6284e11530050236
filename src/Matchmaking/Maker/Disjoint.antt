-- ===== src/Matchmaking/Maker/Disjoint.antt =====
-- The two maps of users of the match maker (src/server/match-maker.cpp) in any run of its tasks.
use silent_tanks.Base.{
  ℕ, ◌+◌, ◌%◌, ◌==◌, ◌≡◌, ◌≤◌, ltb, ◌&&◌, Option-cases, Bool, true, false, if◌then◌else◌, List, [],
  ◌∷◌, length, refl, sym, ap, ◌∙◌, subst, arith, inl, inr, Bool-cases, ==_iff,
}
use silent_tanks.Matchmaking.Types.{
  GameMode, Session, Lookup, insert, erase, is_some, contains, queued,
}
use silent_tanks.Matchmaking.Types.Lookups.{is_some-if, is_some-unless}
use silent_tanks.Matchmaking.Maker.{
  Maker, new_maker, enqueue, cancel_task, route_impl, send_match_message, forfeit_impl,
  async_shutdown, live_players, enter_players, make_match, leave_players,
}
use silent_tanks.Matchmaking.Maker.Steps.{
  MakerTask, enqueue_call, cancel_call, cancel_posted, route_posted, forfeit_posted, message_posted,
  make_posted, results_posted, shutdown_posted, maker_step, maker_run,
}

-- No user has an entry both in `uuid_to_match_` and in `uuid_to_gamemode_`.
abbrev pub IsDisjoint : Maker → Type 0
IsDisjoint m = (u : ℕ) → contains m.uuid_to_match u ≡ true → contains m.uuid_to_gamemode u ≡ false

-- What is left of a lookup was there before.
abbrev Fewer {ℓ} : {A : Type ℓ} → Lookup A → Lookup A → Type 0
Fewer after before = (u : ℕ) → contains before u ≡ false → contains after u ≡ false

Fewer-erase {ℓ} : {A : Type ℓ} (m : Lookup A) (k : ℕ) → Fewer (erase m k) m
Fewer-erase m k u absent =
    is_some-unless (u == k) (m u) ∙ ap (λ b. if u == k then false else b) absent ∙ same (u == k)
  where
    same : (b : Bool) → (if b then false else false) ≡ false
    same true = refl
    same false = refl

pub length-live_players-le :
    (is_live : ℕ → Bool) (modes : Lookup GameMode) (ps : List Session)
    → length (live_players is_live modes ps).1 ≤ length ps
unfolding live_players
length-live_players-le is_live modes [] = omega arith
length-live_players-le is_live modes (p ∷ ps) =
    let rest = length-live_players-le is_live (erase modes p.user_id) ps in
    elim (Bool-cases (is_live p.id)) [
      | inl live ↦ rw live (omega (arith, rest))
      | inr dead ↦ rw dead (omega arith)
    ]

live_players-Fewer :
    (is_live : ℕ → Bool) (modes : Lookup GameMode) (ps : List Session)
    → Fewer (live_players is_live modes ps).0 modes
unfolding live_players
live_players-Fewer is_live modes [] u absent = absent
live_players-Fewer is_live modes (p ∷ ps) u absent =
    let here = Fewer-erase modes p.user_id u absent in
    elim (Bool-cases (is_live p.id)) [
      | inl live ↦ rw live (live_players-Fewer is_live (erase modes p.user_id) ps u here)
      | inr dead ↦ rw dead here
    ]

-- If the loop did not stop early, none of the players is queued.
live_players-all :
    (is_live : ℕ → Bool) (modes : Lookup GameMode) (ps : List Session) (u : ℕ)
    → ltb (length (live_players is_live modes ps).1) (length ps) ≡ false
    → queued u ps ≡ true
    → contains (live_players is_live modes ps).0 u ≡ false
unfolding live_players queued
live_players-all is_live modes [] u all waits = cc
live_players-all is_live modes (p ∷ ps) u all waits = elim (Bool-cases (is_live p.id)) [
  | inr dead ↦ absurd (ground (arith, rw dead at all))
  | inl live ↦
      let erased = erase modes p.user_id in
      rw live (elim (Bool-cases (u == p.user_id)) [
        | inl here ↦
            live_players-Fewer is_live erased ps u
              (is_some-unless (u == p.user_id) (modes u) ∙ rw here refl)
        | inr other ↦
            live_players-all is_live erased ps u (ground (arith, rw live at all))
              (rw other at waits)
      ])
]

enter_players-contains :
    (match_id : ℕ) (matches : Lookup ℕ) (ps : List Session) (u : ℕ)
    → contains (enter_players match_id matches ps).0 u
      ≡ (if queued u ps then true else contains matches u)
unfolding enter_players queued
enter_players-contains match_id matches [] u = refl
enter_players-contains match_id matches (p ∷ ps) u =
    enter_players-contains match_id (insert matches p.user_id match_id) ps u
    ∙ ap (λ b. if queued u ps then true else b) (is_some-if (u == p.user_id) match_id (matches u))
    ∙ either (queued u ps) (u == p.user_id) (is_some (matches u))
  where
    either :
        (a b c : Bool)
        → (if a then true else if b then true else c)
          ≡ (if (if b then true else a) then true else c)
    either true true c = refl
    either true false c = refl
    either false true c = refl
    either false false c = refl

leave_players-Fewer :
    (mode : GameMode) (matches : Lookup ℕ) (us : List ℕ)
    → Fewer (leave_players mode matches us).0 matches
unfolding leave_players
leave_players-Fewer mode matches [] u absent = absent
leave_players-Fewer mode matches (k ∷ us) u absent =
    leave_players-Fewer mode (erase matches k) us u (Fewer-erase matches k u absent)

Fewer-contains {ℓ} :
    {A : Type ℓ} (after before : Lookup A) (u : ℕ)
    → Fewer after before
    → contains after u ≡ true
    → contains before u ≡ true
Fewer-contains after before u fewer has = elim (Bool-cases (contains before u)) [
  | inl was ↦ was
  | inr was_not ↦ let has_not = fewer u was_not in cc
]

make_match-IsDisjoint :
    (m : Maker) (is_live : ℕ → Bool) (made : Bool) (players : List Session)
    → IsDisjoint m
    → IsDisjoint (make_match m is_live made players).0
unfolding make_match
make_match-IsDisjoint m is_live made players apart u in_match =
    let live = live_players is_live m.uuid_to_gamemode players in
    let fewer = live_players-Fewer is_live m.uuid_to_gamemode players u in
    elim (Bool-cases (ltb (length live.1) (length players))) [
      | inl cancelled ↦ rw cancelled (fewer (apart u (rw cancelled at in_match)))
      | inr all ↦ elim (Bool-cases made) [
        | inr failed ↦ rw (all, failed) (fewer (apart u (rw (all, failed) at in_match)))
        | inl works ↦
            rw (all, works)
              (elim (Bool-cases (queued u players)) [
                | inl plays ↦ live_players-all is_live m.uuid_to_gamemode players u all plays
                | inr other ↦ fewer (
                    apart u (
                      sym (
                        enter_players-contains ((m.next_match_id + 1) % 18446744073709551616)
                          m.uuid_to_match players u
                        ∙ rw other refl)
                      ∙ (rw (all, works) at in_match)))
              ])
      ]
    ]

cancel_task-same :
    (m : Maker) (p : Session) (called_by_user : Bool) → (cancel_task m p called_by_user).0 ≡ m
unfolding cancel_task
cancel_task-same m p called_by_user =
    elim (Bool-cases (called_by_user && contains m.uuid_to_match p.user_id)) [
      | inl known ↦ rw known refl
      | inr unknown ↦ rw unknown refl
    ]

route_impl-same : (m : Maker) (p : Session) → (route_impl m p).0 ≡ m
unfolding route_impl
route_impl-same m p = elim (Option-cases (m.uuid_to_match p.user_id)) [
  | inl absent ↦ rw (absent, route_impl) refl
  | inr (match_id, known) ↦ rw (known, route_impl) refl
]

send_match_message-same :
    (m : Maker) (p : Session) (user_id : ℕ) → (send_match_message m p user_id).0 ≡ m
unfolding send_match_message
send_match_message-same m p user_id = elim (Option-cases (m.uuid_to_match user_id)) [
  | inl absent ↦ rw (absent, send_match_message) refl
  | inr (match_id, known) ↦ rw (known, send_match_message) refl
]

enqueue-IsDisjoint :
    (m : Maker) (p : Session) (mode : GameMode) → IsDisjoint m → IsDisjoint (enqueue m p mode).0
unfolding enqueue
enqueue-IsDisjoint m p mode apart u in_match =
    let fresh : contains m.uuid_to_match p.user_id ≡ false
        → contains m.uuid_to_match u ≡ true
        → (if u == p.user_id then true else contains m.uuid_to_gamemode u) ≡ false =
      λ free plays. elim (Bool-cases (u == p.user_id)) [
        | inl same ↦
            let e : contains m.uuid_to_match u ≡ contains m.uuid_to_match p.user_id =
              ap (contains m.uuid_to_match) ((==_iff u p.user_id).0 same) in
            cc
        | inr other ↦ rw other (apart u plays)
      ] in
    elim (Bool-cases (contains m.uuid_to_match p.user_id)) [
      | inl plays ↦ rw plays (apart u (rw plays at in_match))
      | inr free ↦ elim (Bool-cases (contains m.uuid_to_gamemode p.user_id)) [
        | inl waits ↦ rw (free, waits) (apart u (rw (free, waits) at in_match))
        | inr new ↦
            rw (free, new)
              (is_some-if (u == p.user_id) mode (m.uuid_to_gamemode u)
                ∙ fresh free (rw (free, new) at in_match))
      ]
    ]

forfeit_impl-IsDisjoint : (m : Maker) (p : Session) → IsDisjoint m → IsDisjoint (forfeit_impl m p).0
unfolding forfeit_impl
forfeit_impl-IsDisjoint m p apart u in_match = elim (Option-cases (m.uuid_to_match p.user_id)) [
  | inl absent ↦ rw (absent, forfeit_impl) (apart u (rw (absent, forfeit_impl) at in_match))
  | inr (match_id, known) ↦
      rw (known, forfeit_impl)
        (apart u (
          Fewer-contains (erase m.uuid_to_match p.user_id) m.uuid_to_match u
            (Fewer-erase m.uuid_to_match p.user_id) (rw (known, forfeit_impl) at in_match)))
]

async_shutdown-IsDisjoint : (m : Maker) → IsDisjoint m → IsDisjoint (async_shutdown m).0
unfolding async_shutdown
async_shutdown-IsDisjoint m apart u in_match = elim (Bool-cases m.shutting_down) [
  | inl again ↦ rw again (apart u (rw again at in_match))
  | inr first ↦ rw first (apart u (rw first at in_match))
]

maker_step-IsDisjoint : (m : Maker) (t : MakerTask) → IsDisjoint m → IsDisjoint (maker_step m t).0
unfolding maker_step
maker_step-IsDisjoint m (enqueue_call p mode) apart = enqueue-IsDisjoint m p mode apart
maker_step-IsDisjoint m (cancel_call p mode) apart =
    λ u in_match. Fewer-erase m.uuid_to_gamemode p.user_id u (apart u in_match)
maker_step-IsDisjoint m (cancel_posted p called_by_user) apart =
    subst IsDisjoint (sym (cancel_task-same m p called_by_user)) apart
maker_step-IsDisjoint m (route_posted p) apart = subst IsDisjoint (sym (route_impl-same m p)) apart
maker_step-IsDisjoint m (forfeit_posted p) apart = forfeit_impl-IsDisjoint m p apart
maker_step-IsDisjoint m (message_posted p user_id) apart =
    subst IsDisjoint (sym (send_match_message-same m p user_id)) apart
maker_step-IsDisjoint m (make_posted is_live made players) apart =
    make_match-IsDisjoint m is_live made players apart
maker_step-IsDisjoint m (results_posted match_id mode user_ids) apart = λ u in_match. apart u (
    Fewer-contains (leave_players mode m.uuid_to_match user_ids).0 m.uuid_to_match u
      (leave_players-Fewer mode m.uuid_to_match user_ids) in_match)
maker_step-IsDisjoint m shutdown_posted apart = async_shutdown-IsDisjoint m apart

pub run-keeps : (m : Maker) (ts : List MakerTask) → IsDisjoint m → IsDisjoint (maker_run m ts)
unfolding maker_run
run-keeps m [] apart = apart
run-keeps m (t ∷ ts) apart = run-keeps (maker_step m t).0 ts (maker_step-IsDisjoint m t apart)

-- However calls and tasks of the match maker are interleaved from its start, each run alone, no user
-- has an entry in both maps.
pub maker_run-IsDisjoint : (ts : List MakerTask) → IsDisjoint (maker_run new_maker ts)
maker_run-IsDisjoint ts = run-keeps new_maker ts (λ u _. refl)
