-- ===== src/Matchmaking/Maker/Dropped.antt =====
-- A match that is not made since a session has gone (`make_match_on_strand` of
-- src/server/match-maker.cpp).
use silent_tanks.Base.{
  ℕ, ◌≡◌, ltb, Bool, true, false, List, [], ◌∷◌, ◌++◌, length, map, refl, ◌∙◌, arith, inl, inr,
  Bool-cases, length-append,
}
use silent_tanks.Matchmaking.Types.{GameMode, Session, Lookup, erase, contains, erase_users, queued}
use silent_tanks.Matchmaking.Types.Lookups.{contains-erase_users}
use silent_tanks.Matchmaking.Maker.{
  Maker, deliver, queue_dropped, bad_queue, enqueue, live_players, make_match,
}

-- The sessions are live.
abbrev pub AllLive : (ℕ → Bool) → List Session → Type 0
AllLive is_live [] = Unit
AllLive is_live (p ∷ ps) = (is_live p.id ≡ true) × AllLive is_live ps

pub live_players-AllLive :
    (is_live : ℕ → Bool) (modes : Lookup GameMode) (ps : List Session)
    → AllLive is_live ps
    → live_players is_live modes ps ≡ (erase_users modes ps, ps)
unfolding live_players erase_users
live_players-AllLive is_live modes [] live = refl
live_players-AllLive is_live modes (p ∷ ps) live =
    rw (live.0, live_players-AllLive is_live (erase modes p.user_id) ps live.1) refl

live_players-stops :
    (is_live : ℕ → Bool) (modes : Lookup GameMode) (before after : List Session) (dead : Session)
    → AllLive is_live before
    → is_live dead.id ≡ false
    → live_players is_live modes (before ++ dead ∷ after)
      ≡ (erase_users modes (before ++ dead ∷ []), before)
unfolding live_players erase_users
live_players-stops is_live modes [] after dead live gone = rw gone refl
live_players-stops is_live modes (p ∷ before) after dead live gone =
    rw (live.0, live_players-stops is_live (erase modes p.user_id) before after dead live.1 gone)
      refl

enqueue-queued :
    (m : Maker) (p : Session) (mode : GameMode)
    → contains m.uuid_to_gamemode p.user_id ≡ true
    → enqueue m p mode ≡ (m, deliver p.id bad_queue ∷ [])
unfolding enqueue
enqueue-queued m p mode queues = elim (Bool-cases (contains m.uuid_to_match p.user_id)) [
  | inl plays ↦ rw plays refl
  | inr free ↦ rw (free, queues) refl
]

-- If a session of the players is not live, then the sessions before it are told that the queue was
-- dropped, and nobody else. A queued user of a later session, who is not the user of an earlier one,
-- is told nothing, stays queued, and is refused when the session asks to be queued again.
pub make_match-dropped :
    (m : Maker) (is_live : ℕ → Bool) (made : Bool) (before between after : List Session)
    (dead waiting : Session) (mode : GameMode)
    → AllLive is_live before
    → is_live dead.id ≡ false
    → queued waiting.user_id (before ++ dead ∷ []) ≡ false
    → contains m.uuid_to_gamemode waiting.user_id ≡ true
    → ((make_match m is_live made (before ++ dead ∷ (between ++ waiting ∷ after))).1
        ≡ map (λ (p : Session). deliver p.id queue_dropped) before)
      × (enqueue
            (make_match m is_live made (before ++ dead ∷ (between ++ waiting ∷ after))).0
            waiting
            mode
          ≡ (
            (make_match m is_live made (before ++ dead ∷ (between ++ waiting ∷ after))).0,
            deliver waiting.id bad_queue ∷ [],
          ))
unfolding make_match
make_match-dropped m is_live made before between after dead waiting mode live gone other queues =
    let later : List Session = between ++ waiting ∷ after in
    let stops = live_players-stops is_live m.uuid_to_gamemode before later dead live gone in
    let fewer : ltb (length before) (length (before ++ dead ∷ later)) ≡ true =
      ground (arith, length-append before (dead ∷ later)) in
    let stays : contains (erase_users m.uuid_to_gamemode (before ++ dead ∷ [])) waiting.user_id
        ≡ true =
      contains-erase_users m.uuid_to_gamemode (before ++ dead ∷ []) waiting.user_id
      ∙ rw other queues in
    rw (stops, fewer)
      (
        refl,
        enqueue-queued
            (record m { uuid_to_gamemode = erase_users m.uuid_to_gamemode (before ++ dead ∷ []) })
            waiting mode stays,
      )
