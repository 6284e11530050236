-- ===== src/Matchmaking/Maker/Stale.antt =====
-- The results of a match that a player has left for another (`forfeit_impl` and the results callback
-- of src/server/match-maker.cpp).
use silent_tanks.Base.{
  ℕ, ◌+◌, ◌%◌, ◌==◌, ◌≡◌, ltb, Bool, true, false, if◌then◌else◌, Option, some, none, Option-cases,
  List, [], ◌∷◌, length, refl, ap, ◌∙◌, arith, ==_refl, inl, inr,
}
use silent_tanks.Matchmaking.Types.{GameMode, Session, Lookup, insert, erase, erase_users, queued}
use silent_tanks.Matchmaking.Maker.{
  Maker, deliver, no_match_found, give_command, forfeit_impl, route_impl, enter_players, make_match,
  leave_players, remove_match, take_results,
}
use silent_tanks.Matchmaking.Maker.Dropped.{AllLive, live_players-AllLive}

abbrev pub listed : ℕ → List ℕ → Bool
listed k [] = false
listed k (i ∷ is) = if k == i then true else listed k is

enter_players-finds :
    (match_id : ℕ) (matches : Lookup ℕ) (ps : List Session) (u : ℕ)
    → (enter_players match_id matches ps).0 u ≡ (if queued u ps then some match_id else matches u)
unfolding enter_players queued
enter_players-finds match_id matches [] u = refl
enter_players-finds match_id matches (p ∷ ps) u =
    enter_players-finds match_id (insert matches p.user_id match_id) ps u
    ∙ either (queued u ps) (u == p.user_id) (some match_id) (matches u)
  where
    either :
        (a b : Bool) (x y : Option ℕ)
        → (if a then x else if b then x else y) ≡ (if (if b then true else a) then x else y)
    either true true x y = refl
    either true false x y = refl
    either false true x y = refl
    either false false x y = refl

leave_players-finds :
    (mode : GameMode) (matches : Lookup ℕ) (us : List ℕ) (u : ℕ)
    → (leave_players mode matches us).0 u ≡ (if listed u us then none else matches u)
unfolding leave_players
leave_players-finds mode matches [] u = refl
leave_players-finds mode matches (k ∷ us) u =
    leave_players-finds mode (erase matches k) us u ∙ either (listed u us) (u == k) (matches u)
  where
    either :
        (a b : Bool) (y : Option ℕ)
        → (if a then none else if b then none else y)
          ≡ (if (if b then true else a) then none else y)
    either true true y = refl
    either true false y = refl
    either false true y = refl
    either false false y = refl

-- The match maker after a match of live sessions was made.
make_match-made :
    (m : Maker) (is_live : ℕ → Bool) (players : List Session)
    → AllLive is_live players
    → (make_match m is_live true players).0 ≡ record m {
      uuid_to_gamemode = erase_users m.uuid_to_gamemode players;
      uuid_to_match =
          (enter_players ((m.next_match_id + 1) % 18446744073709551616) m.uuid_to_match players).0;
      live_matches = (m.next_match_id + 1) % 18446744073709551616 ∷ m.live_matches;
      next_match_id = (m.next_match_id + 1) % 18446744073709551616;
    }
unfolding make_match
make_match-made m is_live players live =
    let all : ltb (length players) (length players) ≡ false = ground arith in
    rw (live_players-AllLive is_live m.uuid_to_gamemode players live, all) refl

route_impl-found :
    (m : Maker) (p : Session) (match_id : ℕ)
    → m.uuid_to_match p.user_id ≡ some match_id
    → (route_impl m p).1 ≡ give_command match_id p.user_id ∷ []
unfolding route_impl
route_impl-found m p match_id found = rw (found, route_impl) refl

route_impl-lost :
    (m : Maker) (p : Session)
    → m.uuid_to_match p.user_id ≡ none
    → route_impl m p ≡ (m, deliver p.id no_match_found ∷ [])
unfolding route_impl
route_impl-lost m p lost = rw (lost, route_impl) refl

forfeit_impl-next_match_id :
    (m : Maker) (p : Session) → (forfeit_impl m p).0.next_match_id ≡ m.next_match_id
unfolding forfeit_impl
forfeit_impl-next_match_id m p = elim (Option-cases (m.uuid_to_match p.user_id)) [
  | inl absent ↦ rw (absent, forfeit_impl) refl
  | inr (match_id, known) ↦ rw (known, forfeit_impl) refl
]

-- A match of live sessions that is made after the forfeit of a player.
abbrev pub made_anew : Maker → Session → (ℕ → Bool) → List Session → Maker
made_anew m p is_live players = (make_match (forfeit_impl m p).0 is_live true players).0

abbrev pub new_match_id : Maker → ℕ
new_match_id m = (m.next_match_id + 1) % 18446744073709551616

made_anew-finds :
    (m : Maker) (p : Session) (is_live : ℕ → Bool) (players : List Session)
    → AllLive is_live players
    → queued p.user_id players ≡ true
    → (made_anew m p is_live players).uuid_to_match p.user_id ≡ some (new_match_id m)
made_anew-finds m p is_live players live plays =
    let left = (forfeit_impl m p).0 in
    ap (λ (k : Maker). k.uuid_to_match p.user_id) (make_match-made left is_live players live)
    ∙ enter_players-finds (new_match_id left) left.uuid_to_match players p.user_id
    ∙ rw plays (ap (λ n. some ((n + 1) % 18446744073709551616)) (forfeit_impl-next_match_id m p))

listed-remove_match :
    (i k : ℕ) (is : List ℕ) → (i == k) ≡ false → listed i (remove_match k (i ∷ is)) ≡ true
unfolding remove_match
listed-remove_match i k is other = rw other (rw (==_refl i) refl)

-- A player forfeits, and then a match of live sessions is made in which the player is. The commands
-- reach the new match, until the results of another match arrive that list the player, such as those
-- of the old match: from then on commands are answered that no match was found, although the new match
-- lives on.
pub take_results-stale :
    (m : Maker) (p : Session) (old_match : ℕ) (mode : GameMode) (user_ids : List ℕ)
    (is_live : ℕ → Bool) (players : List Session)
    → (new_match_id m == old_match) ≡ false
    → AllLive is_live players
    → queued p.user_id players ≡ true
    → listed p.user_id user_ids ≡ true
    → ((route_impl (made_anew m p is_live players) p).1
        ≡ give_command (new_match_id m) p.user_id ∷ [])
      × (route_impl (take_results (made_anew m p is_live players) old_match mode user_ids).0 p ≡ (
        (take_results (made_anew m p is_live players) old_match mode user_ids).0,
        deliver p.id no_match_found ∷ [],
      ))
      × (listed
            (new_match_id m)
            ((take_results (made_anew m p is_live players) old_match mode user_ids).0).live_matches
          ≡ true)
unfolding take_results
take_results-stale m p old_match mode user_ids is_live players other live plays left =
    let departed = (forfeit_impl m p).0 in
    let anew = made_anew m p is_live players in
    let found = made_anew-finds m p is_live players live plays in
    let lost : (leave_players mode anew.uuid_to_match user_ids).0 p.user_id ≡ none =
      leave_players-finds mode anew.uuid_to_match user_ids p.user_id ∙ rw left refl in
    (
      route_impl-found anew p (new_match_id m) found,
      route_impl-lost (take_results anew old_match mode user_ids).0 p lost,
      ap (λ (k : Maker). listed (new_match_id m) (remove_match old_match k.live_matches))
            (make_match-made departed is_live players live)
          ∙ ap
              (λ n.
                listed (new_match_id m)
                  (remove_match old_match ((n + 1) % 18446744073709551616 ∷ departed.live_matches)))
              (forfeit_impl-next_match_id m p)
          ∙ listed-remove_match (new_match_id m) old_match departed.live_matches other,
    )
