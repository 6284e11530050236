-- ===== src/Match/Claims/Tasks.antt =====
-- Every task of the strand but the start of a turn keeps the turn of a match, and does not take back
-- its claim (src/server/match-instance.cpp).
use silent_tanks.Base.{
  ℕ, ◌≡◌, ◌==◌, ◌!=◌, Bool, true, ltb, [], ◌∷◌, ◌++◌, length, refl, ap, ◌∙◌, inl, inr, Bool-cases,
}
use silent_tanks.Protocol.Command.{Command}
use silent_tanks.Protocol.Header.{
  HeaderType, game_ended, stale_move, forfeit_match, static_match_data, player_view,
}
use silent_tanks.Match.Types.{Match, Result, ok, err, fetch, store, send, max_queue_size}
use silent_tanks.Match.Turns.{is_concluded, handle_timeout, on_player_move_arrived}
use silent_tanks.Match.Events.{
  enqueue, receive_command, forfeit, sync_player, on_timer, async_shutdown,
}
use silent_tanks.Match.Invariant.{Ensures, Ensures-bind, Ensures-then, Ensures-if}
use silent_tanks.Match.Invariant.Runs.{find_cases}
use silent_tanks.Match.Claims.{
  Claim, claim, Keeps, send_player-Keeps, handle_elimination-Keeps, take_turn-Keeps,
}

-- The match is in turn `n`, which has been claimed if `c` says so.
pub record InTurn (n : ℕ) (c : Bool) (m : Match) : Type 0 where
  pub number : m.turn_id ≡ n
  pub claimed : c ≡ true → m.turn_claimed ≡ true

pub Ensures-map :
    (P Q : Match → Type 0) (r : Result Match)
    → ((m : Match) → P m → Q m)
    → Ensures P r
    → Ensures Q r
Ensures-map P Q (ok m) f h = f m h
Ensures-map P Q (err e) f h = tt

-- A computation that leaves the claim as it is.
pub kept :
    {n : ℕ} {c : Bool} (m : Match) (r : Result Match)
    → InTurn n c m
    → Ensures (Keeps (claim m)) r
    → Ensures (InTurn n c) r
kept {n} {c} m r in_turn keeps =
    Ensures-map (Keeps (claim m)) (InTurn n c) r
      (λ m' k. record {
        number = ap (λ (x : Claim). x.0) k ∙ in_turn.number;
        claimed = λ yes. ap (λ (x : Claim). x.1) k ∙ in_turn.claimed yes;
      })
      keeps

-- A computation that leaves the turn, which it claimed, as it is.
pub claimed_kept :
    {n : ℕ} {c : Bool} (m : Match) (r : Result Match)
    → InTurn n c m
    → Ensures (Keeps (m.turn_id, true)) r
    → Ensures (InTurn n c) r
claimed_kept {n} {c} m r in_turn keeps =
    Ensures-map (Keeps (m.turn_id, true)) (InTurn n c) r
      (λ m' k. record {
        number = ap (λ (x : Claim). x.0) k ∙ in_turn.number;
        claimed = λ _. ap (λ (x : Claim). x.1) k;
      })
      keeps

pub same_turn :
    {n : ℕ} {c : Bool} (m m' : Match) → InTurn n c m → claim m' ≡ claim m → InTurn n c m'
same_turn m m' in_turn k = record {
  number = ap (λ (x : Claim). x.0) k ∙ in_turn.number;
  claimed = λ yes. ap (λ (x : Claim). x.1) k ∙ in_turn.claimed yes;
}

pub move-InTurn :
    {n : ℕ} {c : Bool} (m : Match) (t_id now : ℕ)
    → InTurn n c m
    → Ensures (InTurn n c) (on_player_move_arrived m t_id now)
unfolding on_player_move_arrived
move-InTurn {n} {c} m t_id now it =
    Ensures-if (InTurn n c) (t_id != m.turn_id) _ _ (λ _. it)
      λ _.
        Ensures-if (InTurn n c) m.turn_claimed _ _ (λ _. it)
          λ _.
            Ensures-if (InTurn n c) (is_concluded m.current_state) _ _
              (λ _. record { number = it.number; claimed = λ _. refl })
              (λ _.
                claimed_kept m _ it (take_turn-Keeps (record m { turn_claimed = true }) now refl))

pub timer-InTurn :
    {n : ℕ} {c : Bool} (m : Match) (t_id : ℕ) (cancelled : Bool)
    → InTurn n c m
    → Ensures (InTurn n c) (on_timer m t_id cancelled)
unfolding on_timer handle_timeout
timer-InTurn {n} {c} m t_id cancelled it =
    Ensures-if (InTurn n c) (t_id != m.turn_id) _ _ (λ _. it)
      λ _.
        Ensures-if (InTurn n c) m.turn_claimed _ _ (λ _. it)
          λ _.
            Ensures-if (InTurn n c) cancelled _ _ (λ _. it)
              (λ _. claimed_kept m _ it (handle_elimination-Keeps _ m.current_player _ refl))

pub command-InTurn :
    {n : ℕ} {c : Bool} (m : Match) (user_id : ℕ) (cmd : Command) (t_id now : ℕ)
    → InTurn n c m
    → Ensures (InTurn n c) (receive_command m user_id cmd t_id now)
unfolding receive_command enqueue
command-InTurn {n} {c} m user_id cmd t_id now it = find_cases (InTurn n c) m user_id _ _ it λ k.
    Ensures-if (InTurn n c) (is_concluded m.current_state) _ _
      (λ _. kept m _ it (send_player-Keeps m k game_ended refl))
      λ _.
        Ensures-if (InTurn n c) (t_id != m.turn_id) _ _
          (λ _. kept m _ it (send_player-Keeps m k stale_move refl))
          λ _. Ensures-bind (InTurn n c) (fetch m.command_queues k) _ λ queue eq.
            Ensures-if (InTurn n c) (ltb (length queue) max_queue_size) _ _
              (λ _.
                Ensures-bind (InTurn n c)
                  (store m.command_queues k (queue ++ record cmd { sender = k } ∷ [])) _
                  λ queues es.
                    let m1 : Match = record m { command_queues = queues } in
                    let it1 = same_turn m m1 it refl in
                    Ensures-if (InTurn n c) (k == m.current_player) _ _
                      (λ _. move-InTurn m1 t_id now it1) (λ _. it1))
              (λ _. it)

pub forfeit-InTurn :
    {n : ℕ} {c : Bool} (m : Match) (user_id : ℕ)
    → InTurn n c m
    → Ensures (InTurn n c) (forfeit m user_id)
unfolding forfeit
forfeit-InTurn {n} {c} m user_id it = find_cases (InTurn n c) m user_id _ _ it λ k.
    Ensures-if (InTurn n c) (is_concluded m.current_state) _ _
      (λ _. kept m _ it (send_player-Keeps m k game_ended refl))
      (λ _. kept m _ it (handle_elimination-Keeps m k forfeit_match refl))

pub send-Keeps :
    {d : Claim} (m : Match) (session_id : ℕ) (kind : HeaderType)
    → Keeps d m
    → Ensures (Keeps d) (send m session_id kind)
unfolding send
send-Keeps {d} m session_id kind h = Ensures-if (Keeps d) m.send_set _ _ (λ _. h) (λ _. tt)

pub sync-InTurn :
    {n : ℕ} {c : Bool} (m : Match) (session_id user_id : ℕ)
    → InTurn n c m
    → Ensures (InTurn n c) (sync_player m session_id user_id)
unfolding sync_player
sync-InTurn {n} {c} m session_id user_id it =
    Ensures-if (InTurn n c) (is_concluded m.current_state) _ _
      (λ _. kept m _ it (send-Keeps m session_id game_ended refl))
      λ _.
        find_cases (InTurn n c) m user_id _ _
          (kept m _ it (send-Keeps m session_id game_ended refl))
          λ k. Ensures-bind (InTurn n c) (fetch m.players k) _ λ info e.
            Ensures-bind (InTurn n c) (store m.players k (record info { session_id = session_id }))
              _
              λ players es. Ensures-bind (InTurn n c) (store m.command_queues k []) _ λ queues eq.
                kept m _ it (
                  Ensures-then (Keeps (claim m)) (Keeps (claim m)) _ _
                    (send_player-Keeps (record m { players = players; command_queues = queues }) k
                      static_match_data refl)
                    (λ m1 h. send-Keeps m1 session_id player_view h))

pub shutdown-InTurn : {n : ℕ} {c : Bool} (m : Match) → InTurn n c m → InTurn n c (async_shutdown m)
unfolding async_shutdown
shutdown-InTurn {n} {c} m it = elim (Bool-cases m.stopped) [
  | inl stopped ↦ simp stopped it
  | inr running ↦ simp running (same_turn m _ it refl)
]
