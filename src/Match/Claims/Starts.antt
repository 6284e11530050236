-- ===== src/Match/Claims/Starts.antt =====
-- The start of a turn takes the next number and no claim, and what follows it keeps both
-- (src/server/match-instance.cpp).
use silent_tanks.Game.Types.{play, turn_player_fuel}
use silent_tanks.Base.{
  ℕ, zero, suc, ◌+◌, ◌%◌, ◌&&◌, ◌*◌, Bool, false, ltb, leb, not, if◌then◌else◌, some, List, [], ◌∷◌,
  refl,
}
use silent_tanks.Protocol.Command.{Command}
use silent_tanks.Protocol.Header.{victory}
use silent_tanks.Match.Types.{Match, ok, fetch, store, no_id, next_player}
use silent_tanks.Match.Apply.{is_setup}
use silent_tanks.Match.Turns.{
  on_player_move_arrived, start_turn, end_setup, await_move, conclude_game, find_winner, report,
}
use silent_tanks.Match.Events.{}
use silent_tanks.Match.Invariant.{Ensures, Ensures-bind, Ensures-then, Ensures-if}
use silent_tanks.Match.Claims.{
  Claim, Keeps, send_player-Keeps, compute_all_views-Keeps, posted-Keeps,
}
use silent_tanks.Match.Claims.Tasks.{InTurn, kept, same_turn, move-InTurn}

find_winner-Keeps :
    {d : Claim} (m : Match) (i left winner : ℕ)
    → Keeps d m
    → Ensures (λ (r : ℕ × Match). Keeps d r.1) (find_winner m i left winner)
unfolding find_winner
find_winner-Keeps m i zero winner h = h
find_winner-Keeps {d} m i (suc left) winner h =
    Ensures-bind (λ (r : ℕ × Match). Keeps d r.1) (fetch m.players i) _
      λ info e.
        Ensures-bind (λ (r : ℕ × Match). Keeps d r.1)
          (if info.alive
            then store m.results.elimination_order i m.elim_counter
            else ok m.results.elimination_order)
          _
          λ order eo.
            Ensures-bind (λ (r : ℕ × Match). Keeps d r.1) (store m.results.user_ids i info.user_id)
              _
              λ ids ei.
                find_winner-Keeps
                  (record m {
                    results = record (m.results) { elimination_order = order; user_ids = ids };
                  })
                  (i + 1) left (if info.alive then i else winner) h

conclude_game-Keeps : {d : Claim} (m : Match) → Keeps d m → Ensures (Keeps d) (conclude_game m)
unfolding conclude_game report
conclude_game-Keeps {d} m h =
    Ensures-if (Keeps d) m.stopped _ _ (λ _. h)
      λ _.
        Ensures-then (λ (r : ℕ × Match). Keeps d r.1) (Keeps d) _ _
          (find_winner-Keeps _ 0 m.n_players no_id h)
          λ (winner, m1) h1.
            Ensures-then (Keeps d) (Keeps d) _ _
              (Ensures-if (Keeps d) (ltb winner m.n_players) _ _
                (λ _. send_player-Keeps m1 winner victory h1) (λ _. h1))
              λ m2 h2.
                Ensures-then (Keeps d) (Keeps d) _ _
                  (Ensures-if (Keeps d) m2.results_set _ _ (λ _. h2) (λ _. tt)) (λ m3 h3. h3)

end_setup-Keeps : {d : Claim} (m : Match) → Keeps d m → Ensures (Keeps d) (end_setup m)
unfolding end_setup
end_setup-Keeps {d} m h =
    Ensures-if (Keeps d)
      (is_setup m.current_state && leb (m.remaining_players * m.game.num_tanks) m.tanks_placed) _ _
      (λ _.
        compute_all_views-Keeps
          (record m { current_state = play; current_player = 0; current_fuel = turn_player_fuel })
          h)
      (λ _. h)

await_move-InTurn :
    {n : ℕ} {c : Bool} (m : Match) (now : ℕ)
    → InTurn n c m
    → Ensures (InTurn n c) (await_move m now)
unfolding await_move
await_move-InTurn {n} {c} m now it =
    Ensures-bind (InTurn n c) (fetch m.time_left m.current_player) _ λ left el.
      Ensures-bind (InTurn n c) (fetch m.command_queues m.current_player) _
        λ queue eq. waiting queue left
  where
    waiting :
        (queue : List Command) (left : ℕ)
        → Ensures (InTurn n c) (elim queue [
          | [] ↦ ok (record m { expiry_time = now + left; timer = some m.turn_id })
          | _ ∷ _ ↦
              on_player_move_arrived
                (record m { expiry_time = now + left; timer = some m.turn_id })
                m.turn_id
                now
        ])
    waiting [] left = same_turn m _ it refl
    waiting (x ∷ xs) left = move-InTurn _ m.turn_id now (same_turn m _ it refl)

-- The start of a turn takes the next number, modulo 2 ^ 32.
pub start_turn-InTurn :
    (m : Match) (now : ℕ) → Ensures (InTurn ((m.turn_id + 1) % 4294967296) false) (start_turn m now)
unfolding start_turn
start_turn-InTurn m now =
    let n = (m.turn_id + 1) % 4294967296 in
    let next : Match = record m { turn_id = n; turn_claimed = false } in
    let fresh : InTurn n false next = record { number = refl; claimed = λ never. cc } in
    Ensures-then (Keeps (n, false)) (InTurn n false) _ _ (end_setup-Keeps next refl) λ m1 k.
      let it = same_turn next m1 fresh k in
      Ensures-if (InTurn n false) (leb m1.remaining_players 1) _ _
        (λ _. kept m1 _ it (conclude_game-Keeps m1 refl))
        λ _. Ensures-bind (InTurn n false) (fetch m1.players m1.current_player) _ λ info e.
          Ensures-if (InTurn n false) (not info.alive) _ _
            (λ _. kept m1 _ it (posted-Keeps (record m1 { current_player = next_player m1 }) refl))
            (λ _. await_move-InTurn m1 now it)
