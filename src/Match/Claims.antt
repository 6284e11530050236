-- ===== src/Match/Claims.antt =====
-- The turn of a match and its claim, `turn_ID_` and `turn_claimed_`, which a move and an elimination
-- leave as they are (src/server/match-instance.cpp).
pub mod Tasks
pub mod Starts
use silent_tanks.Game.Grid.{get_player}
use silent_tanks.Base.{
  ℕ, zero, suc, ◌+◌, Bool, false, ltb, ◌==◌, not, ◌&&◌, if◌then◌else◌, none, [], ◌∷◌, ◌≡◌, arith,
  Option-cases, inl, inr, ◌-◌, sub8, add8,
}
use silent_tanks.Protocol.Command.{Command, command_head}
use silent_tanks.Protocol.Header.{HeaderType}
use silent_tanks.Match.Types.{
  Match, ok, ◌>>=◌, send, send_player, fetch, store, in_range, start_turn_strand, ApplyResult,
}
use silent_tanks.Match.Apply.{apply_command, is_setup}
use silent_tanks.Match.Views.{
  eliminate_empty, view_player, view_players, compute_all_views, live_tanks,
}
use silent_tanks.Match.Turns.{
  eliminate, handle_elimination, pop_command, finish_turn, pass_turn, play_command, take_turn,
  scrap_tanks,
}
use silent_tanks.Match.Invariant.{Ensures, Ensures-bind, Ensures-then, Ensures-if}

-- The turn and whether it is claimed.
abbrev pub Claim : Type 0
Claim = ℕ × Bool

abbrev pub claim : Match → Claim
claim m = (m.turn_id, m.turn_claimed)

-- A computation that leaves the claim `c` as it is.
abbrev pub Keeps : Claim → Match → Type 0
Keeps c m = claim m ≡ c

pub send_player-Keeps :
    {c : Claim} (m : Match) (k : ℕ) (kind : HeaderType)
    → Keeps c m
    → Ensures (Keeps c) (send_player m k kind)
unfolding send_player send
send_player-Keeps {c} m k kind h =
    Ensures-bind (Keeps c) (fetch m.players k) _
      λ info e. Ensures-if (Keeps c) m.send_set _ _ (λ _. h) (λ _. tt)

view_player-Keeps :
    {c : Claim} (m : Match) (i : ℕ) → Keeps c m → Ensures (Keeps c) (view_player m i)
unfolding view_player eliminate_empty
view_player-Keeps {c} m i h = Ensures-bind (Keeps c) (fetch m.players i) _ λ info e.
    Ensures-if (Keeps c) (not info.alive) _ _ (λ _. h)
      λ _. Ensures-bind (Keeps c) (live_tanks m.game i) _ λ live el.
        Ensures-then (Keeps c) (Keeps c) _ _
          (Ensures-if (Keeps c) ((live == 0) && not (is_setup m.current_state)) _ _
            (λ _. Ensures-bind (Keeps c) (fetch m.players i) _ λ info' e'.
              Ensures-bind (Keeps c) (store m.players i (record info' { alive = false })) _
                λ players ep.
                  Ensures-bind (Keeps c) (store m.results.elimination_order i m.elim_counter) _
                    λ order eo. send_player-Keeps _ i _ h)
            (λ _. h))
          (λ m' h'. send_player-Keeps m' i _ h')

view_players-Keeps :
    {c : Claim} (m : Match) (i left : ℕ) → Keeps c m → Ensures (Keeps c) (view_players m i left)
unfolding view_players
view_players-Keeps m i zero h = h
view_players-Keeps {c} m i (suc left) h =
    Ensures-then (Keeps c) (Keeps c) _ _ (view_player-Keeps m i h)
      (λ m' h'. view_players-Keeps m' (i + 1) left h')

pub compute_all_views-Keeps :
    {c : Claim} (m : Match) → Keeps c m → Ensures (Keeps c) (compute_all_views m)
unfolding compute_all_views
compute_all_views-Keeps m h = view_players-Keeps m 0 m.n_players h

-- The views, and then a new turn posted.
pub posted-Keeps :
    {c : Claim} (m : Match)
    → Keeps c m
    → Ensures (Keeps c) (compute_all_views m >>= λ v. ok (start_turn_strand v))
unfolding start_turn_strand
posted-Keeps {c} m h =
    Ensures-then (Keeps c) (Keeps c) _ _ (compute_all_views-Keeps m h) (λ v h'. h')

pass_turn-Keeps : {c : Claim} (m : Match) (k : ℕ) → Keeps c m → Keeps c (pass_turn m k)
pass_turn-Keeps m k h = ground (arith, h)

pub handle_elimination-Keeps :
    {c : Claim} (m : Match) (k : ℕ) (reason : HeaderType)
    → Keeps c m
    → Ensures (Keeps c) (handle_elimination m k reason)
unfolding handle_elimination eliminate start_turn_strand
handle_elimination-Keeps {c} m k reason h = Ensures-bind (Keeps c) (fetch m.players k) _ λ info e.
    Ensures-if (Keeps c) (not info.alive) _ _ (λ _. h)
      λ _. Ensures-bind (Keeps c) (store m.command_queues k []) _ λ queues eq.
        Ensures-bind (Keeps c) (in_range (get_player m.game k)) _ λ this_player ep.
          Ensures-bind (Keeps c) (store m.time_left k 0) _ λ left et.
            Ensures-bind (Keeps c) (fetch m.players k) _ λ info' e'.
              Ensures-bind (Keeps c) (store m.players k (record info' { alive = false })) _
                λ players es.
                  Ensures-bind (Keeps c) (store m.results.elimination_order k m.elim_counter) _
                    λ order eo.
                      let lost : Match = record m {
                        command_queues = queues;
                        remaining_players = sub8 m.remaining_players 1;
                        time_left = left;
                        players = players;
                        results = record (m.results) { elimination_order = order };
                        elim_counter = add8 m.elim_counter 1;
                      } in
                      Ensures-then (Keeps c) (Keeps c) (send_player lost k reason) _
                        (send_player-Keeps lost k reason h)
                        λ told h'.
                          Ensures-bind (Keeps c)
                            (scrap_tanks m.game this_player.owned_tank_ids 0
                              this_player.tanks_placed)
                            _
                            λ game eg.
                              let scrapped : Match = record told {
                                game = game;
                                tanks_placed =
                                    if is_setup m.current_state
                                    then sub8 m.tanks_placed this_player.tanks_placed
                                    else m.tanks_placed;
                              } in
                              Ensures-then (Keeps c) (Keeps c) (compute_all_views scrapped) _
                                (compute_all_views-Keeps scrapped h')
                                (λ viewed h''. pass_turn-Keeps viewed k h'')

apply_command-Keeps :
    {c : Claim} (m m' : Match) (cmd : Command) (res : ApplyResult)
    → apply_command m cmd ≡ ok (res, m')
    → Keeps c m
    → Keeps c m'
unfolding apply_command
apply_command-Keeps m m' cmd res e h = ground (arith, h)

finish_turn-Keeps : {c : Claim} (m : Match) → Keeps c m → Ensures (Keeps c) (finish_turn m)
unfolding finish_turn
finish_turn-Keeps {c} m h =
    Ensures-if (Keeps c) (is_setup m.current_state) _ _ (λ _. posted-Keeps _ h)
      (λ _.
        Ensures-if (Keeps c) (ltb 0 (sub8 m.current_fuel 1)) _ _ (λ _. posted-Keeps _ h)
          (λ _. posted-Keeps _ h))

play_command-Keeps :
    {c : Claim} (m : Match) (cmd : Command) → Keeps c m → Ensures (Keeps c) (play_command m cmd)
unfolding play_command start_turn_strand
play_command-Keeps {c} m cmd h = Ensures-bind (Keeps c) (apply_command m cmd) _ λ (res, m1) e.
    let h1 = apply_command-Keeps m m1 cmd res e h in
    Ensures-if (Keeps c) (not res.valid_move) _ _
      (λ _.
        Ensures-then (Keeps c) (Keeps c) _ _ (send_player-Keeps m1 m1.current_player _ h1)
          (λ m2 h2. h2))
      (λ _. Ensures-bind (Keeps c) (fetch m1.time_left m1.current_player) _ λ left el.
        Ensures-bind (Keeps c) (store m1.time_left m1.current_player (left + m1.increment)) _
          λ time_left et.
            finish_turn-Keeps
              (record m1 {
                time_left = time_left;
                results = record (m1.results) {
                  move_history = command_head cmd ∷ m1.results.move_history;
                };
              })
              h1)

pub take_turn-Keeps :
    {c : Claim} (m : Match) (now : ℕ) → Keeps c m → Ensures (Keeps c) (take_turn m now)
unfolding take_turn
take_turn-Keeps {c} m now h =
    Ensures-bind (Keeps c) (fetch m.command_queues m.current_player) _ λ queue eq.
      elim (Option-cases (pop_command queue)) [
        | inl nothing ↦ rw nothing h
        | inr ((cmd, rest), some_one) ↦ rw some_one (
            Ensures-bind (Keeps c) _ _ λ queues es.
              Ensures-bind (Keeps c) (store m.time_left m.current_player (m.expiry_time - now)) _
                λ left et.
                  play_command-Keeps
                    (record m { command_queues = queues; time_left = left; timer = none }) cmd h)
      ]
