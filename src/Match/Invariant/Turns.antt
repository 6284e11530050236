-- ===== src/Match/Invariant/Turns.antt =====
-- The turns and the eliminations keep the invariant (src/server/match-instance.cpp).
use silent_tanks.Base.{
  ℕ, ◌+◌, ◌≡◌, Bool, true, false, List, [], refl, arith, not, ◌∙◌, ap, sym, ltb, sub8,
}
use silent_tanks.Game.Types.{GameState}
use silent_tanks.Game.Grid.{get_player}
use silent_tanks.Protocol.Command.{Command}
use silent_tanks.Protocol.Header.{HeaderType, failed_move}
use silent_tanks.Match.Types.{
  Match, PlayerInfo, ok, fetch, store, in_range, start_turn_strand, ApplyResult,
}
use silent_tanks.Match.Apply.{is_setup, apply_command}
use silent_tanks.Match.Turns.{
  scrap_tanks, pass_turn, eliminate, handle_elimination, finish_turn, play_command,
}
use silent_tanks.Match.Invariant.{
  Ensures, Ensures-bind, Ensures-then, Ensures-if, IsInv, lose_player, QueuesOk, QueuesOk-set,
  store-eq-ok, alive_count, one_if,
}
use silent_tanks.Match.Invariant.Views.{send_player-IsInv, compute_all_views-IsInv, viewed-IsInv}

-- What the invariant reads of a match.
abbrev pub Seen : Type 0
Seen = List (List Command) × ℕ × List PlayerInfo × ℕ × ℕ × ℕ × Bool × Bool × GameState

abbrev pub seen : Match → Seen
seen m = (
  m.command_queues, m.remaining_players, m.players, m.elim_counter, m.n_players, m.reported,
  m.results_set, m.send_set, m.current_state,
)

pub seen-IsInv : {m n : Match} → seen n ≡ seen m → IsInv m → IsInv n
seen-IsInv e inv = record {
  queues = rw (ap (λ (s : Seen). s.0) e) inv.queues;
  tally = ap (λ (s : Seen). s.1) e ∙ inv.tally ∙ ap (λ (s : Seen). alive_count s.2) (sym e);
  eliminated = ap (λ (s : Seen). s.3 + s.1) e ∙ inv.eliminated ∙ ap (λ (s : Seen). s.4) (sym e);
  few = rw (ap (λ (s : Seen). s.4) e) inv.few;
  once = rw (ap (λ (s : Seen). s.5 + one_if s.6) e) inv.once;
  silent =
      rw (ap (λ (s : Seen). s.8) e, ap (λ (s : Seen). s.7) e, ap (λ (s : Seen). s.6) e) inv.silent;
}

pub empty_queue :
    (m : Match) (k : ℕ) (queues : List (List Command))
    → IsInv m
    → store m.command_queues k [] ≡ ok queues
    → QueuesOk 0 queues
empty_queue m k queues inv e =
    rw (store-eq-ok m.command_queues queues k [] e)
      (QueuesOk-set 0 k m.command_queues [] inv.queues (omega arith, tt))

pass_turn-seen : (m : Match) (k : ℕ) → seen (pass_turn m k) ≡ seen m
pass_turn-seen m k = ground arith

eliminate-IsInv :
    (m : Match) (k : ℕ) (reason : HeaderType) (info : PlayerInfo)
    → fetch m.players k ≡ ok info
    → info.alive ≡ true
    → IsInv m
    → Ensures IsInv (eliminate m k reason)
unfolding eliminate
eliminate-IsInv m k reason info found alive inv =
    Ensures-bind IsInv (store m.command_queues k []) _ λ queues eq.
      Ensures-bind IsInv (in_range (get_player m.game k)) _ λ this_player ep.
        Ensures-bind IsInv (store m.time_left k 0) _ λ time_left et. rw found (
          Ensures-bind IsInv (store m.players k (record info { alive = false })) _ λ players e.
            Ensures-bind IsInv (store m.results.elimination_order k m.elim_counter) _ λ order eo.
              let counts = lose_player m k info players inv found alive e in
              Ensures-then IsInv IsInv _ _
                (send_player-IsInv _ k reason (record {
                  queues = empty_queue m k queues inv eq;
                  tally = counts.0;
                  eliminated = counts.1;
                  few = inv.few;
                  once = inv.once;
                  silent = inv.silent;
                }))
                λ informed inv'.
                  Ensures-bind IsInv
                    (scrap_tanks m.game this_player.owned_tank_ids 0 this_player.tanks_placed) _
                    λ game eg.
                      Ensures-then IsInv IsInv _ _
                        (compute_all_views-IsInv _ (seen-IsInv refl inv'))
                        λ viewed inv''.
                          seen-IsInv (unfold start_turn_strand in pass_turn-seen viewed k) inv'')

pub handle_elimination-IsInv :
    (m : Match) (k : ℕ) (reason : HeaderType)
    → IsInv m
    → Ensures IsInv (handle_elimination m k reason)
unfolding handle_elimination
handle_elimination-IsInv m k reason inv = Ensures-bind IsInv (fetch m.players k) _ λ info e.
    Ensures-if IsInv (not info.alive) (ok m) (eliminate m k reason) (λ _. inv)
      (λ alive. eliminate-IsInv m k reason info e (ground arith) inv)

-- Commands change the game and the count of placed tanks alone.
apply_command-seen :
    (m m' : Match) (cmd : Command) (res : ApplyResult)
    → apply_command m cmd ≡ ok (res, m')
    → seen m' ≡ seen m
unfolding apply_command
apply_command-seen m m' cmd res e = ground arith

finish_turn-IsInv : (m : Match) → IsInv m → Ensures IsInv (finish_turn m)
unfolding finish_turn
finish_turn-IsInv m inv =
    Ensures-if IsInv (is_setup m.current_state) _ _ (λ _. viewed-IsInv _ (seen-IsInv refl inv))
      λ _.
        Ensures-if IsInv (ltb 0 (sub8 m.current_fuel 1)) _ _
          (λ _. viewed-IsInv _ (seen-IsInv refl inv)) (λ _. viewed-IsInv _ (seen-IsInv refl inv))

pub play_command-IsInv : (m : Match) (cmd : Command) → IsInv m → Ensures IsInv (play_command m cmd)
unfolding play_command
play_command-IsInv m cmd inv = Ensures-bind IsInv (apply_command m cmd) _ λ (res, m1) e.
    let inv1 = seen-IsInv (apply_command-seen m m1 cmd res e) inv in
    Ensures-if IsInv (not res.valid_move) _ _
      (λ _.
        Ensures-then IsInv IsInv _ _ (send_player-IsInv m1 m1.current_player failed_move inv1)
          (λ m2 inv2. unfold start_turn_strand in seen-IsInv refl inv2))
      (λ _. Ensures-bind IsInv (fetch m1.time_left m1.current_player) _ λ left el.
        Ensures-bind IsInv (store m1.time_left m1.current_player (left + m1.increment)) _
          λ time_left et. finish_turn-IsInv _ (seen-IsInv refl inv1))
