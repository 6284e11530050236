-- ===== src/Match/Invariant/Runs.antt =====
-- Every schedule of the tasks of a match keeps the invariant (src/server/match-instance.cpp).
use silent_tanks.Base.{
  ℕ, zero, suc, ◌+◌, ◌≤◌, ◌≡◌, Bool, true, Option, some, none, List, [], ◌∷◌, ◌++◌, length, set,
  refl, arith, ◌==◌, ◌!=◌, replicate, ltb, length-append, ltb→lt, Bool-cases, inl, inr, ap, sym,
}
use silent_tanks.Game.Types.{GameMap}
use silent_tanks.Protocol.Command.{Command}
use silent_tanks.Protocol.Header.{
  game_ended, stale_move, forfeit_match, static_match_data, player_view, timed_out,
}
use silent_tanks.Match.Types.{
  Match, PlayerInfo, Result, ok, ◌>>=◌, fetch, store, max_queue_size, start_turn_strand,
}
use silent_tanks.Match.Turns.{is_concluded, handle_timeout}
use silent_tanks.Match.Events.{
  new_match, find_player, enqueue, receive_command, forfeit, sync_player, on_timer, async_shutdown,
  Event, turn, command, forfeits, syncs, timer, shutdown, step, run, run_posted, start, send_static,
}
use silent_tanks.Match.Invariant.{
  Ensures, Ensures-bind, Ensures-then, Ensures-if, IsInv, AllFrom, QueuesOk, QueuesOk-set,
  QueuesOk-get, store-eq-ok, fetch-eq-ok, alive_count, alive_count-set,
}
use silent_tanks.Match.Invariant.Views.{send_player-IsInv, send-IsInv, compute_all_views-IsInv}
use silent_tanks.Match.Invariant.Turns.{seen-IsInv, handle_elimination-IsInv, empty_queue}
use silent_tanks.Match.Invariant.Tasks.{on_player_move_arrived-IsInv, start_turn-IsInv}

AllFrom-append :
    (k : ℕ) (q : List Command) (c : Command) → AllFrom k q → c.sender ≡ k → AllFrom k (q ++ c ∷ [])
AllFrom-append k [] c h e = (e, tt)
AllFrom-append k (d ∷ q) c h e = (h.0, AllFrom-append k q c h.1 e)

enqueue-IsInv :
    (m : Match) (k : ℕ) (cmd : Command) (t_id now : ℕ)
    → IsInv m
    → Ensures IsInv (enqueue m k cmd t_id now)
unfolding enqueue
enqueue-IsInv m k cmd t_id now inv = Ensures-bind IsInv (fetch m.command_queues k) _ λ q eq.
    Ensures-if IsInv (ltb (length q) max_queue_size) _ _
      (λ room.
        Ensures-bind IsInv (store m.command_queues k (q ++ record cmd { sender = k } ∷ [])) _
          λ queues es.
            let inv' : IsInv (record m { command_queues = queues }) = record {
              queues = longer q queues eq room es;
              tally = inv.tally;
              eliminated = inv.eliminated;
              few = inv.few;
              once = inv.once;
              silent = inv.silent;
            } in
            Ensures-if IsInv (k == m.current_player) _ _
              (λ _. on_player_move_arrived-IsInv _ t_id now inv') (λ _. inv'))
      (λ _. inv)
  where
    longer :
        (q : List Command) (queues : List (List Command))
        → fetch m.command_queues k ≡ ok q
        → ltb (length q) max_queue_size ≡ true
        → store m.command_queues k (q ++ record cmd { sender = k } ∷ []) ≡ ok queues
        → QueuesOk 0 queues
    longer q queues eq room es =
        let old =
          QueuesOk-get 0 k m.command_queues q inv.queues (fetch-eq-ok m.command_queues k q eq) in
        let new : Command = record cmd { sender = k } in
        rw (store-eq-ok m.command_queues queues k _ es) (
          QueuesOk-set 0 k m.command_queues (q ++ new ∷ []) inv.queues (
            omega (arith, length-append q (new ∷ []), ltb→lt _ _ room),
            AllFrom-append (k + 0) q new old.1 (omega arith),
          ))

-- The cases of the search for a player.
pub find_cases :
    (P : Match → Type 0) (m : Match) (user_id : ℕ) (absent : Result Match)
    (present : ℕ → Result Match)
    → Ensures P absent
    → ((k : ℕ) → Ensures P (present k))
    → Ensures P (
        find_player m.players user_id 0 m.n_players >>= λ found. elim found [
          | none ↦ absent
          | some k ↦ present k
        ])
find_cases P m user_id absent present h k =
    Ensures-bind P (find_player m.players user_id 0 m.n_players) _ λ found _. each found
  where
    each : (found : Option ℕ) → Ensures P (elim found [ none ↦ absent | some k ↦ present k ])
    each none = h
    each (some i) = k i

receive_command-IsInv :
    (m : Match) (user_id : ℕ) (cmd : Command) (t_id now : ℕ)
    → IsInv m
    → Ensures IsInv (receive_command m user_id cmd t_id now)
unfolding receive_command
receive_command-IsInv m user_id cmd t_id now inv = find_cases IsInv m user_id _ _ inv λ k.
    Ensures-if IsInv (is_concluded m.current_state) _ _ (λ _. send_player-IsInv m k game_ended inv)
      λ _.
        Ensures-if IsInv (t_id != m.turn_id) _ _ (λ _. send_player-IsInv m k stale_move inv)
          (λ _. enqueue-IsInv m k cmd t_id now inv)

forfeit-IsInv : (m : Match) (user_id : ℕ) → IsInv m → Ensures IsInv (forfeit m user_id)
unfolding forfeit
forfeit-IsInv m user_id inv = find_cases IsInv m user_id _ _ inv λ k.
    Ensures-if IsInv (is_concluded m.current_state) _ _ (λ _. send_player-IsInv m k game_ended inv)
      (λ _. handle_elimination-IsInv m k forfeit_match inv)

on_timer-IsInv :
    (m : Match) (t_id : ℕ) (cancelled : Bool) → IsInv m → Ensures IsInv (on_timer m t_id cancelled)
unfolding on_timer handle_timeout
on_timer-IsInv m t_id cancelled inv =
    Ensures-if IsInv (t_id != m.turn_id) _ _ (λ _. inv)
      λ _.
        Ensures-if IsInv m.turn_claimed _ _ (λ _. inv)
          λ _.
            Ensures-if IsInv cancelled _ _ (λ _. inv)
              (λ _. handle_elimination-IsInv _ m.current_player timed_out (seen-IsInv refl inv))

-- A player who comes back under another session.
rejoined :
    (m : Match) (k session_id : ℕ) (info : PlayerInfo) (players : List PlayerInfo)
    → IsInv m
    → fetch m.players k ≡ ok info
    → store m.players k (record info { session_id = session_id }) ≡ ok players
    → m.remaining_players ≡ alive_count players
rejoined m k session_id info players inv found stored =
    let back : PlayerInfo = record info { session_id = session_id } in
    let same : players ≡ set m.players k back = store-eq-ok m.players players k back stored in
    omega (
      arith,
      inv.tally,
      ap alive_count same,
      alive_count-set m.players k info back (fetch-eq-ok m.players k info found),
    )

sync_player-IsInv :
    (m : Match) (session_id user_id : ℕ)
    → IsInv m
    → Ensures IsInv (sync_player m session_id user_id)
unfolding sync_player
sync_player-IsInv m session_id user_id inv =
    Ensures-if IsInv (is_concluded m.current_state) _ _
      (λ _. send-IsInv m session_id game_ended inv)
      λ _. find_cases IsInv m user_id _ _ (send-IsInv m session_id game_ended inv) λ k.
        Ensures-bind IsInv (fetch m.players k) _ λ info e.
          Ensures-bind IsInv (store m.players k (record info { session_id = session_id })) _
            λ players es. Ensures-bind IsInv (store m.command_queues k []) _ λ queues eq.
              Ensures-then IsInv IsInv _ _
                (send_player-IsInv _ k static_match_data (record {
                  queues = empty_queue m k queues inv eq;
                  tally = rejoined m k session_id info players inv e es;
                  eliminated = inv.eliminated;
                  few = inv.few;
                  once = inv.once;
                  silent = inv.silent;
                }))
                (λ m1 inv1. send-IsInv m1 session_id player_view inv1)

async_shutdown-IsInv : (m : Match) → IsInv m → IsInv (async_shutdown m)
unfolding async_shutdown
async_shutdown-IsInv m inv = elim (Bool-cases m.stopped) [
  | inl stopped ↦ simp stopped inv
  | inr running ↦ simp running (record {
    queues = inv.queues;
    tally = inv.tally;
    eliminated = inv.eliminated;
    few = inv.few;
    once = omega (arith, inv.once);
    silent = λ _. (refl, refl);
  })
]

step-IsInv : (m : Match) (e : Event) → IsInv m → Ensures IsInv (step m e)
unfolding step
step-IsInv m (turn now) inv = posted m.posted
  where
    posted : (p : ℕ) → Ensures IsInv (run_posted m now p)
    posted zero = inv
    posted (suc p) = start_turn-IsInv _ now (seen-IsInv refl inv)
step-IsInv m (command user_id cmd t_id now) inv = receive_command-IsInv m user_id cmd t_id now inv
step-IsInv m (forfeits user_id) inv = forfeit-IsInv m user_id inv
step-IsInv m (syncs session_id user_id) inv = sync_player-IsInv m session_id user_id inv
step-IsInv m (timer t_id cancelled) inv = on_timer-IsInv m t_id cancelled inv
step-IsInv m shutdown inv = async_shutdown-IsInv m inv

run-IsInv : (m : Match) (es : List Event) → IsInv m → Ensures IsInv (run m es)
unfolding run
run-IsInv m [] inv = inv
run-IsInv m (e ∷ es) inv =
    Ensures-then IsInv IsInv _ _ (step-IsInv m e inv) (λ m' inv'. run-IsInv m' es inv')

send_static-IsInv : (m : Match) (id left : ℕ) → IsInv m → Ensures IsInv (send_static m id left)
unfolding send_static
send_static-IsInv m id zero inv = inv
send_static-IsInv m id (suc left) inv =
    Ensures-then IsInv IsInv _ _ (send_player-IsInv m id static_match_data inv)
      (λ m' inv'. send_static-IsInv m' (id + 1) left inv')

start-IsInv : (m : Match) → IsInv m → Ensures IsInv (start m)
unfolding start
start-IsInv m inv =
    Ensures-then IsInv IsInv _ _ (send_static-IsInv m 0 (length m.players) inv) λ m1 inv1.
      Ensures-then IsInv IsInv _ _ (compute_all_views-IsInv m1 inv1)
        (λ m2 inv2. unfold start_turn_strand in seen-IsInv refl inv2)

replicate-QueuesOk : (k n : ℕ) → QueuesOk k (replicate n [])
replicate-QueuesOk k zero = tt
replicate-QueuesOk k (suc n) = ((omega arith, tt), replicate-QueuesOk (suc k) n)

new_match-IsInv :
    (map : GameMap) (players : List PlayerInfo) (initial_time increment unset : ℕ)
    → alive_count players ≡ map.map_settings.num_players
    → map.map_settings.num_players ≤ 255
    → IsInv (new_match map players initial_time increment unset)
unfolding new_match
new_match-IsInv map players initial_time increment unset all_alive few = record {
  queues = replicate-QueuesOk 0 map.map_settings.num_players;
  tally = sym all_alive;
  eliminated = omega arith;
  few = few;
  once = omega arith;
  silent = λ never. cc;
}

-- A match of at most 255 players who are all alive is constructed and started, and any tasks then
-- run, in any order: turns, commands, forfeits, players who reconnect, timers and shutdown. If none
-- of them faults, then each queue of commands holds at most 8 commands, all from its player,
-- `remaining_players` is the number of living players, `elim_counter` and it add up to the players,
-- the results were reported at most once, and a match that has concluded has no callbacks.
pub run-start-IsInv :
    (map : GameMap) (players : List PlayerInfo) (initial_time increment unset : ℕ) (es : List Event)
    → alive_count players ≡ map.map_settings.num_players
    → map.map_settings.num_players ≤ 255
    → Ensures IsInv (start (new_match map players initial_time increment unset) >>= λ m. run m es)
run-start-IsInv map players initial_time increment unset es all_alive few =
    Ensures-then IsInv IsInv _ _
      (start-IsInv _ (new_match-IsInv map players initial_time increment unset all_alive few))
      (λ m inv. run-IsInv m es inv)
