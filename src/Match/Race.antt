-- ===== src/Match/Race.antt =====
-- The race between the timer of a turn and the moves for it (src/server/match-instance.cpp), which
-- `turn_ID_` and `turn_claimed_` decide, whatever tasks the strand runs afterwards.
use silent_tanks.Base.{
  ℕ, zero, suc, ◌+◌, ◌%◌, ◌<◌, Bool, true, false, List, [], ◌∷◌, ◌==◌, ◌!=◌, ◌≡◌, refl, arith,
  Bool-cases, inl, inr, ◌≤◌, ◌+◌,
}
use silent_tanks.Match.Types.{Match, Result, ok, ◌>>=◌}
use silent_tanks.Match.Turns.{is_concluded, handle_timeout, on_player_move_arrived}
use silent_tanks.Match.Events.{
  on_timer, Event, turn, command, forfeits, syncs, timer, shutdown, step, run, run_posted,
  async_shutdown,
}
use silent_tanks.Match.Invariant.{Ensures, Ensures-if, Ensures-then}
use silent_tanks.Match.Claims.{handle_elimination-Keeps, take_turn-Keeps}
use silent_tanks.Match.Claims.Starts.{start_turn-InTurn}
use silent_tanks.Match.Claims.Tasks.{
  InTurn, Ensures-map, claimed_kept, timer-InTurn, command-InTurn, forfeit-InTurn, sync-InTurn,
  shutdown-InTurn,
}

-- How many starts of a turn a task is, and a schedule of tasks holds.
abbrev starts : Event → ℕ
starts (turn now) = 1
starts (command user_id cmd t_id now) = 0
starts (forfeits user_id) = 0
starts (syncs session_id user_id) = 0
starts (timer t_id cancelled) = 0
starts shutdown = 0

unfoldable pub turns : List Event → ℕ
turns [] = 0
turns (e ∷ es) = starts e + turns es

-- Neither a move nor the timer for turn `t` changes the match.
pub record Deaf (t : ℕ) (m : Match) : Type 0 where
  pub move : (now : ℕ) → on_player_move_arrived m t now ≡ ok m
  pub timeout : (cancelled : Bool) → on_timer m t cancelled ≡ ok m

-- Turn `t`, which is claimed, or one of at most `n` turns after it.
abbrev Since : ℕ → ℕ → Match → Type 0
Since t n m = (k : ℕ) × (k < suc n) × InTurn ((t + k) % 4294967296) (k == 0) m

Since-more : (t n n' : ℕ) (m : Match) → n ≤ n' → Since t n m → Since t n' m
Since-more t n n' m more (k, few, it) = (k, omega (arith, few, more), it)

begun :
    (t n : ℕ) (m : Match) (now : ℕ)
    → Since t n m
    → (p : ℕ) → Ensures (Since t (n + 1)) (run_posted m now p)
begun t n m now since zero = Since-more t n (n + 1) m (omega arith) since
begun t n m now (k, few, it) (suc p) =
    Ensures-map (InTurn ((m.turn_id + 1) % 4294967296) false) (Since t (n + 1)) _
      (λ m' it'. (
        suc k,
        omega (arith, few),
        record {
          number = omega (arith, it'.number, it.number);
          claimed = λ never. ground (arith, never);
        },
      ))
      (start_turn-InTurn (record m { posted = p }) now)

-- A task that starts no turn.
within :
    (t n : ℕ) (m : Match) (r : Result Match)
    → Since t n m
    → ((x : ℕ) (c : Bool) → InTurn x c m → Ensures (InTurn x c) r)
    → Ensures (Since t (n + 0)) r
within t n m r (k, few, it) keeps =
    Ensures-map (InTurn ((t + k) % 4294967296) (k == 0)) (Since t (n + 0)) r
      (λ m' it'. (k, omega (arith, few), it')) (keeps _ _ it)

step-Since :
    (t n : ℕ) (m : Match) (e : Event) → Since t n m → Ensures (Since t (n + starts e)) (step m e)
unfolding step
step-Since t n m (turn now) s = begun t n m now s m.posted
step-Since t n m (command user_id cmd t_id now) s =
    within t n m _ s (λ x c. command-InTurn m user_id cmd t_id now)
step-Since t n m (forfeits user_id) s = within t n m _ s (λ x c. forfeit-InTurn m user_id)
step-Since t n m (syncs session_id user_id) s =
    within t n m _ s (λ x c. sync-InTurn m session_id user_id)
step-Since t n m (timer t_id cancelled) s = within t n m _ s (λ x c. timer-InTurn m t_id cancelled)
step-Since t n m shutdown s = within t n m (ok (async_shutdown m)) s (λ x c. shutdown-InTurn m)

run-Since :
    (t n : ℕ) (m : Match) (es : List Event)
    → Since t n m
    → Ensures (Since t (n + turns es)) (run m es)
unfolding run turns
run-Since t n m [] since = Since-more t n (n + 0) m (omega arith) since
run-Since t n m (e ∷ es) since =
    Ensures-then (Since t (n + starts e)) (Since t (n + (starts e + turns es))) _ _
      (step-Since t n m e since)
      λ m' since'.
        Ensures-map (Since t (n + starts e + turns es)) (Since t (n + (starts e + turns es))) _
          (λ m'' s. Since-more t _ _ m'' (omega arith) s) (run-Since t (n + starts e) m' es since')

claimed-Deaf : (t n : ℕ) (m : Match) → t < 4294967296 → n < 4294967296 → Since t n m → Deaf t m
unfolding on_player_move_arrived on_timer
claimed-Deaf t n m small few (k, within, it) = elim (Bool-cases (t != m.turn_id)) [
  | inl stale ↦ record { move = λ now. rw stale refl; timeout = λ cancelled. rw stale refl }
  | inr current ↦
      let claimed = it.claimed (ground (arith, it.number, current, small, few, within)) in
      record {
        move = λ now. rw (current, claimed) refl;
        timeout = λ cancelled. rw (current, claimed) refl;
      }
]

move-claims :
    (m : Match) (now : ℕ) → Ensures (InTurn m.turn_id true) (on_player_move_arrived m m.turn_id now)
unfolding on_player_move_arrived
move-claims m now =
    Ensures-if (InTurn m.turn_id true) (m.turn_id != m.turn_id) _ _ (λ e. ground (arith, e))
      λ _.
        Ensures-if (InTurn m.turn_id true) m.turn_claimed _ _
          (λ e. record { number = refl; claimed = λ _. e })
          λ _.
            let taken : Match = record m { turn_claimed = true } in
            let it : InTurn m.turn_id true taken = record { number = refl; claimed = λ _. refl } in
            Ensures-if (InTurn m.turn_id true) (is_concluded m.current_state) _ _ (λ _. it)
              (λ _. claimed_kept taken _ it (take_turn-Keeps taken now refl))

timer-claims : (m : Match) → Ensures (InTurn m.turn_id true) (on_timer m m.turn_id false)
unfolding on_timer handle_timeout
timer-claims m =
    Ensures-if (InTurn m.turn_id true) (m.turn_id != m.turn_id) _ _ (λ e. ground (arith, e))
      λ _.
        Ensures-if (InTurn m.turn_id true) m.turn_claimed _ _
          (λ e. record { number = refl; claimed = λ _. e })
          (λ _.
            let taken : Match = record m { turn_claimed = true } in
            let it : InTurn m.turn_id true taken = record { number = refl; claimed = λ _. refl } in
            claimed_kept taken _ it (handle_elimination-Keeps taken m.current_player _ refl))

afterwards :
    (t : ℕ) (r : Result Match) (es : List Event)
    → t < 4294967296
    → turns es < 4294967296
    → Ensures (InTurn t true) r
    → Ensures (Deaf t) (r >>= λ m. run m es)
afterwards t r es small few claims = Ensures-then (InTurn t true) (Deaf t) r _ claims λ m it.
    Ensures-map (Since t (0 + turns es)) (Deaf t) _
      (λ m' s. claimed-Deaf t (0 + turns es) m' small (omega (arith, few)) s)
      (run-Since t 0 m es
        (0, omega arith, record { number = omega (arith, it.number, small); claimed = it.claimed }))

-- A move and a timeout of one turn cannot both act: the handler of either one runs for the turn
-- that a match is in, and then any tasks of the strand run, in any order, with fewer than 2 ^ 32
-- starts of a turn among them. If none of them faults, no move and no timer for that turn changes
-- the match that is left.
pub one_claim :
    (m : Match) (now : ℕ) (es : List Event)
    → m.turn_id < 4294967296
    → turns es < 4294967296
    → Ensures (Deaf m.turn_id) (on_player_move_arrived m m.turn_id now >>= λ m'. run m' es)
      × Ensures (Deaf m.turn_id) (on_timer m m.turn_id false >>= λ m'. run m' es)
one_claim m now es small few = (
  afterwards m.turn_id _ es small few (move-claims m now),
  afterwards m.turn_id _ es small few (timer-claims m),
)
