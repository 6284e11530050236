-- ===== src/Match/Invariant/Tasks.antt =====
-- The end of a match, the start of a turn and the tasks from outside keep the invariant
-- (src/server/match-instance.cpp).
use silent_tanks.Match.Apply.{is_setup}
use silent_tanks.Base.{
  ℕ, zero, suc, ◌+◌, ◌≡◌, true, false, if◌then◌else◌, some, none, List, [], ◌∷◌, length, set, refl,
  arith, ◌&&◌, not, Option-cases, inl, inr, ap, ltb, Bool-cases, sym, subst, ◌∙◌, leb, ◌-◌, ◌!=◌,
  ◌*◌,
}
use silent_tanks.Game.Types.{concluded}
use silent_tanks.Protocol.Command.{Command}
use silent_tanks.Protocol.Header.{HeaderType, victory}
use silent_tanks.Match.Types.{Match, ok, send, send_player, fetch, store, no_id}
use silent_tanks.Match.Turns.{
  is_concluded, find_winner, report, conclude_game, pop_command, take_turn, on_player_move_arrived,
  end_setup, await_move, start_turn,
}
use silent_tanks.Match.Invariant.{
  Ensures, Ensures-bind, Ensures-then, Ensures-if, IsInv, AllFrom, QueuesOk, QueuesOk-set,
  QueuesOk-get, store-eq-ok, fetch-eq-ok, one_if,
}
use silent_tanks.Match.Invariant.Views.{compute_all_views-IsInv, viewed-IsInv}
use silent_tanks.Match.Invariant.Turns.{seen, seen-IsInv, play_command-IsInv, Seen}

send_player-seen :
    (m m' : Match) (k : ℕ) (kind : HeaderType) → send_player m k kind ≡ ok m' → seen m' ≡ seen m
unfolding send_player send
send_player-seen m m' k kind e = ground arith

pub find_winner-seen :
    (m : Match) (i left w : ℕ)
    → Ensures (λ (r : ℕ × Match). seen r.1 ≡ seen m) (find_winner m i left w)
unfolding find_winner
find_winner-seen m i zero w = refl
find_winner-seen m i (suc left) w = Ensures-bind _ (fetch m.players i) _ λ info e.
    Ensures-bind _
      (if info.alive
        then store m.results.elimination_order i m.elim_counter
        else ok m.results.elimination_order)
      _
      λ order eo. Ensures-bind _ (store m.results.user_ids i info.user_id) _ λ ids ei.
        find_winner-seen
          (record m { results = record (m.results) { elimination_order = order; user_ids = ids } })
          (i + 1) left (if info.alive then i else w)

report-eq-ok :
    (m m' : Match)
    → report m ≡ ok m'
    → (m.results_set ≡ true) × (m' ≡ record m { reported = m.reported + 1 })
unfolding report
report-eq-ok m m' e = ground arith

-- The end of a match, after its result was reported.
concluded-IsInv :
    (m m' : Match)
    → IsInv m
    → seen m' ≡ seen (record m { current_state = concluded })
    → m'.results_set ≡ true
    → IsInv (record m' {
      reported = m'.reported + 1;
      timer = none;
      send_set = false;
      results_set = false;
    })
concluded-IsInv m m' inv same set =
    let was_set : m.results_set ≡ true = ap (λ (s : Seen). s.6) (sym same) ∙ set in
    let final : Match = record m {
      current_state = concluded;
      reported = m.reported + 1;
      send_set = false;
      results_set = false;
    } in
    let final-IsInv : IsInv final = record {
      queues = inv.queues;
      tally = inv.tally;
      eliminated = inv.eliminated;
      few = inv.few;
      once = omega (arith, inv.once, ap one_if was_set);
      silent = λ _. (refl, refl);
    } in
    seen-IsInv (ap (λ (s : Seen). (s.0, s.1, s.2, s.3, s.4, s.5 + 1, false, false, s.8)) same)
      final-IsInv

-- A match that is not stopped concludes with its callbacks given up, once.
pub conclude_game-IsInv : (m : Match) → IsInv m → Ensures IsInv (conclude_game m)
unfolding conclude_game
conclude_game-IsInv m inv =
    Ensures-if IsInv m.stopped (ok m) _ (λ _. inv)
      λ _.
        Ensures-then _ IsInv _ _
          (find_winner-seen (record m { current_state = concluded }) 0 m.n_players no_id)
          λ (winner, m1) e1.
            Ensures-bind IsInv
              (if ltb winner m.n_players then send_player m1 winner victory else ok m1) _
              λ m2 e2. Ensures-bind IsInv (report m2) _ λ m3 e3.
                let (set, same3) = report-eq-ok m2 m3 e3 in
                subst
                  (λ x. IsInv (record x { timer = none; send_set = false; results_set = false }))
                  (sym same3) (concluded-IsInv m m2 inv (informed m1 m2 winner e2 ∙ e1) set)
  where
    informed :
        (m1 m2 : Match) (winner : ℕ)
        → (if ltb winner m.n_players then send_player m1 winner victory else ok m1) ≡ ok m2
        → seen m2 ≡ seen m1
    informed m1 m2 winner e = elim (Bool-cases (ltb winner m.n_players)) [
      | inl one ↦ send_player-seen m1 m2 winner victory (rw one at e)
      | inr nobody ↦ ground (arith, rw nobody at e)
    ]

-- A queue after its first command was taken.
pop_command-QueueOk :
    (k : ℕ) (q rest : List Command) (c : Command)
    → AllFrom k q
    → pop_command q ≡ some (c, rest)
    → (length q ≡ suc (length rest)) × (c.sender ≡ k) × AllFrom k rest
unfolding pop_command
pop_command-QueueOk k [] rest c h e = cc
pop_command-QueueOk k (a ∷ q) rest c h e = elim (Option-cases (pop_command q)) [
  | inl none_left ↦ ground (arith, h)
  | inr ((d, ds), some_left) ↦ ground (arith, h, pop_command-QueueOk k q ds d h.1 some_left)
]

popped :
    (m : Match) (k : ℕ) (q rest : List Command) (c : Command) (queues : List (List Command))
    → IsInv m
    → fetch m.command_queues k ≡ ok q
    → pop_command q ≡ some (c, rest)
    → store m.command_queues k rest ≡ ok queues
    → QueuesOk 0 queues
popped m k q rest c queues inv eq ec es =
    let old =
      QueuesOk-get 0 k m.command_queues q inv.queues (fetch-eq-ok m.command_queues k q eq) in
    let (shorter, _, from) = pop_command-QueueOk (k + 0) q rest c old.1 ec in
    rw (store-eq-ok m.command_queues queues k rest es)
      (QueuesOk-set 0 k m.command_queues rest inv.queues (omega arith, from))

take_turn-IsInv : (m : Match) (now : ℕ) → IsInv m → Ensures IsInv (take_turn m now)
unfolding take_turn
take_turn-IsInv m now inv = Ensures-bind IsInv (fetch m.command_queues m.current_player) _ λ q eq.
    elim (Option-cases (pop_command q)) [
      | inl nothing ↦ rw nothing inv
      | inr ((c, rest), some_one) ↦ rw some_one (
          Ensures-bind IsInv (store m.command_queues m.current_player rest) _ λ queues es.
            Ensures-bind IsInv (store m.time_left m.current_player (m.expiry_time - now)) _
              λ time_left et. play_command-IsInv _ c (record {
                queues = popped m m.current_player q rest c queues inv eq some_one es;
                tally = inv.tally;
                eliminated = inv.eliminated;
                few = inv.few;
                once = inv.once;
                silent = inv.silent;
              }))
    ]

pub on_player_move_arrived-IsInv :
    (m : Match) (t_id now : ℕ) → IsInv m → Ensures IsInv (on_player_move_arrived m t_id now)
unfolding on_player_move_arrived
on_player_move_arrived-IsInv m t_id now inv =
    Ensures-if IsInv (t_id != m.turn_id) _ _ (λ _. inv)
      λ _.
        Ensures-if IsInv m.turn_claimed _ _ (λ _. inv)
          λ _.
            Ensures-if IsInv (is_concluded m.current_state) _ _ (λ _. seen-IsInv refl inv)
              (λ _. take_turn-IsInv _ now (seen-IsInv refl inv))

end_setup-IsInv : (m : Match) → IsInv m → Ensures IsInv (end_setup m)
unfolding end_setup
end_setup-IsInv m inv =
    Ensures-if IsInv
      (is_setup m.current_state && leb (m.remaining_players * m.game.num_tanks) m.tanks_placed) _ _
      (λ _. compute_all_views-IsInv _ (record {
        queues = inv.queues;
        tally = inv.tally;
        eliminated = inv.eliminated;
        few = inv.few;
        once = inv.once;
        silent = λ never. cc;
      }))
      (λ _. inv)

await_move-IsInv : (m : Match) (now : ℕ) → IsInv m → Ensures IsInv (await_move m now)
unfolding await_move
await_move-IsInv m now inv = Ensures-bind IsInv (fetch m.time_left m.current_player) _ λ left el.
    Ensures-bind IsInv (fetch m.command_queues m.current_player) _ λ queue eq. waiting queue left
  where
    waiting :
        (queue : List Command) (left : ℕ)
        → Ensures IsInv (elim queue [
          | [] ↦ ok (record m { expiry_time = now + left; timer = some m.turn_id })
          | _ ∷ _ ↦
              on_player_move_arrived
                (record m { expiry_time = now + left; timer = some m.turn_id })
                m.turn_id
                now
        ])
    waiting [] left = seen-IsInv refl inv
    waiting (c ∷ cs) left = on_player_move_arrived-IsInv _ m.turn_id now (seen-IsInv refl inv)

pub start_turn-IsInv : (m : Match) (now : ℕ) → IsInv m → Ensures IsInv (start_turn m now)
unfolding start_turn
start_turn-IsInv m now inv =
    Ensures-then IsInv IsInv _ _ (end_setup-IsInv _ (seen-IsInv refl inv)) λ m1 inv1.
      Ensures-if IsInv (leb m1.remaining_players 1) _ _ (λ _. conclude_game-IsInv m1 inv1)
        λ _. Ensures-bind IsInv (fetch m1.players m1.current_player) _ λ info e.
          Ensures-if IsInv (not info.alive) _ _ (λ _. viewed-IsInv _ (seen-IsInv refl inv1))
            (λ _. await_move-IsInv m1 now inv1)
