-- ===== src/Match/Twice.antt =====
-- Turns that were posted before a match concluded and that start after it
-- (src/server/match-instance.cpp).
use silent_tanks.Base.{
  ℕ, ◌≤◌, ◌≡◌, true, false, ltb, leb, if◌then◌else◌, none, refl, arith, ap, ◌∙◌, inl, inr,
  Bool-cases,
}
use silent_tanks.Game.Types.{GameState, setup, play, concluded}
use silent_tanks.Protocol.Header.{victory}
use silent_tanks.Match.Types.{Match, Result, Fault, ok, err, ◌>>=◌, send, send_player, fetch, no_id}
use silent_tanks.Match.Apply.{is_setup}
use silent_tanks.Match.Turns.{
  is_concluded, find_winner, report, conclude_game, end_setup, start_turn,
}
use silent_tanks.Match.Invariant.{Ensures, Ensures-bind, Ensures-then, Ensures-if, IsInv}
use silent_tanks.Match.Invariant.Turns.{seen, Seen}
use silent_tanks.Match.Invariant.Tasks.{find_winner-seen}

-- No result.
abbrev Never : Match → Type 0
Never m = ⊥

Ensures-Never : (r : Result Match) → Ensures Never r → (f : Fault) × (r ≡ err f)
Ensures-Never (ok m) h = absurd h
Ensures-Never (err f) h = (f, refl)

-- Without callbacks neither the message to a winner nor the report of the results succeeds.
silent_report :
    (m : Match) (n winner : ℕ)
    → m.send_set ≡ false
    → m.results_set ≡ false
    → Ensures Never (
        (if ltb winner n then send_player m winner victory else ok m) >>= λ m2.
        report m2 >>= λ m3. ok (record m3 { timer = none; send_set = false; results_set = false }))
unfolding send_player send report
silent_report m n winner quiet unreported = elim (Bool-cases (ltb winner n)) [
  | inl one ↦ rw one (
      Ensures-bind Never (fetch m.players winner >>= λ info. send m info.session_id victory) _
        λ m2 e. absurd (ground (arith, e, quiet)))
  | inr nobody ↦ rw (nobody, unreported) tt
]

conclude_game-Never :
    (m : Match)
    → m.stopped ≡ false
    → m.send_set ≡ false
    → m.results_set ≡ false
    → Ensures Never (conclude_game m)
unfolding conclude_game
conclude_game-Never m running quiet unreported =
    Ensures-if Never m.stopped (ok m) _ (λ stopped. ground (arith, stopped, running))
      (λ _.
        Ensures-then (λ (r : ℕ × Match). seen r.1 ≡ seen (record m { current_state = concluded }))
          Never (find_winner (record m { current_state = concluded }) 0 m.n_players no_id) _
          (find_winner-seen (record m { current_state = concluded }) 0 m.n_players no_id)
          λ (winner, m1) same.
            silent_report m1 m.n_players winner (ap (λ (s : Seen). s.7) same ∙ quiet)
              (ap (λ (s : Seen). s.6) same ∙ unreported))

not_setup : (s : GameState) → is_concluded s ≡ true → is_setup s ≡ false
not_setup setup e = cc
not_setup play e = refl
not_setup concluded e = refl

-- In a match that keeps the invariant, has concluded, and was not shut down, with one player left or
-- none, the start of another turn faults.
pub start_turn-twice :
    (m : Match) (now : ℕ)
    → IsInv m
    → is_concluded m.current_state ≡ true
    → m.stopped ≡ false
    → m.remaining_players ≤ 1
    → (f : Fault) × (start_turn m now ≡ err f)
unfolding start_turn end_setup
start_turn-twice m now inv over running few =
    let (quiet, unreported) = inv.silent over in
    let last : leb m.remaining_players 1 ≡ true = ground arith in
    Ensures-Never (start_turn m now)
      (rw (not_setup m.current_state over, last) (conclude_game-Never _ running quiet unreported))
