-- ===== src/Matchmaking/Casual/Arrivals.antt =====
-- The order in which a casual strategy matches its users (src/server/match-strategy.cpp).
use silent_tanks.Base.{
  ℕ, suc, ◌≤◌, ◌+◌, ◌≡◌, leb, true, false, List, [], ◌∷◌, ◌++◌, length, refl, ap, ◌∙◌, arith,
  length-append,
}
use silent_tanks.Matchmaking.Types.{Session, queued}
use silent_tanks.Matchmaking.Casual.Users.{Distinct, queued-append}
use silent_tanks.Matchmaking.Casual.{no_casual, enqueue_task, casual_run}
use silent_tanks.Matchmaking.Casual.Refinement.{casual_run-refines, waiting_step, waiting_run}
use silent_tanks.Base.{map}
use mathlib.Core.List.{append_assoc}
use silent_tanks.Matchmaking.Casual.Matches.{no_casual-IsCasual}

-- No user of the first list is in the second.
abbrev Apart : List Session → List Session → Type 0
Apart q [] = Unit
Apart q (p ∷ ps) = (queued p.user_id q ≡ false) × Apart (q ++ p ∷ []) ps

Apart-arrivals :
    (q ps : List Session)
    → ((u : ℕ) → queued u ps ≡ true → queued u q ≡ false)
    → Distinct ps
    → Apart q ps
unfolding queued
Apart-arrivals q [] other d = tt
Apart-arrivals q (p ∷ ps) other d = (
  other p.user_id (ground arith),
  Apart-arrivals (q ++ p ∷ []) ps
      (λ u later. grind (arith, queued-append u q p, other u, d.0, later)) d.1,
)

waiting_run-arrivals :
    (n : ℕ) (q ps : List Session) (p : Session)
    → Apart q (p ∷ ps)
    → length q + suc (length ps) ≡ n
    → waiting_run n q (map enqueue_task (p ∷ ps)) ≡ ([], (q ++ p ∷ ps) ∷ [])
unfolding waiting_run waiting_step
waiting_run-arrivals n q [] p apart size =
    let full : leb n (suc (length q)) ≡ true = ground (arith, size) in rw (apart.0, full) refl
waiting_run-arrivals n q (r ∷ ps) p apart size =
    let few : leb n (suc (length q)) ≡ false = ground (arith, size) in
    let rest =
      waiting_run-arrivals n (q ++ p ∷ []) ps r apart.1
        (omega (arith, length-append q (p ∷ []), size)) in
    rw (apart.0, few) (rest ∙ ap (λ ps'. ([], ps' ∷ [])) (append_assoc q (p ∷ []) (r ∷ ps)))

-- If distinct users enqueue one after another in an empty strategy, as many as a match needs, then
-- they are matched together, in the order in which they came, and nobody waits.
pub casual_run-arrivals :
    (n : ℕ) (p : Session) (ps : List Session)
    → suc (length ps) ≡ n
    → Distinct (p ∷ ps)
    → ((casual_run n no_casual (map enqueue_task (p ∷ ps))).0.queue ≡ [])
      × ((casual_run n no_casual (map enqueue_task (p ∷ ps))).1 ≡ (p ∷ ps) ∷ [])
unfolding queued
casual_run-arrivals n p ps size d =
    let some_players : 1 ≤ n = omega (arith, size) in
    let (_, waits, formed) =
      casual_run-refines n no_casual (map enqueue_task (p ∷ ps)) some_players
        (no_casual-IsCasual n some_players) in
    let ends =
      waiting_run-arrivals n [] ps p (Apart-arrivals [] (p ∷ ps) (λ u _. refl) d)
        (omega (arith, size)) in
    (waits ∙ ap (λ r. r.0) ends, formed ∙ ap (λ r. r.1) ends)
