-- ===== src/Matchmaking/Casual/Matches.antt =====
-- The matches that a casual strategy forms (src/server/match-strategy.cpp).
use silent_tanks.Base.{
  ℕ, suc, ◌<◌, ◌≤◌, ◌≡◌, leb, List, [], ◌∷◌, ◌++◌, length, refl, sym, arith, inl, inr, Bool-cases,
  length-append, subst,
}
use silent_tanks.Matchmaking.Types.{Session, queued}
use silent_tanks.Matchmaking.Casual.Users.{Distinct, Distinct-append}
use silent_tanks.Matchmaking.Casual.{
  Casual, no_casual, CasualTask, enqueue_task, cancel_task, tick_task, casual_step, casual_run,
}
use silent_tanks.Matchmaking.Casual.Refinement.{
  IsCasual, casual_run-refines, waiting_step, casual_step-Agrees,
}

-- Each match has `n` sessions, of distinct users.
abbrev pub AreMatches : ℕ → List (List Session) → Type 0
AreMatches n [] = Unit
AreMatches n (ps ∷ more) = (length ps ≡ n) × Distinct ps × AreMatches n more

AreMatches-append :
    (n : ℕ) (ms more : List (List Session))
    → AreMatches n ms
    → AreMatches n more
    → AreMatches n (ms ++ more)
AreMatches-append n [] more a b = b
AreMatches-append n (ps ∷ ms) more a b = (a.0, a.1, AreMatches-append n ms more a.2 b)

waiting_step-AreMatches :
    (n : ℕ) (q : List Session) (t : CasualTask)
    → length q < n
    → Distinct q
    → AreMatches n (waiting_step n q t).1
unfolding waiting_step
waiting_step-AreMatches n q (enqueue_task p) short d = elim (Bool-cases (queued p.user_id q)) [
  | inl waits ↦ rw waits tt
  | inr absent ↦ elim (Bool-cases (leb n (suc (length q)))) [
    | inl full ↦
        rw (absent, full)
          (ground (arith, length-append q (p ∷ []), full, short), Distinct-append q p d absent, tt)
    | inr few ↦ rw (absent, few) tt
  ]
]
waiting_step-AreMatches n q (cancel_task p) short d = tt
waiting_step-AreMatches n q tick_task short d = tt

casual_run-AreMatches :
    (n : ℕ) (s : Casual) (ts : List CasualTask)
    → 1 ≤ n
    → IsCasual n s
    → AreMatches n (casual_run n s ts).1
unfolding casual_run
casual_run-AreMatches n s [] some_players is = tt
casual_run-AreMatches n s (t ∷ ts) some_players is =
    let (next_is, _, formed) = casual_step-Agrees n s t some_players is in
    AreMatches-append n (casual_step n s t).1 (casual_run n (casual_step n s t).0 ts).1
      (subst (AreMatches n) (sym formed) (waiting_step-AreMatches n s.queue t is.short is.distinct))
      (casual_run-AreMatches n (casual_step n s t).0 ts some_players next_is)

pub no_casual-IsCasual : (n : ℕ) → 1 ≤ n → IsCasual n no_casual
unfolding queued
no_casual-IsCasual n some_players = record {
  short = some_players;
  distinct = tt;
  looked_up = λ u. refl;
}

-- Whatever is enqueued, cancelled and ticked, a strategy for at least one player that starts empty
-- forms only matches of exactly that many sessions, of distinct users, and fewer sessions wait at the
-- end, of distinct users, who are those of the lookup.
pub casual_run_lem :
    (n : ℕ) (ts : List CasualTask)
    → 1 ≤ n
    → AreMatches n (casual_run n no_casual ts).1 × IsCasual n (casual_run n no_casual ts).0
casual_run_lem n ts some_players =
    let is = no_casual-IsCasual n some_players in
    (
      casual_run-AreMatches n no_casual ts some_players is,
      (casual_run-refines n no_casual ts some_players is).0,
    )
