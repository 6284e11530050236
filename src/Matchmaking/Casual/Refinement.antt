-- ===== src/Matchmaking/Casual/Refinement.antt =====
-- The casual strategies (src/server/match-strategy.cpp) against a waiting list without a lookup.
use mathlib.Core.Option.{some}
use silent_tanks.Base.{
  ℕ, zero, suc, ◌<◌, ◌≤◌, ◌==◌, ◌≡◌, leb, Bool, true, false, if◌then◌else◌, List, [], ◌∷◌, ◌++◌,
  length, take, drop, refl, sym, ap, ◌∙◌, arith, inl, inr, Bool-cases, length-append, take-length,
  drop-length,
}
use silent_tanks.Matchmaking.Types.{Session, insert, is_some, contains, erase_users, queued}
use silent_tanks.Matchmaking.Types.Lookups.{is_some-if, is_some-unless, contains-erase_users}
use silent_tanks.Matchmaking.Casual.Users.{
  Distinct, queued-append, Distinct-append, queued-remove_user, Distinct-remove_user,
  length-remove_user-le, remove_user_absent,
}
use silent_tanks.Matchmaking.Casual.{
  Casual, remove_user, try_form_match, enqueue, cancel, CasualTask, enqueue_task, cancel_task,
  tick_task, casual_step, casual_run,
}

-- What a strategy for `n` players promises: who waits joins at the end, a user who waits does not join
-- again, and the users leave as soon as they are `n`, all together.
unfoldable pub waiting_step : ℕ → List Session → CasualTask → List Session × List (List Session)
unfolding queued remove_user
waiting_step n q (enqueue_task p) =
    if queued p.user_id q
    then (q, [])
    else if leb n (suc (length q))
    then ([], (q ++ p ∷ []) ∷ [])
    else (q ++ p ∷ [], [])
waiting_step n q (cancel_task p) = (remove_user p.user_id q, [])
waiting_step n q tick_task = (q, [])

unfoldable pub waiting_run : ℕ → List Session → List CasualTask → List Session × List (List Session)
unfolding waiting_step
waiting_run n q [] = (q, [])
waiting_run n q (t ∷ ts) =
    let (next, formed) = waiting_step n q t in
    let (after, more) = waiting_run n next ts in (after, formed ++ more)

-- Fewer sessions wait than a match needs, their users are distinct, and the lookup has those users.
pub record IsCasual (n : ℕ) (s : Casual) : Type 0 where
  pub short : length s.queue < n
  pub distinct : Distinct s.queue
  pub looked_up : (u : ℕ) → contains s.lookup u ≡ queued u s.queue

abbrev push : Casual → Session → Casual
push s p = record { queue = s.queue ++ p ∷ []; lookup = insert s.lookup p.user_id tt }

try_form_match-few :
    (n fuel : ℕ) (s : Casual) → leb n (length s.queue) ≡ false → try_form_match n fuel s ≡ (s, [])
unfolding try_form_match
try_form_match-few n zero s few = refl
try_form_match-few n (suc fuel) s few = rw few refl

try_form_match-full :
    (n fuel : ℕ) (s : Casual)
    → 1 ≤ n
    → length s.queue ≡ n
    → try_form_match n (suc fuel) s
      ≡ (record { queue = []; lookup = erase_users s.lookup s.queue }, s.queue ∷ [])
unfolding try_form_match
try_form_match-full n fuel s some_players full =
    let enough : leb n (length s.queue) ≡ true = ground (arith, full) in
    let all : take n s.queue ≡ s.queue =
      ap (λ k. take k s.queue) (sym full) ∙ take-length s.queue in
    let left : drop n s.queue ≡ [] = ap (λ k. drop k s.queue) (sym full) ∙ drop-length s.queue in
    rw (enough, all, left)
      (ap (λ (r : Casual × List (List Session)). (r.0, s.queue ∷ r.1))
        (try_form_match-few n fuel (record { queue = []; lookup = erase_users s.lookup s.queue })
          (ground arith)))

push-IsCasual :
    (n : ℕ) (s : Casual) (p : Session)
    → IsCasual n s
    → queued p.user_id s.queue ≡ false
    → leb n (suc (length s.queue)) ≡ false
    → IsCasual n (push s p)
push-IsCasual n s p is absent few = record {
  short = ground (arith, length-append s.queue (p ∷ []), few);
  distinct = Distinct-append s.queue p is.distinct absent;
  looked_up = λ u.
      is_some-if (u == p.user_id) tt (s.lookup u)
      ∙ ap (λ b. if u == p.user_id then true else b) (is.looked_up u)
      ∙ sym (queued-append u s.queue p);
}

-- After a match was formed of all who wait, nobody waits and the lookup is empty.
formed-IsCasual :
    (n : ℕ) (s : Casual) (p : Session)
    → 1 ≤ n
    → IsCasual n s
    → IsCasual n (record {
      queue = [];
      lookup = erase_users (insert s.lookup p.user_id tt) (s.queue ++ p ∷ []);
    })
unfolding queued
formed-IsCasual n s p some_players is = record {
  short = omega arith;
  distinct = tt;
  looked_up = λ u.
      contains-erase_users (insert s.lookup p.user_id tt) (s.queue ++ p ∷ []) u
      ∙ ap (λ b. if b then false else is_some (if u == p.user_id then some tt else s.lookup u))
          (queued-append u s.queue p)
      ∙ ap (λ b. if if u == p.user_id then true else queued u s.queue then false else b)
          (is_some-if (u == p.user_id) tt (s.lookup u)
            ∙ ap (λ b. if u == p.user_id then true else b) (is.looked_up u))
      ∙ none_left (if u == p.user_id then true else queued u s.queue);
}
  where
    none_left : (b : Bool) → (if b then false else b) ≡ false
    none_left true = refl
    none_left false = refl

-- A strategy and a waiting list that show the same.
abbrev pub Agrees : ℕ → Casual × List (List Session) → List Session × List (List Session) → Type 0
Agrees n (s, matches) (q, expected) = IsCasual n s × (s.queue ≡ q) × (matches ≡ expected)

enqueue-Agrees :
    (n : ℕ) (s : Casual) (p : Session)
    → 1 ≤ n
    → IsCasual n s
    → Agrees n (enqueue n s p) (waiting_step n s.queue (enqueue_task p))
unfolding enqueue waiting_step try_form_match
enqueue-Agrees n s p some_players is = elim (Bool-cases (contains s.lookup p.user_id)) [
  | inl known ↦
      let waits : queued p.user_id s.queue ≡ true = sym (is.looked_up p.user_id) ∙ known in
      rw (known, waits) (is, refl, refl)
  | inr unknown ↦
      let absent : queued p.user_id s.queue ≡ false = sym (is.looked_up p.user_id) ∙ unknown in
      let size : length (s.queue ++ p ∷ []) ≡ suc (length s.queue) =
        omega (arith, length-append s.queue (p ∷ [])) in
      elim (Bool-cases (leb n (suc (length s.queue)))) [
        | inl full ↦
            let none_left =
              try_form_match-full n (length s.queue) (push s p) some_players
                (ground (arith, size, full, is.short)) in
            rw (unknown, absent, full, none_left)
              (formed-IsCasual n s p some_players is, refl, refl)
        | inr few ↦
            let waits = try_form_match-few n (suc (length s.queue)) (push s p) (rw size few) in
            rw (unknown, absent, few, waits) (push-IsCasual n s p is absent few, refl, refl)
      ]
]

cancel-IsCasual : (n : ℕ) (s : Casual) (p : Session) → IsCasual n s → IsCasual n (cancel s p)
unfolding cancel
cancel-IsCasual n s p is = elim (Bool-cases (contains s.lookup p.user_id)) [
  | inl known ↦ rw known (record {
    short = omega (arith, length-remove_user-le p.user_id s.queue, is.short);
    distinct = Distinct-remove_user p.user_id s.queue is.distinct;
    looked_up = λ u.
        is_some-unless (u == p.user_id) (s.lookup u)
        ∙ ap (λ b. if u == p.user_id then false else b) (is.looked_up u)
        ∙ sym (queued-remove_user u p.user_id s.queue);
  })
  | inr unknown ↦ rw unknown is
]

cancel-remove_user :
    (n : ℕ) (s : Casual) (p : Session)
    → IsCasual n s
    → (cancel s p).queue ≡ remove_user p.user_id s.queue
unfolding cancel
cancel-remove_user n s p is = elim (Bool-cases (contains s.lookup p.user_id)) [
  | inl known ↦ rw known refl
  | inr unknown ↦
      rw unknown
        (sym (remove_user_absent p.user_id s.queue (sym (is.looked_up p.user_id) ∙ unknown)))
]

pub casual_step-Agrees :
    (n : ℕ) (s : Casual) (t : CasualTask)
    → 1 ≤ n
    → IsCasual n s
    → Agrees n (casual_step n s t) (waiting_step n s.queue t)
unfolding casual_step waiting_step
casual_step-Agrees n s (enqueue_task p) some_players is = enqueue-Agrees n s p some_players is
casual_step-Agrees n s (cancel_task p) some_players is =
    (cancel-IsCasual n s p is, cancel-remove_user n s p is, refl)
casual_step-Agrees n s tick_task some_players is = (is, refl, refl)

-- From a state where fewer sessions wait than a match needs, their users are distinct and the lookup
-- has those users, a strategy for at least one player runs any tasks as the waiting list does: the
-- same sessions wait and the same matches are formed, in the same order. The state at the end is such
-- a state.
pub casual_run-refines :
    (n : ℕ) (s : Casual) (ts : List CasualTask)
    → 1 ≤ n
    → IsCasual n s
    → IsCasual n (casual_run n s ts).0
      × ((casual_run n s ts).0.queue ≡ (waiting_run n s.queue ts).0)
      × ((casual_run n s ts).1 ≡ (waiting_run n s.queue ts).1)
unfolding casual_run waiting_run
casual_run-refines n s [] some_players is = (is, refl, refl)
casual_run-refines n s (t ∷ ts) some_players is =
    let (next_is, same_queue, same_matches) = casual_step-Agrees n s t some_players is in
    let (last_is, queue_after, matches_after) =
      casual_run-refines n (casual_step n s t).0 ts some_players next_is in
    (
      last_is,
      queue_after ∙ ap (λ q. (waiting_run n q ts).0) same_queue,
      ap (λ ms. ms ++ (casual_run n (casual_step n s t).0 ts).1) same_matches
          ∙ ap (λ ms. (waiting_step n s.queue t).1 ++ ms)
              (matches_after ∙ ap (λ q. (waiting_run n q ts).1) same_queue),
    )
