-- ===== src/Match/Invariant/Views.antt =====
-- `compute_all_views` and the messages keep the invariant (src/server/match-instance.cpp).
use silent_tanks.Base.{ℕ, zero, suc, ◌+◌, ◌≡◌, true, false, arith, ◌==◌, ◌&&◌, not}
use silent_tanks.Protocol.Header.{HeaderType, eliminated, player_view}
use silent_tanks.Match.Types.{
  Match, PlayerInfo, ok, ◌>>=◌, send, send_player, fetch, store, start_turn_strand,
}
use silent_tanks.Match.Apply.{is_setup}
use silent_tanks.Match.Views.{
  eliminate_empty, view_player, view_players, compute_all_views, live_tanks,
}
use silent_tanks.Match.Invariant.{
  Ensures, Ensures-bind, Ensures-then, Ensures-if, IsInv, lose_player,
}

pub send-IsInv :
    (m : Match) (session : ℕ) (kind : HeaderType) → IsInv m → Ensures IsInv (send m session kind)
unfolding send
send-IsInv m session kind inv =
    Ensures-if IsInv m.send_set _ _
      (λ _. record {
        queues = inv.queues;
        tally = inv.tally;
        eliminated = inv.eliminated;
        few = inv.few;
        once = inv.once;
        silent = inv.silent;
      })
      (λ _. tt)

pub send_player-IsInv :
    (m : Match) (k : ℕ) (kind : HeaderType) → IsInv m → Ensures IsInv (send_player m k kind)
unfolding send_player
send_player-IsInv m k kind inv =
    Ensures-bind IsInv (fetch m.players k) _ λ info e. send-IsInv m info.session_id kind inv

eliminate_empty-IsInv :
    (m : Match) (i : ℕ) (info : PlayerInfo)
    → fetch m.players i ≡ ok info
    → info.alive ≡ true
    → IsInv m
    → Ensures IsInv (eliminate_empty m i)
unfolding eliminate_empty
eliminate_empty-IsInv m i info found alive inv = rw found (
    Ensures-bind IsInv (store m.players i (record info { alive = false })) _ λ players e.
      Ensures-bind IsInv (store m.results.elimination_order i m.elim_counter) _ λ order e'.
        let counts = lose_player m i info players inv found alive e in
        send_player-IsInv _ i eliminated (record {
          queues = inv.queues;
          tally = counts.0;
          eliminated = counts.1;
          few = inv.few;
          once = inv.once;
          silent = inv.silent;
        }))

view_player-IsInv : (m : Match) (i : ℕ) → IsInv m → Ensures IsInv (view_player m i)
unfolding view_player
view_player-IsInv m i inv = Ensures-bind IsInv (fetch m.players i) _ λ info e.
    Ensures-if IsInv (not info.alive) _ _ (λ _. inv)
      λ alive. Ensures-bind IsInv (live_tanks m.game i) _ λ live e'.
        Ensures-then IsInv IsInv _ _
          (Ensures-if IsInv ((live == 0) && not (is_setup m.current_state)) (eliminate_empty m i)
            (ok m) (λ _. eliminate_empty-IsInv m i info e (ground arith) inv) (λ _. inv))
          (λ m' inv'. send_player-IsInv m' i player_view inv')

view_players-IsInv : (m : Match) (i left : ℕ) → IsInv m → Ensures IsInv (view_players m i left)
unfolding view_players
view_players-IsInv m i zero inv = inv
view_players-IsInv m i (suc left) inv =
    Ensures-then IsInv IsInv (view_player m i) (λ m'. view_players m' (i + 1) left)
      (view_player-IsInv m i inv) (λ m' inv'. view_players-IsInv m' (i + 1) left inv')

pub compute_all_views-IsInv : (m : Match) → IsInv m → Ensures IsInv (compute_all_views m)
unfolding compute_all_views
compute_all_views-IsInv m inv = view_players-IsInv m 0 m.n_players inv

pub viewed-IsInv :
    (m : Match) → IsInv m → Ensures IsInv (compute_all_views m >>= λ v. ok (start_turn_strand v))
unfolding start_turn_strand
viewed-IsInv m inv =
    Ensures-then IsInv IsInv (compute_all_views m) (λ v. ok (start_turn_strand v))
      (compute_all_views-IsInv m inv)
      (λ v w. record {
        queues = w.queues;
        tally = w.tally;
        eliminated = w.eliminated;
        few = w.few;
        once = w.once;
        silent = w.silent;
      })
