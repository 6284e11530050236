-- ===== src/Match/Late.antt =====
-- Tasks that reach a match after it has concluded (src/server/match-instance.cpp).
use silent_tanks.Base.{ℕ, ◌≡◌, true, some, refl}
use silent_tanks.Protocol.Command.{Command}
use silent_tanks.Match.Types.{Match, PlayerInfo, ok, err, fetch, send, send_player, empty_callback}
use silent_tanks.Match.Turns.{is_concluded}
use silent_tanks.Match.Events.{find_player, receive_command, forfeit, sync_player}
use silent_tanks.Match.Invariant.{IsInv}

-- In a match that keeps the invariant and has concluded, every command, every forfeit and every
-- request to reconnect of a user who plays in it calls the empty `send_callback_`.
pub late-empty_callback :
    (m : Match) (user_id k t_id now session_id : ℕ) (cmd : Command) (info : PlayerInfo)
    → IsInv m
    → is_concluded m.current_state ≡ true
    → find_player m.players user_id 0 m.n_players ≡ ok (some k)
    → fetch m.players k ≡ ok info
    → (receive_command m user_id cmd t_id now ≡ err empty_callback)
      × (forfeit m user_id ≡ err empty_callback)
      × (sync_player m session_id user_id ≡ err empty_callback)
unfolding receive_command forfeit sync_player send_player send
late-empty_callback m user_id k t_id now session_id cmd info inv over found known =
    let unset = (inv.silent over).0 in
    (
      rw (found, over, known, unset) refl,
      rw (found, over, known, unset) refl,
      rw (over, unset) refl,
    )
