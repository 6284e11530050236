-- ===== src/Match/Types.antt =====
-- The state of `MatchInstance` (src/server/match-instance.h), the results that it collects
-- (match-result.h beside it), and the two ways in which its code can go wrong: an access outside a
-- vector, and a call of an empty `std::function`.
use silent_tanks.Base.{
  ℕ, ◌+◌, Bool, if◌then◌else◌, Option, none, some, List, ◌∷◌, get_elem?, set, length, ltb, ◌%◌,
}
use silent_tanks.Game.Types.{GameInstance, GameState}
use silent_tanks.Protocol.Command.{Command, CommandHead}
use silent_tanks.Protocol.Header.{HeaderType}

pub data Fault : Type 0 where
  out_of_range empty_callback : Fault

pub data Result {ℓ} (A : Type ℓ) : Type ℓ where
  ok : A → Result A
  err : Fault → Result A

infixl 5 ◌>>=◌
abbrev pub ◌>>=◌ {ℓ κ} : {A : Type ℓ} {B : Type κ} → Result A → (A → Result B) → Result B
ok a >>= f = f a
err e >>= f = err e

-- An access to a vector.
abbrev pub in_range {ℓ} : {A : Type ℓ} → Option A → Result A
in_range none = err out_of_range
in_range (some a) = ok a

abbrev pub fetch {ℓ} : {A : Type ℓ} → List A → ℕ → Result A
fetch xs i = in_range (get_elem? xs i)

abbrev pub store {ℓ} : {A : Type ℓ} → List A → ℕ → A → Result (List A)
store xs i v = if ltb i (length xs) then ok (set xs i v) else err out_of_range

pub record PlayerInfo : Type 0 where
  pub player_id : ℕ
  pub session_id : ℕ
  pub user_id : ℕ
  pub alive : Bool

pub record MatchResult : Type 0 where
  -- The last move first.
  pub move_history : List CommandHead
  pub user_ids : List ℕ
  pub elimination_order : List ℕ

pub record ApplyResult : Type 0 where
  pub valid_move : Bool
  pub op_status : Bool

abbrev pub max_queue_size : ℕ
max_queue_size = 8

abbrev pub no_id : ℕ
no_id = 255

-- `send_callback_` and `results_callback_` are here whether they are set. `sent` is what the first
-- was called with, a session and the kind of message, the last first, and `reported` how often the
-- second was called. `posted` counts the calls of `start_turn` that wait on the strand, and `timer`
-- is the turn for which the timer was armed last.
pub record Match : Type 0 where
  pub n_players : ℕ
  pub elim_counter : ℕ
  pub current_player : ℕ
  pub remaining_players : ℕ
  pub current_fuel : ℕ
  pub expiry_time : ℕ
  pub results : MatchResult
  pub players : List PlayerInfo
  pub tanks_placed : ℕ
  pub game : GameInstance
  pub turn_id : ℕ
  pub turn_claimed : Bool
  pub increment : ℕ
  pub current_state : GameState
  pub command_queues : List (List Command)
  pub time_left : List ℕ
  pub send_set : Bool
  pub results_set : Bool
  pub stopped : Bool
  pub posted : ℕ
  pub timer : Option ℕ
  pub sent : List (ℕ × HeaderType)
  pub reported : ℕ

-- `send_callback_(session, message)`.
unfoldable pub send : Match → ℕ → HeaderType → Result Match
send m session kind =
    if m.send_set then ok (record m { sent = (session, kind) ∷ m.sent }) else err empty_callback

-- `send_callback_(players_[id].session_id, message)`.
unfoldable pub send_player : Match → ℕ → HeaderType → Result Match
unfolding send
send_player m id kind = do info ← fetch m.players id; send m info.session_id kind

-- `start_turn_strand`.
unfoldable pub start_turn_strand : Match → Match
start_turn_strand m = record m { posted = m.posted + 1 }

-- `current_player = ((current_player + 1) % n_players_)`.
abbrev pub next_player : Match → ℕ
next_player m = (m.current_player + 1) % m.n_players
