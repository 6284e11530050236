-- ===== src/Protocol/Structs.antt =====
-- The data of the messages: src/protocol/message-structs.h, match-result-structs.h, external-user.h,
-- gamemodes.h and cryptography-constants.h, and src/libgame/player-view.h. A string, an id and a hash
-- are their bytes, a time point is the count of Protocol/Clock, a timer is its count of milliseconds,
-- and an enumeration that is read from the wire by a cast is its underlying value, which need not be
-- that of an enumerator.
use silent_tanks.Base.{ℕ, Bool, List}
use silent_tanks.Game.Types.{FlatArray, Tank}
use silent_tanks.Protocol.Bytes.{Bytes}

abbrev pub hash_length : ℕ
hash_length = 32

-- `GameMode::NO_MODE`, the number of modes.
abbrev pub no_mode : ℕ
no_mode = 4

-- `players_for_gamemode[GameMode::ClassicFivePlayer]`.
abbrev pub max_players : ℕ
max_players = 5

pub record ExternalUser : Type 0 where
  pub user_id : Bytes
  pub username : Bytes

pub record LoginRequest : Type 0 where
  pub hash : Bytes
  pub username : Bytes

pub record FriendDecision : Type 0 where
  pub user_id : Bytes
  pub decision : Bool

pub record TextMessage : Type 0 where
  pub user_id : Bytes
  pub text : Bytes

pub record InternalMatchMessage : Type 0 where
  pub user_id : Bytes
  pub sender_username : Bytes
  pub text : Bytes

pub record ExternalMatchMessage : Type 0 where
  pub user_id : Bytes
  pub username_length : ℕ
  pub sender_username : Bytes
  pub text : Bytes

pub record BanMessage : Type 0 where
  pub time_till_unban : ℕ
  pub reason : Bytes

pub record StaticMatchData : Type 0 where
  pub player_list : List ExternalUser
  pub placement_mask : Bytes

pub record MatchResultRow : Type 0 where
  pub match_id : ℕ
  pub finished_at : ℕ
  pub placement : ℕ
  pub elo_change : ℕ

-- `MatchResultRow::DATA_SIZE`.
abbrev pub row_size : ℕ
row_size = 22

pub record MatchResultList : Type 0 where
  pub mode : ℕ
  pub match_results : List MatchResultRow

-- `Command` and `CommandHead` as they are on the wire.
pub record CommandBytes : Type 0 where
  pub sender : ℕ
  pub type_byte : ℕ
  pub tank_id : ℕ
  pub payload_first : ℕ
  pub payload_second : ℕ

pub record SequencedCommand : Type 0 where
  pub command : CommandBytes
  pub sequence_number : ℕ

-- `MapSettings`, with the name of its file.
pub record ReplaySettings : Type 0 where
  pub filename : Bytes
  pub width : ℕ
  pub height : ℕ
  pub num_tanks : ℕ
  pub num_players : ℕ
  pub mode : ℕ

pub record MatchReplay : Type 0 where
  pub moves : List CommandBytes
  pub players : List ExternalUser
  pub settings : ReplaySettings
  pub initial_time_ms : ℕ
  pub increment_ms : ℕ
  pub match_id : ℕ

-- `GridCell` as it is on the wire.
pub record CellBytes : Type 0 where
  pub type_byte : ℕ
  pub occupant : ℕ
  pub visible : Bool

pub record PlayerView : Type 0 where
  pub map_view : FlatArray CellBytes
  pub visible_tanks : List Tank
  pub timers : List ℕ
  pub current_player : ℕ
  pub current_fuel : ℕ
  pub current_state : ℕ
