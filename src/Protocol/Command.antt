-- ===== src/Protocol/Command.antt =====
-- Commands of a player: src/protocol/command.h.
use silent_tanks.Base.{ℕ}

pub data CommandType : Type 0 where
  move rotate_tank rotate_barrel fire place load no_op : CommandType

pub record Command : Type 0 where
  pub sender : ℕ
  pub command_type : CommandType
  -- The direction of a placement.
  pub tank_id : ℕ
  pub payload_first : ℕ
  pub payload_second : ℕ
  pub sequence_number : ℕ

abbrev pub command_size : ℕ
command_size = 7

-- A command of the move history, which has no sequence number.
pub record CommandHead : Type 0 where
  pub sender : ℕ
  pub command_type : CommandType
  pub tank_id : ℕ
  pub payload_first : ℕ
  pub payload_second : ℕ

unfoldable pub command_head : Command → CommandHead
command_head cmd = record {
  sender = cmd.sender;
  command_type = cmd.command_type;
  tank_id = cmd.tank_id;
  payload_first = cmd.payload_first;
  payload_second = cmd.payload_second;
}
