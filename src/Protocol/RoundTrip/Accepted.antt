-- ===== src/Protocol/RoundTrip/Accepted.antt =====
-- The requests of a client (src/protocol/message.cpp) against the validation of headers by the server
-- (header.cpp beside it).
use silent_tanks.Base.{
  ℕ, ◌≤◌, ◌≡◌, Bool, true, [], ◌∷◌, ◌++◌, length, refl, arith, ap, length-append,
}
use silent_tanks.Protocol.Command.{command_size}
use silent_tanks.Protocol.Header.{
  valid_server, server_length, created, queue_match, cancel_match, fetch_match_history,
  send_command, direct_text_message, forfeit_match, send_friend_request, block_user,
  respond_friend_request, match_replay_request, max_username_length,
}
use silent_tanks.Protocol.Bytes.{Bytes}
use silent_tanks.Protocol.Bytes.Order.{length-put_net}
use silent_tanks.Protocol.Structs.{SequencedCommand}
use silent_tanks.Protocol.Serialize.{
  bool_byte, serialize_command, serialize_command_head, serialize_mode, serialize_friend_decision,
  serialize_text, serialize_replay_request,
}

length-serialize_command :
    (little : Bool) (c : SequencedCommand) → length (serialize_command little c) ≡ command_size
unfolding serialize_command serialize_command_head
length-serialize_command little c = refl

-- The server accepts the header of each of these requests of a client: a command, a request of a mode
-- to queue, to cancel or to see the latest matches, a forfeit, the answer to a friend request, the
-- request for a replay, a friend request and a block for a name of 1 to 24 bytes, and a text of 1 to
-- 2984 bytes to an id of 16 bytes.
pub requests-accepted :
    (little : Bool) (c : SequencedCommand) (mode match_id : ℕ) (user_id text username : Bytes)
    (decision : Bool)
    → length user_id ≡ 16
    → 1 ≤ length text
    → length text ≤ 2984
    → 1 ≤ length username
    → length username ≤ max_username_length
    → (valid_server (created send_command (length (serialize_command little c))) ≡ true)
      × (valid_server (created queue_match (length (serialize_mode mode))) ≡ true)
      × (valid_server (created cancel_match (length (serialize_mode mode))) ≡ true)
      × (valid_server (created fetch_match_history (length (serialize_mode mode))) ≡ true)
      × (valid_server (created forfeit_match 0) ≡ true)
      × (valid_server (
            created respond_friend_request (
              length
                (serialize_friend_decision (record { user_id = user_id; decision = decision }))))
          ≡ true)
      × (valid_server
            (created match_replay_request (length (serialize_replay_request little match_id)))
          ≡ true)
      × (valid_server (created send_friend_request (length username)) ≡ true)
      × (valid_server (created block_user (length username)) ≡ true)
      × (valid_server (
            created direct_text_message
              (length (serialize_text (record { user_id = user_id; text = text }))))
          ≡ true)
unfolding valid_server server_length created serialize_mode serialize_friend_decision
    serialize_replay_request serialize_text
requests-accepted little c mode match_id user_id text username decision size some_text few some_name
      short =
    (
      ap (λ n. valid_server (created send_command n)) (length-serialize_command little c),
      refl,
      refl,
      refl,
      refl,
      ap (λ n. valid_server (created respond_friend_request n)) decided,
      ap (λ n. valid_server (created match_replay_request n)) (length-put_net little 8 match_id),
      ground arith,
      ground arith,
      ground (arith, length-append user_id text),
    )
  where
    decided : length (user_id ++ bool_byte decision ∷ []) ≡ 17
    decided = omega (arith, length-append user_id (bool_byte decision ∷ []), size)
