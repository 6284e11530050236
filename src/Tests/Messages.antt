-- ===== src/Tests/Messages.antt =====
-- Concrete messages, on which the codecs run and their theorems are applied.
use silent_tanks.Protocol.Clock.{whole_seconds}
use silent_tanks.Base.{
  ◌+◌, ◌≤◌, ◌≡◌, ◌↔◌, true, false, some, none, List, [], ◌∷◌, ◌++◌, length, replicate, refl, arith,
  map,
}
use silent_tanks.Game.Types.{Tank, vec2}
use silent_tanks.Protocol.Header.{
  valid_server, created, queue_match, cancel_match, fetch_match_history, send_command,
  direct_text_message, forfeit_match, send_friend_request, block_user, respond_friend_request,
  match_replay_request,
}
use silent_tanks.Protocol.Bytes.{Bytes}
use silent_tanks.Protocol.Structs.{
  ExternalUser, LoginRequest, ExternalMatchMessage, BanMessage, StaticMatchData, MatchResultList,
  CommandBytes, SequencedCommand, MatchReplay, PlayerView,
}
use silent_tanks.Protocol.Serialize.{
  serialize_user_list, serialize_static, serialize_command, serialize_login, serialize_text,
  serialize_friend_decision, serialize_relation, serialize_match_message, serialize_ban,
  serialize_replay_request, serialize_good_auth, serialize_mode, serialize_view, serialize_results,
  serialize_replay,
}
use silent_tanks.Protocol.Parse.{
  user_list_loop, to_user_list, to_static_match_data, to_command, to_login_request, to_text_message,
  to_friend_decision, to_user, to_match_message, to_ban_message, all_allowed, to_replay_request,
  to_elos, to_results_list, to_match_replay, finished,
}
use silent_tanks.Protocol.Parse.Views.{to_player_view}
use silent_tanks.Protocol.RoundTrip.Users.{AreUsers, to_user_list_iff, user_list_loop-enough}
use silent_tanks.Protocol.RoundTrip.Statics.{to_static_match_data-serialize_static}
use silent_tanks.Protocol.RoundTrip.Commands.{to_command-serialize_command}
use silent_tanks.Protocol.RoundTrip.Requests.{
  to_login_request-serialize_login, ids_round_trip, to_match_message-serialize_match_message,
  numbers_round_trip,
}
use silent_tanks.Protocol.RoundTrip.Accepted.{requests-accepted}
use silent_tanks.Protocol.RoundTrip.Views.{IsView, to_player_view-serialize_view}
use silent_tanks.Protocol.RoundTrip.Results.{to_results_list-serialize_results, whole_row}
use silent_tanks.Protocol.RoundTrip.Replays.{
  IsReplay, to_match_replay-serialize_replay, to_match_replay_no_moves,
}

abbrev an_id : Bytes
an_id = replicate 16 7

abbrev alice : ExternalUser
alice = record { user_id = an_id; username = b'A' ∷ b'l' ∷ [] }

abbrev bob : ExternalUser
bob = record { user_id = replicate 16 9; username = b'B' ∷ b'_' ∷ b'2' ∷ [] }

abbrev both : List ExternalUser
both = alice ∷ bob ∷ []

both-AreUsers : AreUsers both
unfolding all_allowed
both-AreUsers = (
  record { id_size = refl; name_size = omega arith; name = refl },
  (record { id_size = refl; name_size = omega arith; name = refl }, tt),
)

to_user_list_iff_example :
    (to_user_list (serialize_user_list both) ≡ some both)
    ↔ (AreUsers both × (serialize_user_list both ≡ serialize_user_list both))
to_user_list_iff_example = to_user_list_iff (serialize_user_list both) both

user_list_loop-enough_example :
    user_list_loop (length (serialize_user_list both) + 3) (serialize_user_list both)
    ≡ finished (to_user_list (serialize_user_list both))
user_list_loop-enough_example = user_list_loop-enough 3 (serialize_user_list both)

abbrev a_static : StaticMatchData
a_static = record { player_list = both; placement_mask = 0 ∷ 1 ∷ [] }

to_static_match_data-serialize_static_example :
    to_static_match_data (serialize_static a_static) ≡ some a_static
unfolding serialize_static
to_static_match_data-serialize_static_example =
    to_static_match_data-serialize_static a_static both-AreUsers (omega arith) (omega arith)

abbrev a_command : CommandBytes
a_command = record { sender = 1; type_byte = 0; tank_id = 2; payload_first = 0; payload_second = 3 }

-- The two-hundred-and-fifty-seventh command.
abbrev late_command : SequencedCommand
late_command = record { command = a_command; sequence_number = 256 }

to_command-serialize_command_example :
    (to_command false (serialize_command false late_command) ≡ some late_command)
    × (to_command true (serialize_command true late_command)
        ≡ some (record { command = a_command; sequence_number = 1 }))
to_command-serialize_command_example = to_command-serialize_command late_command (omega arith)

abbrev a_login : LoginRequest
a_login = record { hash = replicate 32 200; username = b'A' ∷ b'l' ∷ [] }

to_login_request-serialize_login_example : to_login_request (serialize_login a_login) ≡ a_login
unfolding all_allowed
to_login_request-serialize_login_example =
    to_login_request-serialize_login a_login refl (omega arith) (omega arith) refl

ids_round_trip_example :
    (to_text_message (serialize_text (record { user_id = an_id; text = b'h' ∷ b'i' ∷ [] }))
      ≡ record { user_id = an_id; text = b'h' ∷ b'i' ∷ [] })
    × (to_friend_decision (serialize_friend_decision (record { user_id = an_id; decision = true }))
        ≡ record { user_id = an_id; decision = true })
    × (to_user (serialize_relation (record { user_id = an_id; username = b'A' ∷ [] }))
        ≡ record { user_id = an_id; username = b'A' ∷ [] })
ids_round_trip_example =
    ids_round_trip an_id (b'h' ∷ b'i' ∷ []) (b'A' ∷ []) true refl (omega arith) (omega arith)

abbrev a_match_message : ExternalMatchMessage
a_match_message = record {
  user_id = an_id;
  username_length = 1;
  sender_username = b'A' ∷ [];
  text = b'h' ∷ b'i' ∷ [];
}

to_match_message-serialize_match_message_example :
    to_match_message (serialize_match_message a_match_message)
    ≡ some (record { user_id = an_id; sender_username = b'A' ∷ []; text = b'h' ∷ b'i' ∷ [] })
to_match_message-serialize_match_message_example =
    to_match_message-serialize_match_message a_match_message refl refl (omega arith) (omega arith)

abbrev a_ban : BanMessage
a_ban = record { time_till_unban = 1800000000750000000; reason = b'x' ∷ [] }

numbers_round_trip_example :
    (to_ban_message true (serialize_ban true a_ban)
      ≡ some (record a_ban { time_till_unban = whole_seconds a_ban.time_till_unban }))
    × (to_replay_request true (serialize_replay_request true 70000) ≡ 70000)
    × (to_elos true 1 (serialize_good_auth true (1200 ∷ [])) ≡ 1200 ∷ [])
numbers_round_trip_example =
    numbers_round_trip true a_ban 70000 (1200 ∷ []) (omega arith) (omega arith) (omega arith, tt)

requests-accepted_example :
    (valid_server (created send_command (length (serialize_command true late_command))) ≡ true)
    × (valid_server (created queue_match (length (serialize_mode 3))) ≡ true)
    × (valid_server (created cancel_match (length (serialize_mode 3))) ≡ true)
    × (valid_server (created fetch_match_history (length (serialize_mode 3))) ≡ true)
    × (valid_server (created forfeit_match 0) ≡ true)
    × (valid_server (
          created respond_friend_request
            (length (serialize_friend_decision (record { user_id = an_id; decision = true }))))
        ≡ true)
    × (valid_server (created match_replay_request (length (serialize_replay_request true 70000)))
        ≡ true)
    × (valid_server (created send_friend_request 1) ≡ true)
    × (valid_server (created block_user 1) ≡ true)
    × (valid_server (
          created direct_text_message
            (length (serialize_text (record { user_id = an_id; text = b'h' ∷ [] }))))
        ≡ true)
requests-accepted_example =
    requests-accepted true late_command 3 70000 an_id (b'h' ∷ []) (b'A' ∷ []) true refl
      (omega arith) (omega arith) (omega arith) (omega arith)

abbrev a_tank : Tank
a_tank = record {
  pos = vec2 1 0;
  current_direction = 2;
  barrel_direction = 4;
  id = 0;
  health = 3;
  aim_focused = false;
  loaded = true;
  owner = 1;
}

abbrev a_view : PlayerView
a_view = record {
  map_view = record {
    width = 2;
    height = 1;
    array =
        record { type_byte = 1; occupant = 255; visible = true }
        ∷ record { type_byte = 0; occupant = 0; visible = true }
        ∷ [];
  };
  visible_tanks = a_tank ∷ [];
  timers = 60000 ∷ 59000 ∷ [];
  current_player = 1;
  current_fuel = 2;
  current_state = 1;
}

a_view-IsView : IsView a_view
a_view-IsView = record {
  cells = refl;
  tanks = omega arith;
  timers = omega arith;
  times = (omega arith, (omega arith, tt));
}

to_player_view-serialize_view_example :
    (bs : Bytes) × (serialize_view true a_view ≡ some bs) × (to_player_view true bs ≡ some a_view)
to_player_view-serialize_view_example = to_player_view-serialize_view true a_view a_view-IsView

abbrev some_results : MatchResultList
some_results = record {
  mode = 3;
  match_results =
      record { match_id = 5; finished_at = 1700000000250000000; placement = 1; elo_change = 16 }
      ∷ [];
}

to_results_list-serialize_results_example :
    to_results_list true (serialize_results true some_results ++ (1 ∷ []))
    ≡ some (record some_results { match_results = map whole_row some_results.match_results })
to_results_list-serialize_results_example =
    to_results_list-serialize_results true some_results (1 ∷ [])
      (
        record {
          match_id = omega arith;
          finished_at = omega arith;
          placement = omega arith;
          elo_change = omega arith;
        },
        tt,
      )
      (omega arith)

abbrev a_replay : List CommandBytes → MatchReplay
a_replay moves = record {
  moves = moves;
  players = both;
  settings = record {
    filename = b'm' ∷ [];
    width = 12;
    height = 8;
    num_tanks = 3;
    num_players = 2;
    mode = 0;
  };
  initial_time_ms = 1200000;
  increment_ms = 1000;
  match_id = 70000;
}

a_replay-IsReplay : (moves : List CommandBytes) → length moves ≤ 1 → IsReplay (a_replay moves)
a_replay-IsReplay moves few = record {
  turns = omega (arith, few);
  filename = omega arith;
  initial_time = omega arith;
  increment = omega arith;
  match_id = omega arith;
  users = both-AreUsers;
  count = refl;
}

to_match_replay-serialize_replay_example :
    to_match_replay true (serialize_replay true (a_replay (a_command ∷ [])))
    ≡ some (a_replay (a_command ∷ []))
to_match_replay-serialize_replay_example =
    to_match_replay-serialize_replay true (a_replay (a_command ∷ []))
      (a_replay-IsReplay (a_command ∷ []) (omega arith)) (omega arith)

to_match_replay_no_moves_example : to_match_replay true (serialize_replay true (a_replay [])) ≡ none
to_match_replay_no_moves_example =
    to_match_replay_no_moves true (a_replay []) alice (bob ∷ [])
      (a_replay-IsReplay [] (omega arith)) refl refl
