-- ===== src/Protocol/Header.antt =====
-- Message headers and their validation: src/protocol/header.h, header.cpp and gamemodes.h.
use silent_tanks.Base.{ℕ, ◌*◌, Bool, true, false, ltb, leb, ◌==◌, ◌!=◌, ◌&&◌, if◌then◌else◌}
use silent_tanks.Protocol.Command.{command_size}

-- The constructors in the order of the source, which gives their values.
pub data HeaderType : Type 0 where
  login_request : HeaderType
  registration_request : HeaderType
  unauthorized : HeaderType
  already_authorized : HeaderType
  good_registration : HeaderType
  bad_registration : HeaderType
  good_auth : HeaderType
  bad_auth : HeaderType
  fetch_friends : HeaderType
  fetch_friend_requests : HeaderType
  fetch_blocks : HeaderType
  friend_list : HeaderType
  friend_request_list : HeaderType
  block_list : HeaderType
  send_friend_request : HeaderType
  respond_friend_request : HeaderType
  remove_friend : HeaderType
  block_user : HeaderType
  unblock_user : HeaderType
  notify_friend_added : HeaderType
  notify_friend_removed : HeaderType
  notify_friend_request : HeaderType
  notify_blocked : HeaderType
  notify_unblocked : HeaderType
  queue_match : HeaderType
  bad_queue : HeaderType
  cancel_match : HeaderType
  forfeit_match : HeaderType
  bad_cancel : HeaderType
  queue_dropped : HeaderType
  match_starting : HeaderType
  match_creation_error : HeaderType
  no_match_found : HeaderType
  match_in_progress : HeaderType
  send_command : HeaderType
  static_match_data : HeaderType
  player_view : HeaderType
  failed_move : HeaderType
  stale_move : HeaderType
  eliminated : HeaderType
  timed_out : HeaderType
  victory : HeaderType
  game_ended : HeaderType
  bad_message : HeaderType
  ping : HeaderType
  ping_response : HeaderType
  ping_timeout : HeaderType
  rate_limited : HeaderType
  banned : HeaderType
  server_full : HeaderType
  direct_text_message : HeaderType
  match_text_message : HeaderType
  friend_offline : HeaderType
  fetch_match_history : HeaderType
  match_history : HeaderType
  no_new_matches : HeaderType
  match_replay_request : HeaderType
  match_replay : HeaderType
  no_replay : HeaderType
  max_type : HeaderType

-- The value of the enumerator.
abbrev pub code : HeaderType → ℕ
code login_request = 0
code registration_request = 1
code unauthorized = 2
code already_authorized = 3
code good_registration = 4
code bad_registration = 5
code good_auth = 6
code bad_auth = 7
code fetch_friends = 8
code fetch_friend_requests = 9
code fetch_blocks = 10
code friend_list = 11
code friend_request_list = 12
code block_list = 13
code send_friend_request = 14
code respond_friend_request = 15
code remove_friend = 16
code block_user = 17
code unblock_user = 18
code notify_friend_added = 19
code notify_friend_removed = 20
code notify_friend_request = 21
code notify_blocked = 22
code notify_unblocked = 23
code queue_match = 24
code bad_queue = 25
code cancel_match = 26
code forfeit_match = 27
code bad_cancel = 28
code queue_dropped = 29
code match_starting = 30
code match_creation_error = 31
code no_match_found = 32
code match_in_progress = 33
code send_command = 34
code static_match_data = 35
code player_view = 36
code failed_move = 37
code stale_move = 38
code eliminated = 39
code timed_out = 40
code victory = 41
code game_ended = 42
code bad_message = 43
code ping = 44
code ping_response = 45
code ping_timeout = 46
code rate_limited = 47
code banned = 48
code server_full = 49
code direct_text_message = 50
code match_text_message = 51
code friend_offline = 52
code fetch_match_history = 53
code match_history = 54
code no_new_matches = 55
code match_replay_request = 56
code match_replay = 57
code no_replay = 58
code max_type = 59

abbrev pub max_payload_len : ℕ
max_payload_len = 3000

abbrev pub max_client_payload_len : ℕ
max_client_payload_len = 8000

abbrev pub max_username_length : ℕ
max_username_length = 24

abbrev pub ranked_modes_count : ℕ
ranked_modes_count = 1

-- `type` is the byte of the wire, which need not be the value of an enumerator.
pub record Header : Type 0 where
  pub type_byte : ℕ
  pub payload_len : ℕ

abbrev pub is : Header → HeaderType → Bool
is h t = h.type_byte == code t

-- The switch of `valid_server`. A case returns false on a wrong length.
unfoldable pub server_length : Header → Bool
server_length h =
    let n = h.payload_len in
    if is h queue_match
    then n == 1
    else if is h cancel_match
    then n == 1
    else if is h fetch_match_history
    then n == 1
    else if is h send_command
    then n == command_size
    else if is h direct_text_message
    then leb 17 n
    else if is h forfeit_match
    then n == 0
    else if is h send_friend_request
    then leb 1 n && leb n max_username_length
    else if is h block_user
    then leb 1 n && leb n max_username_length
    else if is h respond_friend_request
    then n == 17
    else if is h remove_friend
    then n == 16
    else if is h unblock_user
    then n == 16
    else if is h match_replay_request
    then n == 8
    else true

unfoldable pub valid_server : Header → Bool
unfolding server_length
valid_server h =
    if leb (code max_type) h.type_byte
    then false
    else if ltb max_payload_len h.payload_len
    then false
    else server_length h

unfoldable pub client_length : Header → Bool
client_length h =
    let n = h.payload_len in
    if is h good_auth
    then n == ranked_modes_count * 4
    else if is h direct_text_message
    then leb 17 n
    else if is h bad_auth
    then n == 1
    else if is h bad_registration
    then n == 1
    else if is h match_history
    then leb 1 n
    else true

unfoldable pub valid_client : Header → Bool
unfolding client_length
valid_client h =
    if leb (code max_type) h.type_byte
    then false
    else if ltb max_client_payload_len h.payload_len && (h.type_byte != code match_replay)
    then false
    else client_length h

-- The header of a message that is created for a payload of `size` bytes.
unfoldable pub created : HeaderType → ℕ → Header
created type size = record { type_byte = code type; payload_len = size }
