-- ===== src/Protocol/Parse.antt =====
-- The readers of src/protocol/message.cpp. The payload with an index or an offset into it is the bytes
-- from there on. A reader with an `op_status` returns `none` for false, and what it returns beside a
-- false status is not part of this model; the other readers return the default of the code.
use silent_tanks.Protocol.Clock.{from_time_t}
pub mod Views
use silent_tanks.Base.{
  ℕ, zero, suc, ◌+◌, ◌-◌, ◌*◌, ◌%◌, Bool, true, false, ltb, leb, ◌==◌, ◌!=◌, ◌&&◌, ◌||◌, not,
  if◌then◌else◌, Option, some, none, List, [], ◌∷◌, ◌++◌, length, get_elem?, ◌>>=◌, replicate,
}
use mathlib.Core.Option
use silent_tanks.Protocol.Header.{max_username_length}
use silent_tanks.Protocol.Command.{command_size}
use silent_tanks.Protocol.Bytes.{Bytes, split, next_byte, next_net, next_many}
use silent_tanks.Protocol.Structs.{
  hash_length, no_mode, max_players, ExternalUser, LoginRequest, FriendDecision, TextMessage,
  InternalMatchMessage, BanMessage, StaticMatchData, MatchResultRow, row_size, MatchResultList,
  CommandBytes, SequencedCommand, ReplaySettings, MatchReplay,
}

-- `allowed_username_characters`: digits, letters, `_` and `-`.
unfoldable pub allowed : ℕ → Bool
allowed c =
    leb b'0' c && leb c b'9'
    || (leb b'A' c && leb c b'Z' || (leb b'a' c && leb c b'z' || (c == b'_' || c == b'-')))

-- The loops that copy a name stop at the first character that is not allowed.
unfoldable pub all_allowed : Bytes → Bool
unfolding allowed
all_allowed [] = true
all_allowed (c ∷ cs) = if allowed c then all_allowed cs else false

abbrev pub nil_uuid : Bytes
nil_uuid = replicate 16 0

abbrev pub no_login : LoginRequest
no_login = record { hash = replicate hash_length 0; username = [] }

unfoldable pub valid_matching_command : Bytes → Option Bool
valid_matching_command payload = get_elem? payload 0 >>= λ mode. some (ltb mode no_mode)

-- The loop over the ranked modes reads one elo each.
unfoldable pub to_elos : Bool → ℕ → Bytes → List ℕ
unfolding next_net next_many
to_elos little ranked_modes_count payload =
    if length payload != ranked_modes_count * 4
    then replicate ranked_modes_count 0
    else elim (next_many (next_net little 4) ranked_modes_count payload) [
      | none ↦ replicate ranked_modes_count 0
      | some (elos, _) ↦ elos
    ]

unfoldable pub to_login_request : Bytes → LoginRequest
unfolding split all_allowed
to_login_request payload =
    if ltb (length payload) (hash_length + 1)
    then no_login
    else if ltb (hash_length + max_username_length) (length payload)
    then no_login
    else elim (split hash_length payload) [
      | none ↦ no_login
      | some (hash, username) ↦
          if all_allowed username then record { hash = hash; username = username } else no_login
    ]

-- A `CommandHead` of five bytes.
unfoldable pub next_command_head : Bytes → Option (CommandBytes × Bytes)
unfolding next_byte
next_command_head rest = do
  (sender, r1) ← next_byte rest
  (type_byte, r2) ← next_byte r1
  (tank_id, r3) ← next_byte r2
  (payload_first, r4) ← next_byte r3
  (payload_second, r5) ← next_byte r4
  some (
    record {
      sender = sender;
      type_byte = type_byte;
      tank_id = tank_id;
      payload_first = payload_first;
      payload_second = payload_second;
    },
    r5,
  )

-- `none` is the command of type `NO_OP` for a payload that is too short. More bytes are ignored.
unfoldable pub to_command : Bool → Bytes → Option SequencedCommand
unfolding next_command_head next_net
to_command little payload = if ltb (length payload) command_size then none else (do
  (head, rest) ← next_command_head payload
  (sequence_number, _) ← next_net little 2 rest
  some (record { command = head; sequence_number = sequence_number }))

-- A user of a list.
unfoldable pub next_user : Bytes → Option (ExternalUser × Bytes)
unfolding split next_byte all_allowed
next_user rest = if ltb (length rest) 17 then none else (do
  (user_id, r1) ← split 16 rest
  (username_len, r2) ← next_byte r1
  if ltb max_username_length username_len then none else (do
    (username, r3) ← split username_len r2
    if all_allowed username
        then some (record { user_id = user_id; username = username }, r3)
        else none))

unfoldable pub to_static_match_data : Bytes → Option StaticMatchData
unfolding next_byte next_many next_user
to_static_match_data payload = if ltb (length payload) 32 then none else (do
  (num_players, r1) ← next_byte payload
  if ltb max_players num_players then none else (do
    (users, mask) ← next_many next_user num_players r1
    some (record { player_list = users; placement_mask = mask })))

-- What is left when the rounds of a loop on fuel are over: what the loop returns, or a loop that
-- has not ended.
pub data Loop {ℓ} (A : Type ℓ) : Type ℓ where
  finished : A → Loop A
  out_of_fuel : Loop A

-- A user in front of the users that the rest of the loop reads.
abbrev pub add_user :
    ExternalUser → Loop (Option (List ExternalUser)) → Loop (Option (List ExternalUser))
add_user user (finished users) = finished (Option.map (λ us. user ∷ us) users)
add_user user out_of_fuel = out_of_fuel

-- The loop while bytes are left.
unfoldable pub user_list_loop : ℕ → Bytes → Loop (Option (List ExternalUser))
unfolding next_user
user_list_loop fuel [] = finished (some [])
user_list_loop zero (b ∷ rest) = out_of_fuel
user_list_loop (suc fuel) (b ∷ rest) = elim (next_user (b ∷ rest)) [
  | none ↦ finished none
  | some (user, r1) ↦ add_user user (user_list_loop fuel r1)
]

abbrev pub returned : Loop (Option (List ExternalUser)) → Option (List ExternalUser)
returned (finished users) = users
returned out_of_fuel = none

-- Each round takes bytes, so that as many rounds as there are bytes are enough.
unfoldable pub to_user_list : Bytes → Option (List ExternalUser)
unfolding user_list_loop
to_user_list payload = returned (user_list_loop (length payload) payload)

-- `none` stands for `time_point::min()`.
unfoldable pub to_ban_message : Bool → Bytes → Option BanMessage
unfolding next_net from_time_t
to_ban_message little payload =
    if ltb (length payload) 8
    then none
    else (next_net little 8 payload >>= λ (host_time, reason).
        some (record { time_till_unban = from_time_t host_time; reason = reason }))

unfoldable pub to_username : Bytes → Bytes
unfolding all_allowed
to_username payload =
    if ltb (length payload) 1 || ltb max_username_length (length payload)
    then []
    else if all_allowed payload
    then payload
    else []

unfoldable pub to_uuid : Bytes → Bytes
to_uuid payload = if length payload != 16 then nil_uuid else payload

unfoldable pub to_friend_decision : Bytes → FriendDecision
unfolding split
to_friend_decision payload =
    if length payload != 17
    then record { user_id = nil_uuid; decision = false }
    else elim (split 16 payload) [
      | some (user_id, decision ∷ _) ↦ record { user_id = user_id; decision = decision != 0 }
      | _ ↦ record { user_id = nil_uuid; decision = false }
    ]

unfoldable pub to_user : Bytes → ExternalUser
unfolding split
to_user payload =
    if ltb (length payload) 16 || ltb (16 + max_username_length) (length payload)
    then record { user_id = nil_uuid; username = [] }
    else elim (split 16 payload) [
      | some (user_id, username) ↦ record { user_id = user_id; username = username }
      | none ↦ record { user_id = nil_uuid; username = [] }
    ]

unfoldable pub to_text_message : Bytes → TextMessage
unfolding split
to_text_message payload =
    if ltb (length payload) 17
    then record { user_id = nil_uuid; text = [] }
    else elim (split 16 payload) [
      | some (user_id, text) ↦ record { user_id = user_id; text = text }
      | none ↦ record { user_id = nil_uuid; text = [] }
    ]

-- `none` is the empty message that is returned for malformed bytes.
unfoldable pub to_match_message : Bytes → Option InternalMatchMessage
unfolding split next_byte
to_match_message payload = if ltb (length payload) 19 then none else (do
  (user_id, r1) ← split 16 payload
  (username_len, r2) ← next_byte r1
  if ltb (length r2) (username_len + 1) then none else (do
    (sender_username, text) ← split username_len r2
    some (record { user_id = user_id; sender_username = sender_username; text = text })))

unfoldable pub to_gamemode : Bytes → ℕ
to_gamemode [] = no_mode
to_gamemode (mode ∷ []) = if leb no_mode mode then no_mode else mode
to_gamemode (mode ∷ _ ∷ _) = no_mode

unfoldable pub next_row : Bool → Bytes → Option (MatchResultRow × Bytes)
unfolding next_net from_time_t
next_row little rest = do
  (match_id, r1) ← next_net little 8 rest
  (host_time, r2) ← next_net little 8 r1
  (placement, r3) ← next_net little 2 r2
  (elo_change, r4) ← next_net little 4 r3
  some (
    record {
      match_id = match_id;
      finished_at = from_time_t host_time;
      placement = placement;
      elo_change = elo_change;
    },
    r4,
  )

-- The loop while a row is left; the bytes after the last whole row are ignored.
unfoldable pub results_loop : Bool → ℕ → Bytes → Option (List MatchResultRow)
unfolding next_row
results_loop little zero rest = if ltb (length rest) row_size then some [] else none
results_loop little (suc fuel) rest = if ltb (length rest) row_size then some [] else (do
  (row, r1) ← next_row little rest
  rows ← results_loop little fuel r1
  some (row ∷ rows))

-- `none` is the empty list that is returned for an empty payload.
unfoldable pub to_results_list : Bool → Bytes → Option MatchResultList
unfolding next_byte results_loop
to_results_list little payload = do
  (mode, rest) ← next_byte payload
  rows ← results_loop little (length rest) rest
  some (record { mode = mode; match_results = rows })

unfoldable pub to_replay_request : Bool → Bytes → ℕ
unfolding next_net
to_replay_request little payload =
    if ltb (length payload) 8
    then 0
    else elim (next_net little 8 payload) [ none ↦ 0 | some (match_id, _) ↦ match_id ]

-- A user of a replay: there must be bytes after the name.
unfoldable pub next_replay_user : Bytes → Option (ExternalUser × Bytes)
unfolding split next_byte all_allowed
next_replay_user rest = if ltb (length rest) 17 then none else (do
  (user_id, r1) ← split 16 rest
  (username_len, r2) ← next_byte r1
  if ltb max_username_length username_len
      then none
      else if leb (length r2) username_len
      then none
      else (do
        (username, r3) ← split username_len r2
        if all_allowed username
            then some (record { user_id = user_id; username = username }, r3)
            else none))

unfoldable pub next_settings : ℕ → Bytes → Option (ReplaySettings × Bytes)
unfolding split next_byte
next_settings filename_length rest = do
  (filename, r1) ← split filename_length rest
  (width, r2) ← next_byte r1
  (height, r3) ← next_byte r2
  (num_tanks, r4) ← next_byte r3
  (num_players, r5) ← next_byte r4
  (mode, r6) ← next_byte r5
  some (
    record {
      filename = filename;
      width = width;
      height = height;
      num_tanks = num_tanks;
      num_players = num_players;
      mode = mode;
    },
    r6,
  )

unfoldable pub to_match_replay : Bool → Bytes → Option MatchReplay
unfolding next_net next_settings next_many next_replay_user next_command_head
to_match_replay little payload = do
  (turn_count, r1) ← next_net little 4 payload
  (filename_length, r2) ← next_net little 2 r1
  (time_ms, r3) ← next_net little 8 r2
  (increment_ms, r4) ← next_net little 8 r3
  (match_id, r5) ← next_net little 8 r4
  (settings, r6) ← next_settings filename_length r5
  (users, r7) ← next_many next_replay_user settings.num_players r6
  if length r7 != 5 * turn_count then none else (do
    (moves, _) ← next_many next_command_head turn_count r7
    some (record {
      moves = moves;
      players = users;
      settings = settings;
      initial_time_ms = time_ms;
      increment_ms = increment_ms;
      match_id = match_id;
    }))
