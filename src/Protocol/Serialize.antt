-- ===== src/Protocol/Serialize.antt =====
-- `Message::create_serialized` of src/protocol/message.cpp: the payload for each type of message.
use silent_tanks.Protocol.Clock.{to_time_t}
use silent_tanks.Base.{
  ℕ, zero, suc, ◌+◌, ◌*◌, ◌%◌, ◌/◌, Bool, if◌then◌else◌, Option, some, List, [], ◌∷◌, ◌++◌, length,
  get_elem?, take, ◌>>=◌, u8,
}
use silent_tanks.Game.Types.{Tank}
use silent_tanks.Protocol.Bytes.{Bytes, put_net, hton, concat_map}
use silent_tanks.Protocol.Structs.{
  ExternalUser, LoginRequest, FriendDecision, TextMessage, ExternalMatchMessage, BanMessage,
  StaticMatchData, MatchResultRow, MatchResultList, CommandBytes, SequencedCommand, ReplaySettings,
  MatchReplay, CellBytes, PlayerView,
}

-- A `bool` as a byte.
abbrev pub bool_byte : Bool → ℕ
bool_byte b = if b then 1 else 0

-- `elos` are two's complements of 32 bits.
unfoldable pub serialize_good_auth : Bool → List ℕ → Bytes
unfolding concat_map put_net
serialize_good_auth little elos = concat_map (λ elo. put_net little 4 elo) elos

-- `QueueMatchRequest`, `CancelMatchRequest`, `MatchHistoryRequest`, and the other requests of one byte.
unfoldable pub serialize_mode : ℕ → Bytes
serialize_mode mode = mode ∷ []

unfoldable pub serialize_row : Bool → MatchResultRow → Bytes
unfolding put_net to_time_t
serialize_row little row =
    put_net little 8 row.match_id
    ++ (put_net little 8 (to_time_t row.finished_at)
        ++ (put_net little 2 row.placement ++ put_net little 4 row.elo_change))

unfoldable pub serialize_results : Bool → MatchResultList → Bytes
unfolding concat_map serialize_row
serialize_results little results =
    results.mode ∷ concat_map (serialize_row little) results.match_results

unfoldable pub serialize_replay_request : Bool → ℕ → Bytes
unfolding put_net
serialize_replay_request little match_id = put_net little 8 match_id

-- A user of a list: the id, the length of the name as a `uint8_t`, and that many bytes of it.
unfoldable pub serialize_user : ExternalUser → Bytes
serialize_user user =
    user.user_id ++ u8 (length user.username) ∷ take (u8 (length user.username)) user.username

unfoldable pub serialize_command_head : CommandBytes → Bytes
serialize_command_head move =
    move.sender ∷ move.type_byte ∷ move.tank_id ∷ move.payload_first ∷ move.payload_second ∷ []

unfoldable pub serialize_settings : ReplaySettings → Bytes
serialize_settings s = s.filename ++ s.width ∷ s.height ∷ s.num_tanks ∷ s.num_players ∷ s.mode ∷ []

-- The number of the moves is assigned to a `uint32_t`, the length of the file name to a `uint16_t`.
unfoldable pub serialize_replay : Bool → MatchReplay → Bytes
unfolding put_net concat_map serialize_settings serialize_user serialize_command_head
serialize_replay little r =
    put_net little 4 (length r.moves % 4294967296)
    ++ (put_net little 2 (length r.settings.filename % 65536)
        ++ (put_net little 8 r.initial_time_ms
            ++ (put_net little 8 r.increment_ms
                ++ (put_net little 8 r.match_id
                    ++ (serialize_settings r.settings
                        ++ (concat_map serialize_user r.players
                            ++ concat_map serialize_command_head r.moves))))))

-- `LoginRequest` and `RegisterRequest`.
unfoldable pub serialize_login : LoginRequest → Bytes
serialize_login request = request.hash ++ request.username

unfoldable pub serialize_user_list : List ExternalUser → Bytes
unfolding concat_map serialize_user
serialize_user_list users = concat_map serialize_user users

unfoldable pub serialize_friend_decision : FriendDecision → Bytes
serialize_friend_decision decision = decision.user_id ++ bool_byte decision.decision ∷ []

-- `NotifyRelationUpdate`.
unfoldable pub serialize_relation : ExternalUser → Bytes
serialize_relation user = user.user_id ++ user.username

unfoldable pub serialize_text : TextMessage → Bytes
serialize_text message = message.user_id ++ message.text

unfoldable pub serialize_match_message : ExternalMatchMessage → Bytes
serialize_match_message m = m.user_id ++ m.username_length ∷ (m.sender_username ++ m.text)

unfoldable pub serialize_ban : Bool → BanMessage → Bytes
unfolding put_net to_time_t
serialize_ban little ban = put_net little 8 (to_time_t ban.time_till_unban) ++ ban.reason

unfoldable pub serialize_static : StaticMatchData → Bytes
unfolding concat_map serialize_user
serialize_static m =
    u8 (length m.player_list) ∷ concat_map serialize_user m.player_list ++ m.placement_mask

unfoldable pub serialize_cell : CellBytes → Bytes
serialize_cell cell = cell.type_byte ∷ cell.occupant ∷ bool_byte cell.visible ∷ []

unfoldable pub serialize_tank : Tank → Bytes
serialize_tank tank =
    tank.pos.x
    ∷ tank.pos.y
    ∷ tank.current_direction
    ∷ tank.barrel_direction
    ∷ tank.id
    ∷ tank.health
    ∷ bool_byte tank.aim_focused
    ∷ bool_byte tank.loaded
    ∷ tank.owner
    ∷ []

-- The elements `from` and up, a fault outside the vector. For the cells the two loops over `y` and `x`
-- visit the places `x + width * y` in order.
unfoldable pub serialize_range {ℓ} : {A : Type ℓ} → (A → Bytes) → List A → ℕ → ℕ → Option Bytes
serialize_range f xs from zero = some []
serialize_range f xs from (suc left) = do
  x ← get_elem? xs from
  rest ← serialize_range f xs (from + 1) left
  some (f x ++ rest)

unfoldable pub serialize_view : Bool → PlayerView → Option Bytes
unfolding serialize_range serialize_cell serialize_tank put_net concat_map
serialize_view little view = do
  let n_tanks = u8 (length view.visible_tanks)
  let map_view = view.map_view
  cells ← serialize_range serialize_cell map_view.array 0 (map_view.width * map_view.height)
  tanks ← serialize_range serialize_tank view.visible_tanks 0 n_tanks
  some (
      n_tanks
        ∷ view.current_player
        ∷ map_view.width
        ∷ map_view.height
        ∷ view.current_fuel
        ∷ view.current_state
        ∷ u8 (length view.timers)
        ∷ cells
      ++ (tanks ++ concat_map (λ ms. put_net little 8 ms) view.timers))

-- `net_sequence` is in network order, and its two bytes are taken out by shifts.
unfoldable pub serialize_command : Bool → SequencedCommand → Bytes
unfolding serialize_command_head hton
serialize_command little c =
    let net_sequence = hton little 2 c.sequence_number in
    serialize_command_head c.command ++ net_sequence / 256 % 256 ∷ net_sequence % 256 ∷ []
