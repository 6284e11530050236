-- ===== src/Protocol/RoundTrip/Statics.antt =====
-- The data of a match that stays the same (src/protocol/message.cpp, `StaticMatchData`).
use silent_tanks.Protocol.Bytes.Order.{next_many-concat_map}
use silent_tanks.Base.{◌≤◌, ◌≡◌, ltb, some, length, refl, arith, u8, false}
use silent_tanks.Protocol.Bytes.{next_byte}
use silent_tanks.Protocol.Structs.{StaticMatchData, max_players}
use silent_tanks.Protocol.Serialize.{serialize_user, serialize_static}
use silent_tanks.Protocol.Parse.{next_user, to_static_match_data}
use silent_tanks.Protocol.RoundTrip.Users.{IsUser, AreUsers, next_user-serialize_user}

-- The data of a match of at most five players, whose payload has the 32 bytes that the reader wants,
-- is read back as it was.
pub to_static_match_data-serialize_static :
    (m : StaticMatchData)
    → AreUsers m.player_list
    → length m.player_list ≤ max_players
    → 32 ≤ length (serialize_static m)
    → to_static_match_data (serialize_static m) ≡ some m
unfolding to_static_match_data next_byte
to_static_match_data-serialize_static m are few long =
    let fits : ltb (length (serialize_static m)) 32 ≡ false = ground (arith, long) in
    let count : u8 (length m.player_list) ≡ length m.player_list = omega (arith, few) in
    let allowed : ltb max_players (length m.player_list) ≡ false = ground (arith, few) in
    simp fits (
      unfold serialize_static in
      rw
        (
          count,
          allowed,
          next_many-concat_map IsUser next_user serialize_user next_user-serialize_user
              m.player_list m.placement_mask are,
        )
        refl)
