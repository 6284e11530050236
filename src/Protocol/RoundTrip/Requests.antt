-- ===== src/Protocol/RoundTrip/Requests.antt =====
-- The requests and notifications of a few fields (src/protocol/message.cpp).
use silent_tanks.Protocol.Clock.{to_time_t, whole_seconds, to_time_t-fits, from_time_t-to_time_t}
use silent_tanks.Base.{
  ℕ, ◌+◌, ◌*◌, ◌<◌, ◌≤◌, ◌≡◌, Bool, true, false, ltb, ◌!=◌, ◌||◌, some, List, [], ◌∷◌, ◌++◌, length,
  refl, arith, ◌∙◌, ap, length-append, sym,
}
use mathlib.Core.List.{append-nil}
use silent_tanks.Protocol.Header.{max_username_length}
use silent_tanks.Protocol.Bytes.{
  Bytes, Each, capacity, split, next_byte, next_net, concat_map, put_net, next_many,
}
use silent_tanks.Protocol.Bytes.Order.{
  split_exact, split-append, next_net-put_net, length-put_net, next_many-concat_map,
  length-concat_map,
}
use silent_tanks.Protocol.Structs.{hash_length, LoginRequest, ExternalMatchMessage, BanMessage}
use silent_tanks.Protocol.Serialize.{
  bool_byte, serialize_login, serialize_friend_decision, serialize_relation, serialize_text,
  serialize_match_message, serialize_ban, serialize_replay_request, serialize_good_auth,
}
use silent_tanks.Protocol.Parse.{
  all_allowed, to_login_request, to_friend_decision, to_user, to_text_message, to_match_message,
  to_ban_message, to_replay_request, to_elos,
}

-- A request to log in with a hash of 32 bytes and a name of 1 to 24 allowed characters is read back.
pub to_login_request-serialize_login :
    (r : LoginRequest)
    → length r.hash ≡ hash_length
    → 1 ≤ length r.username
    → length r.username ≤ max_username_length
    → all_allowed r.username ≡ true
    → to_login_request (serialize_login r) ≡ r
unfolding to_login_request serialize_login
to_login_request-serialize_login r size some_name few fine =
    let total = length-append r.hash r.username in
    let long : ltb (length (r.hash ++ r.username)) (hash_length + 1) ≡ false =
      ground (arith, total) in
    let short : ltb (hash_length + max_username_length) (length (r.hash ++ r.username)) ≡ false =
      ground (arith, total) in
    rw (long, short, split_exact hash_length r.hash r.username size, fine) refl

-- For an id of 16 bytes, a text that is not empty, a decision, and a name of at most 24 bytes: the
-- message with the text, the answer with the decision and the notification with the name are read
-- back.
pub ids_round_trip :
    (user_id text username : Bytes) (decision : Bool)
    → length user_id ≡ 16
    → 1 ≤ length text
    → length username ≤ max_username_length
    → (to_text_message (serialize_text (record { user_id = user_id; text = text }))
        ≡ record { user_id = user_id; text = text })
      × (to_friend_decision
            (serialize_friend_decision (record { user_id = user_id; decision = decision }))
          ≡ record { user_id = user_id; decision = decision })
      × (to_user (serialize_relation (record { user_id = user_id; username = username }))
          ≡ record { user_id = user_id; username = username })
unfolding to_text_message serialize_text to_friend_decision serialize_friend_decision to_user
    serialize_relation
ids_round_trip user_id text username decision size some_text few = (texts, decisions, names)
  where
    texts :
        to_text_message (serialize_text (record { user_id = user_id; text = text }))
        ≡ record { user_id = user_id; text = text }
    texts =
        let long : ltb (length (user_id ++ text)) 17 ≡ false =
          ground (arith, length-append user_id text) in
        rw (long, split_exact 16 user_id text size) refl

    decided : (b : Bool) → (bool_byte b != 0) ≡ b
    decided true = refl
    decided false = refl

    decisions :
        to_friend_decision
          (serialize_friend_decision (record { user_id = user_id; decision = decision }))
        ≡ record { user_id = user_id; decision = decision }
    decisions =
        let byte : Bytes = bool_byte decision ∷ [] in
        let exact : (length (user_id ++ byte) != 17) ≡ false =
          ground (arith, length-append user_id byte) in
        rw (exact, split_exact 16 user_id byte size, decided decision) refl

    names :
        to_user (serialize_relation (record { user_id = user_id; username = username }))
        ≡ record { user_id = user_id; username = username }
    names =
        let total = length-append user_id username in
        let fits : (ltb (length (user_id ++ username)) 16
              || ltb (16 + max_username_length) (length (user_id ++ username)))
            ≡ false =
          ground (arith, total) in
        rw (fits, split_exact 16 user_id username size) refl

-- A message to a match whose length of the name is right and whose name and text are not
-- empty is read back, without the length of the name.
pub to_match_message-serialize_match_message :
    (m : ExternalMatchMessage)
    → length m.user_id ≡ 16
    → m.username_length ≡ length m.sender_username
    → 1 ≤ length m.sender_username
    → 1 ≤ length m.text
    → to_match_message (serialize_match_message m)
      ≡ some (record { user_id = m.user_id; sender_username = m.sender_username; text = m.text })
unfolding to_match_message serialize_match_message next_byte
to_match_message-serialize_match_message m size right some_name some_text =
    let names : Bytes = m.sender_username ++ m.text in
    let total = length-append m.user_id (m.username_length ∷ names) in
    let names_total = length-append m.sender_username m.text in
    let long : ltb (length (m.user_id ++ m.username_length ∷ names)) 19 ≡ false =
      ground (arith, total, names_total) in
    let enough : ltb (length names) (m.username_length + 1) ≡ false = ground (arith, names_total) in
    let apart : split m.username_length names ≡ some (m.sender_username, m.text) =
      ap (λ n. split n names) right ∙ split-append m.sender_username m.text in
    rw (long, split_exact 16 m.user_id (m.username_length ∷ names) size, enough, apart) refl

-- On a host of either order of bytes, a ban whose time fits its type is read back with the time
-- rounded to a whole second, towards the epoch, and with its reason; the request for a replay whose
-- number fits eight bytes and a list of ratings that fit four bytes are read back as they were.
pub numbers_round_trip :
    (little : Bool) (ban : BanMessage) (match_id : ℕ) (elos : List ℕ)
    → ban.time_till_unban < capacity 8
    → match_id < capacity 8
    → Each (λ elo. elo < capacity 4) elos
    → (to_ban_message little (serialize_ban little ban)
        ≡ some (record ban { time_till_unban = whole_seconds ban.time_till_unban }))
      × (to_replay_request little (serialize_replay_request little match_id) ≡ match_id)
      × (to_elos little (length elos) (serialize_good_auth little elos) ≡ elos)
unfolding to_ban_message serialize_ban to_replay_request serialize_replay_request to_elos
    serialize_good_auth
numbers_round_trip little ban match_id elos fits_time fits_id fits = (bans, replays, ratings)
  where
    bans :
        to_ban_message little (serialize_ban little ban)
        ≡ some (record ban { time_till_unban = whole_seconds ban.time_till_unban })
    bans =
        let bytes = put_net little 8 (to_time_t ban.time_till_unban) in
        let long : ltb (length (bytes ++ ban.reason)) 8 ≡ false = ground (
          arith,
          length-append bytes ban.reason,
          length-put_net little 8 (to_time_t ban.time_till_unban),
        ) in
        rw
          (
            long,
            next_net-put_net little 8 (to_time_t ban.time_till_unban) ban.reason
                (to_time_t-fits ban.time_till_unban fits_time),
            from_time_t-to_time_t ban.time_till_unban fits_time,
          )
          refl

    replays : to_replay_request little (serialize_replay_request little match_id) ≡ match_id
    replays =
        let long : ltb (length (put_net little 8 match_id)) 8 ≡ false =
          ground (arith, length-put_net little 8 match_id) in
        let read : next_net little 8 (put_net little 8 match_id) ≡ some (match_id, []) =
          ap (next_net little 8) (sym (append-nil (put_net little 8 match_id)))
          ∙ next_net-put_net little 8 match_id [] fits_id in
        rw (long, read) refl

    ratings : to_elos little (length elos) (serialize_good_auth little elos) ≡ elos
    ratings =
        let bytes : Bytes = concat_map (λ elo. put_net little 4 elo) elos in
        let exact : (length bytes != length elos * 4) ≡ false = ground (
          arith,
          length-concat_map (λ elo. elo < capacity 4) (λ elo. put_net little 4 elo) 4
              (λ elo _. length-put_net little 4 elo) elos fits,
        ) in
        let read : next_many (next_net little 4) (length elos) bytes ≡ some (elos, []) =
          ap (next_many (next_net little 4) (length elos)) (sym (append-nil bytes))
          ∙ next_many-concat_map (λ elo. elo < capacity 4) (next_net little 4)
              (λ elo. put_net little 4 elo) (λ elo rest h. next_net-put_net little 4 elo rest h)
              elos [] fits in
        rw (exact, read) refl
