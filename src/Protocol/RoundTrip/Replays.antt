-- ===== src/Protocol/RoundTrip/Replays.antt =====
-- The replay of a match (src/protocol/message.cpp, `MatchReplay`).
use silent_tanks.Base.{
  ℕ, ◌*◌, ◌%◌, ◌<◌, ◌≤◌, ◌≡◌, Bool, true, false, ltb, leb, ◌!=◌, if◌then◌else◌, Option, some, none,
  List, [], ◌∷◌, ◌++◌, length, refl, arith, ◌∙◌, ap, sym, length-append, ◌>>=◌, subst,
}
use mathlib.Core.List.{append_assoc, append-nil}
use silent_tanks.Protocol.Header.{max_username_length}
use silent_tanks.Protocol.Bytes.{Bytes, capacity, next_byte, next_many, concat_map}
use silent_tanks.Protocol.Bytes.Order.{
  next_net-put_net, split-append, split_exact, next_many-concat_map, length-concat_map, Each-any,
}
use silent_tanks.Protocol.Structs.{ExternalUser, CommandBytes, ReplaySettings, MatchReplay}
use silent_tanks.Protocol.Serialize.{
  serialize_user, serialize_command_head, serialize_settings, serialize_replay,
}
use silent_tanks.Protocol.Parse.{
  next_command_head, next_replay_user, next_settings, to_match_replay,
}
use silent_tanks.Protocol.RoundTrip.Users.{
  IsUser, AreUsers, serialize_user-bytes, length-serialize_user,
}
use silent_tanks.Protocol.RoundTrip.Commands.{next_command_head-serialize}

-- The reader of a user of a replay wants a byte after the name.
next_replay_user-serialize_user :
    (u : ExternalUser) (rest : Bytes)
    → IsUser u
    → 1 ≤ length rest
    → next_replay_user (serialize_user u ++ rest) ≡ some (u, rest)
unfolding next_replay_user next_byte
next_replay_user-serialize_user u rest is more =
    let long : ltb (length (serialize_user u ++ rest)) 17 ≡ false =
      ground (arith, length-append (serialize_user u) rest, length-serialize_user u is) in
    let apart : serialize_user u ++ rest ≡ u.user_id ++ length u.username ∷ (u.username ++ rest) =
      ap (λ bs. bs ++ rest) (serialize_user-bytes u is) ∙ append_assoc u.user_id _ rest in
    let short : ltb max_username_length (length u.username) ≡ false =
      ground (arith, is.name_size) in
    let beyond : leb (length (u.username ++ rest)) (length u.username) ≡ false =
      ground (arith, length-append u.username rest, more) in
    rw long (
      rw
        (
          apart,
          split_exact 16 u.user_id (length u.username ∷ (u.username ++ rest)) is.id_size,
          short,
          beyond,
          split-append u.username rest,
          is.name,
        )
        refl)

-- The users of a replay are read back if a byte follows them.
next_replay_users :
    (us : List ExternalUser) (rest : Bytes)
    → AreUsers us
    → 1 ≤ length rest
    → next_many next_replay_user (length us) (concat_map serialize_user us ++ rest)
      ≡ some (us, rest)
unfolding next_many concat_map
next_replay_users [] rest is more = refl
next_replay_users (u ∷ us) rest is more =
    let others = concat_map serialize_user us in
    rw (append_assoc (serialize_user u) others rest) (
      rw
        (
          next_replay_user-serialize_user u (others ++ rest) is.0
              (omega (arith, length-append others rest, more)),
          next_replay_users us rest is.1 more,
        )
        refl)

-- Without a byte after its name, the last user is rejected.
next_replay_user-last : (u : ExternalUser) → IsUser u → next_replay_user (serialize_user u) ≡ none
unfolding next_replay_user next_byte
next_replay_user-last u is =
    let long : ltb (length (serialize_user u)) 17 ≡ false =
      ground (arith, length-serialize_user u is) in
    let short : ltb max_username_length (length u.username) ≡ false =
      ground (arith, is.name_size) in
    let ended : leb (length u.username) (length u.username) ≡ true = ground arith in
    rw long (
      rw
        (
          serialize_user-bytes u is,
          split_exact 16 u.user_id (length u.username ∷ u.username) is.id_size,
          short,
          ended,
        )
        refl)

next_replay_users_last :
    (u : ExternalUser) (us : List ExternalUser)
    → AreUsers (u ∷ us)
    → next_many next_replay_user (length (u ∷ us)) (concat_map serialize_user (u ∷ us)) ≡ none
unfolding next_many concat_map
next_replay_users_last u [] is =
    let alone : serialize_user u ++ [] ≡ serialize_user u = append-nil (serialize_user u) in
    rw (alone, next_replay_user-last u is.0) refl
next_replay_users_last u (v ∷ us) is =
    let others : Bytes = concat_map serialize_user (v ∷ us) in
    let more : 1 ≤ length others = omega (
      arith,
      length-append (serialize_user v) (concat_map serialize_user us),
      length-serialize_user v is.1.0,
    ) in
    rw (next_replay_user-serialize_user u others is.0 more)
      (rw (next_replay_users_last v us is.1) refl)

next_settings-serialize_settings :
    (s : ReplaySettings) (rest : Bytes)
    → next_settings (length s.filename) (serialize_settings s ++ rest) ≡ some (s, rest)
unfolding next_settings serialize_settings next_byte
next_settings-serialize_settings s rest =
    let tail : Bytes = s.width ∷ s.height ∷ s.num_tanks ∷ s.num_players ∷ s.mode ∷ [] in
    rw (append_assoc s.filename tail rest, split-append s.filename (tail ++ rest)) refl

length-moves :
    (ms : List CommandBytes) → length (concat_map serialize_command_head ms) ≡ length ms * 5
unfolding serialize_command_head
length-moves ms =
    length-concat_map (λ _. Unit) serialize_command_head 5 (λ m _. refl) ms (Each-any ms)

-- A replay whose members fit their types, of as many users as its settings say.
pub record IsReplay (r : MatchReplay) : Type 0 where
  pub turns : length r.moves < capacity 4
  pub filename : length r.settings.filename < capacity 2
  pub initial_time : r.initial_time_ms < capacity 8
  pub increment : r.increment_ms < capacity 8
  pub match_id : r.match_id < capacity 8
  pub users : AreUsers r.players
  pub count : length r.players ≡ r.settings.num_players

module _ (little : Bool) (r : MatchReplay) (is : IsReplay r) where
  abbrev moves : Bytes
  moves = concat_map serialize_command_head r.moves

  abbrev users : Bytes
  users = concat_map serialize_user r.players

  abbrev tail : Bytes
  tail = serialize_settings r.settings ++ (users ++ moves)

  -- What the reader does after the numbers.
  abbrev read_tail : ℕ → Bytes → Option MatchReplay
  read_tail filename_length rest = do
    (settings, r6) ← next_settings filename_length rest
    (players, r7) ← next_many next_replay_user settings.num_players r6
    if length r7 != 5 * length r.moves then none else (do
      (read, _) ← next_many next_command_head (length r.moves) r7
      some (record {
        moves = read;
        players = players;
        settings = settings;
        initial_time_ms = r.initial_time_ms;
        increment_ms = r.increment_ms;
        match_id = r.match_id;
      }))

  -- The numbers at the start of a replay.
  to_match_replay-numbers :
      to_match_replay little (serialize_replay little r)
      ≡ read_tail (length r.settings.filename) tail
  unfolding to_match_replay serialize_replay
  to_match_replay-numbers =
      let turns : length r.moves % 4294967296 ≡ length r.moves = omega (arith, is.turns) in
      let name : length r.settings.filename % 65536 ≡ length r.settings.filename =
        omega (arith, is.filename) in
      rw (turns, name)
        (rw
          (
            next_net-put_net little 4 (length r.moves) _ is.turns,
            next_net-put_net little 2 (length r.settings.filename) _ is.filename,
            next_net-put_net little 8 r.initial_time_ms _ is.initial_time,
            next_net-put_net little 8 r.increment_ms _ is.increment,
            next_net-put_net little 8 r.match_id _ is.match_id,
          )
          refl)

  read_tail_lem : 1 ≤ length r.moves → read_tail (length r.settings.filename) tail ≡ some r
  read_tail_lem some_moves =
      let exact : (length moves != 5 * length r.moves) ≡ false =
        ground (arith, length-moves r.moves) in
      let read : next_many next_replay_user r.settings.num_players (users ++ moves)
          ≡ some (r.players, moves) =
        ap (λ n. next_many next_replay_user n (users ++ moves)) (sym is.count)
        ∙ next_replay_users r.players moves is.users
            (omega (arith, length-moves r.moves, some_moves)) in
      let commands : next_many next_command_head (length r.moves) moves ≡ some (r.moves, []) =
        ap (next_many next_command_head (length r.moves)) (sym (append-nil moves))
        ∙ next_many-concat_map (λ _. Unit) next_command_head serialize_command_head
            (λ c rest _. next_command_head-serialize c rest) r.moves [] (Each-any r.moves) in
      rw (next_settings-serialize_settings r.settings (users ++ moves), read, exact, commands) refl

-- A replay with at least one move, whose members fit their types and which has as many users as its
-- settings say, is read back as it was, on a host of either order of bytes.
pub to_match_replay-serialize_replay :
    (little : Bool) (r : MatchReplay)
    → IsReplay r
    → 1 ≤ length r.moves
    → to_match_replay little (serialize_replay little r) ≡ some r
to_match_replay-serialize_replay little r is some_moves =
    to_match_replay-numbers little r is ∙ read_tail_lem little r is some_moves

-- A replay without moves, of at least one user, whose members fit their types, is not read back: the
-- reader rejects it.
pub to_match_replay_no_moves :
    (little : Bool) (r : MatchReplay) (u : ExternalUser) (us : List ExternalUser)
    → IsReplay r
    → r.moves ≡ []
    → r.players ≡ u ∷ us
    → to_match_replay little (serialize_replay little r) ≡ none
unfolding concat_map
to_match_replay_no_moves little r u us is empty some_users =
    let users : concat_map serialize_user r.players ++ concat_map serialize_command_head r.moves
        ≡ concat_map serialize_user (u ∷ us) =
      ap (λ ms. concat_map serialize_user r.players ++ concat_map serialize_command_head ms) empty
      ∙ append-nil (concat_map serialize_user r.players)
      ∙ ap (concat_map serialize_user) some_users in
    let bad : next_many next_replay_user r.settings.num_players
          (concat_map serialize_user r.players ++ concat_map serialize_command_head r.moves)
        ≡ none =
      ap
        (λ n.
          next_many next_replay_user n
            (concat_map serialize_user r.players ++ concat_map serialize_command_head r.moves))
        (sym is.count ∙ ap length some_users)
      ∙ ap (next_many next_replay_user (length (u ∷ us))) users
      ∙ next_replay_users_last u us (subst AreUsers some_users is.users) in
    to_match_replay-numbers little r is
    ∙ rw
        (
          next_settings-serialize_settings r.settings
              (concat_map serialize_user r.players ++ concat_map serialize_command_head r.moves),
          bad,
        )
        refl
