-- ===== src/Lib.antt =====
-- Verification of Silent Tanks: the rules of the game, as the server and the replays of the client
-- run them, the life of a match on the server, the bytes of the messages, and the matchmaking.
--
-- The program's parts. The game library (src/libgame) keeps the board, the tanks and the players in a
-- `GameInstance`, which a match of the server (src/server/match-instance.cpp) owns and changes by the
-- commands of its players. A match lives on a strand: each command, forfeit, reconnection, timer and
-- turn is a task that runs alone, and a task may post the next turn. The protocol library
-- (src/protocol) has the commands and the messages: the client and the server write them with
-- `Message::create_serialized` and read them with the readers beside it. The match maker
-- (src/server/match-maker.cpp) passes users on to the strategies (match-strategy.cpp), which give it
-- the sessions of a match; it makes the instance, routes commands to it, and forgets it when the
-- results arrive.
--
-- Where each part is modelled:
--   Base             lists read as vectors, Boolean tests, and arithmetic of 8 bits (`add8`, `sub8`)
--   Game/Types       the data of src/libgame: vec2.h, grid-cell.h, flat-array.h, player.h, maps.h,
--                    tank-entity.h, game-instance.h and constants.h
--   Game/Tank        tank-entity.cpp: turning, damage and repair
--   Game/Grid        access to the board, the tanks and the players (game-instance.h); below it,
--                    Board reads the array as a map from positions
--   Game/Occupancy   soundness: the cell of a living tank names it, an occupied cell names a living
--                    tank that stands there, and no tank stands on a mountain
--   Game/Roster      which tanks a player owns, and the headings of the tanks
--   Game/Move        `move_tank` and the rotations (game-instance.cpp), one function for each case of
--                    the switch; below it, Legal has the rule of a move, Occupancy what a move does
--                    to the board, and Undo the way back
--   Game/Fire        `fire_tank`, `replay_fire_tank`, `repair_tank`, `load_tank` and `unload_tank`;
--                    below it, Shot has the flight of a shell, Occupancy what a shot does, Replay the
--                    comparison of the two loops, and Repair the undoing of damage
--   Game/Placement   the constructors, `place_tank` and `remove_tank`; below it, Initial has the new
--                    instance, Enrolment and Order what a placement does, Removal its undoing
--   Protocol/Command, Header
--                    command.h, header.h and header.cpp of src/protocol
--   Protocol/Bytes   integers as bytes in the order of the host and of the network
--   Protocol/Clock   the time points of the C++ library, and their seconds
--   Protocol/Structs the data of the messages (message-structs.h, match-result-structs.h,
--                    external-user.h, gamemodes.h, src/libgame/player-view.h)
--   Protocol/Serialize, Protocol/Parse
--                    `create_serialized` and the readers of message.cpp
--   Protocol/RoundTrip
--                    what the readers make of the serialised messages; Accepted has the headers of
--                    requests against the validation of the server
--   Match/Types      the members of `MatchInstance` and its results
--   Match/Apply      `apply_command`, one function for each case of the switch
--   Match/Views      `compute_all_views`, without what the views show
--   Match/Turns      `start_turn`, `on_player_move_arrived`, `handle_timeout`, `handle_elimination`
--                    and `conclude_game`
--   Match/Events     the constructor, `start`, `receive_command`, `forfeit`, `sync_player`, the timer's
--                    handler and `async_shutdown`; a schedule is a list of tasks
--   Match/Invariant  what every task keeps; Match/Queue, Living, Claims, Race, Wreck, Scrap,
--                    Late and Twice are about the queues of commands, the count of living tanks,
--                    the timer against the move (Claims and, below it, Tasks and Starts say what
--                    keeps the turn and its claim, Race what follows), eliminations (Wreck, Scrap), tasks that arrive
--                    after the end, and turns that start after it
--   Matchmaking/Types
--                    sessions, modes and lookups
--   Matchmaking/Casual
--                    the casual strategies of match-strategy.cpp; below it, Refinement has the
--                    waiting list that they implement, Matches and Arrivals what they match
--   Matchmaking/Ranked
--                    `RankedTwoPlayerStrategy`; below it, Buckets has the ratings, Nodes and
--                    Invariant the iterators, Enqueue, Outcome and Tick the tasks, Runs all of them,
--                    Sizes and Short how full the buckets are
--   Matchmaking/Maker
--                    `MatchMaker`; below it, Steps has its tasks, Disjoint its two maps of users,
--                    Waiting a user who is queued, Dropped a match that is not made, Stale the
--                    results of a match that a player has left
--   Tests            a board of nine cells with two tanks, and a match on it; messages; queues
--
-- How code corresponds to definitions. A function that changes its object takes the old state and
-- returns the new one. An access outside a vector is a fault: `none` in Game, `err out_of_range` in
-- Match; the call of an empty `std::function` is the fault `empty_callback`. A position, a count or an
-- id is a natural number, with the wrap-around of its type written out where the code can reach it.
-- The clock is an argument `now`, the outcome of a timer is an argument of the task, and the messages
-- that a match sends are the list `sent` of sessions and kinds of message. A payload is a list of
-- bytes, a reader that fails is `none` or the default that the code returns, and the order of the
-- bytes of the host is the argument `little`. An iterator of a list of the ranked queue is the number
-- of its node. A task of the match maker returns what it asks of others as a list of effects.
--
-- Bounds and fuel. Most loops of the code count, and their models recurse on the number of rounds that
-- are left, which is that of the code. The loops of `to_user_list` and `to_results_list` have the
-- number of bytes as fuel, and those of the two `try_form_match` the number of sessions that wait:
-- each round takes a byte or a session. A loop of `to_user_list` that ran out of fuel would be told
-- apart from one that rejects its bytes. The theorems on the game library suppose a sound instance,
-- whose board is at most 255 by 255 and which has at most 255 tanks, as the types of the code demand.
-- `MatchInstance::turn_ID_` wraps at 2 ^ 32. A time point is a 64-bit count of nanoseconds, as the C++
-- library of the server has it.
--
-- Not modelled: what a view shows (it uses floats for its rays), the bytes of map files, the choice of
-- a map at random, the users and sessions, the database, the ratings, and the client but for the
-- replay of a shot. `MatchMaker::enqueue` and `cancel` are called without the strand that its other
-- tasks run on; here each call and each task runs alone. Sockets, timers, SQL and Qt are outside the
-- program.
pub mod Base
pub mod Game
pub mod Protocol
pub mod Match
pub mod Matchmaking
mod Tests
