-- ===== src/Matchmaking/Types.antt =====
-- What the strategies and the match maker share (src/server/match-strategy.h, match-maker.h and
-- src/protocol/gamemodes.h). A hash set and a hash map are functions of the key; an id of a user is a
-- number, since ids are only compared.
pub mod Lookups
use silent_tanks.Base.{ℕ, Bool, true, false, ◌==◌, if◌then◌else◌, Option, some, none, List, [], ◌∷◌}

-- `int`, over the native numbers.
pub data ℤ : Type 0 where
  pos negsuc : ℕ → ℤ

pub data GameMode : Type 0 where
  classic_two_player classic_three_player classic_five_player ranked_two_player : GameMode

abbrev pub players_for_gamemode : GameMode → ℕ
players_for_gamemode classic_two_player = 2
players_for_gamemode classic_three_player = 3
players_for_gamemode classic_five_player = 5
players_for_gamemode ranked_two_player = 2

-- A session with the members of its `UserData` that matchmaking reads; `elo` is for ranked play.
pub record Session : Type 0 where
  pub id : ℕ
  pub user_id : ℕ
  pub elo : ℤ

abbrev pub Lookup {ℓ} : Type ℓ → Type ℓ
Lookup A = ℕ → Option A

abbrev pub no_users {ℓ} : {A : Type ℓ} → Lookup A
no_users u = none

abbrev pub insert {ℓ} : {A : Type ℓ} → Lookup A → ℕ → A → Lookup A
insert m k v u = if u == k then some v else m u

abbrev pub erase {ℓ} : {A : Type ℓ} → Lookup A → ℕ → Lookup A
erase m k u = if u == k then none else m u

abbrev pub is_some {ℓ} : {A : Type ℓ} → Option A → Bool
is_some none = false
is_some (some a) = true

abbrev pub contains {ℓ} : {A : Type ℓ} → Lookup A → ℕ → Bool
contains m u = is_some (m u)

-- The loop that erases the user of each session.
unfoldable pub erase_users {ℓ} : {A : Type ℓ} → Lookup A → List Session → Lookup A
erase_users m [] = m
erase_users m (p ∷ ps) = erase_users (erase m p.user_id) ps

-- Whether a session of the user is in the list.
unfoldable pub queued : ℕ → List Session → Bool
queued u [] = false
queued u (p ∷ ps) = if u == p.user_id then true else queued u ps
