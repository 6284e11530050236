-- ===== src/Matchmaking/Casual/Users.antt =====
-- The users of a list of sessions and of a lookup (src/server/match-strategy.cpp).
use silent_tanks.Base.{
  ℕ, ◌≤◌, ◌==◌, ◌≡◌, true, false, if◌then◌else◌, List, [], ◌∷◌, ◌++◌, length, refl, arith,
}
use silent_tanks.Matchmaking.Types.{Session, queued}
use silent_tanks.Matchmaking.Casual.{remove_user}

-- The sessions of a list are of distinct users.
abbrev pub Distinct : List Session → Type 0
Distinct [] = Unit
Distinct (p ∷ ps) = (queued p.user_id ps ≡ false) × Distinct ps

pub queued-append :
    (u : ℕ) (ps : List Session) (p : Session)
    → queued u (ps ++ p ∷ []) ≡ (if u == p.user_id then true else queued u ps)
unfolding queued
queued-append u [] p = refl
queued-append u (x ∷ ps) p = grind (arith, queued-append u ps p)

pub Distinct-append :
    (ps : List Session) (p : Session)
    → Distinct ps
    → queued p.user_id ps ≡ false
    → Distinct (ps ++ p ∷ [])
unfolding queued
Distinct-append [] p d new = (refl, tt)
Distinct-append (x ∷ ps) p d new =
    grind (arith, queued-append x.user_id ps p, Distinct-append ps p d.1)

pub queued-remove_user :
    (u k : ℕ) (ps : List Session)
    → queued u (remove_user k ps) ≡ (if u == k then false else queued u ps)
unfolding queued remove_user
queued-remove_user u k [] = ground arith
queued-remove_user u k (p ∷ ps) = grind (arith, queued-remove_user u k ps)

pub Distinct-remove_user : (k : ℕ) (ps : List Session) → Distinct ps → Distinct (remove_user k ps)
unfolding queued remove_user
Distinct-remove_user k [] d = tt
Distinct-remove_user k (p ∷ ps) d =
    grind (arith, queued-remove_user p.user_id k ps, Distinct-remove_user k ps d.1)

pub length-remove_user-le : (k : ℕ) (ps : List Session) → length (remove_user k ps) ≤ length ps
unfolding remove_user
length-remove_user-le k [] = omega arith
length-remove_user-le k (p ∷ ps) = ground (arith, length-remove_user-le k ps)

pub remove_user_absent : (k : ℕ) (ps : List Session) → queued k ps ≡ false → remove_user k ps ≡ ps
unfolding queued remove_user
remove_user_absent k [] h = refl
remove_user_absent k (p ∷ ps) h = grind (arith, remove_user_absent k ps)
