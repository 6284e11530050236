-- ===== src/Matchmaking/Types/Lookups.antt =====
-- What a lookup contains after its operations (src/server/match-strategy.cpp, match-maker.cpp).
use silent_tanks.Base.{
  ℕ, ◌==◌, ◌≡◌, Bool, true, false, if◌then◌else◌, Option, some, none, List, [], ◌∷◌, refl, ap, ◌∙◌,
}
use silent_tanks.Matchmaking.Types.{Session, Lookup, erase, is_some, contains, erase_users, queued}

pub is_some-if {ℓ} :
    {A : Type ℓ} (b : Bool) (a : A) (o : Option A)
    → is_some (if b then some a else o) ≡ (if b then true else is_some o)
is_some-if true a o = refl
is_some-if false a o = refl

pub is_some-unless {ℓ} :
    {A : Type ℓ} (b : Bool) (o : Option A)
    → is_some (if b then none else o) ≡ (if b then false else is_some o)
is_some-unless true o = refl
is_some-unless false o = refl

pub contains-erase_users {ℓ} :
    {A : Type ℓ} (m : Lookup A) (ps : List Session) (u : ℕ)
    → contains (erase_users m ps) u ≡ (if queued u ps then false else contains m u)
unfolding erase_users queued
contains-erase_users m [] u = refl
contains-erase_users m (p ∷ ps) u =
    contains-erase_users (erase m p.user_id) ps u
    ∙ ap (λ b. if queued u ps then false else b) (is_some-unless (u == p.user_id) (m u))
    ∙ either (queued u ps) (u == p.user_id) (is_some (m u))
  where
    either :
        (a b c : Bool)
        → (if a then false else if b then false else c)
          ≡ (if (if b then true else a) then false else c)
    either true true c = refl
    either true false c = refl
    either false true c = refl
    either false false c = refl
