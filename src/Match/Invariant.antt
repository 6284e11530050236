-- ===== src/Match/Invariant.antt =====
-- What every task of the strand of a match keeps true (src/server/match-instance.cpp).
pub mod Views
pub mod Turns
pub mod Tasks
pub mod Runs
use silent_tanks.Base.{
  ℕ, zero, suc, ◌+◌, ◌<◌, ◌≤◌, ◌≡◌, Bool, true, false, if◌then◌else◌, List, [], ◌∷◌, ◌++◌, length,
  get_elem?, set, refl, arith, subst, some, some_inj, add8, sub8,
}
use silent_tanks.Protocol.Command.{Command}
use silent_tanks.Match.Types.{
  Match, PlayerInfo, Result, ok, err, ◌>>=◌, Fault, max_queue_size, store, fetch,
}
use silent_tanks.Match.Turns.{is_concluded}

-- What a computation returns has the property.
abbrev pub Ensures : {B : Type 0} → (B → Type 0) → Result B → Type 0
Ensures P (ok m) = P m
Ensures P (err e) = Unit

pub Ensures-bind {ℓ} :
    {A : Type ℓ} {B : Type 0} (P : B → Type 0) (r : Result A) (f : A → Result B)
    → ((a : A) → r ≡ ok a → Ensures P (f a))
    → Ensures P (r >>= f)
Ensures-bind P (ok a) f h = h a refl
Ensures-bind P (err e) f h = tt

pub Ensures-then :
    {A B : Type 0} (P : A → Type 0) (Q : B → Type 0) (r : Result A) (f : A → Result B)
    → Ensures P r
    → ((m : A) → P m → Ensures Q (f m))
    → Ensures Q (r >>= f)
Ensures-then P Q (ok m) f p h = h m p
Ensures-then P Q (err e) f p h = tt

pub Ensures-eq-ok :
    {B : Type 0} (P : B → Type 0) (r : Result B) (b : B) → Ensures P r → r ≡ ok b → P b
Ensures-eq-ok P r b p e = subst (Ensures P) e p

-- All commands of a queue are from its player.
abbrev pub AllFrom : ℕ → List Command → Type 0
AllFrom k [] = Unit
AllFrom k (c ∷ cs) = (c.sender ≡ k) × AllFrom k cs

abbrev pub QueueOk : ℕ → List Command → Type 0
QueueOk k q = (length q ≤ max_queue_size) × AllFrom k q

-- From queue number `k` on.
abbrev pub QueuesOk : ℕ → List (List Command) → Type 0
QueuesOk k [] = Unit
QueuesOk k (q ∷ qs) = QueueOk k q × QueuesOk (suc k) qs

abbrev pub alive_count : List PlayerInfo → ℕ
alive_count [] = 0
alive_count (p ∷ ps) = (if p.alive then 1 else 0) + alive_count ps

abbrev pub one_if : Bool → ℕ
one_if b = if b then 1 else 0

pub record IsInv (m : Match) : Type 0 where
  -- A queue is bounded and holds the commands of its player.
  pub queues : QueuesOk 0 m.command_queues
  -- `remaining_players` counts the players who are alive, and `elim_counter` the others.
  pub tally : m.remaining_players ≡ alive_count m.players
  pub eliminated : m.elim_counter + m.remaining_players ≡ m.n_players
  pub few : m.n_players ≤ 255
  -- The result was reported at most once, and not as long as it can be.
  pub once : m.reported + one_if m.results_set ≤ 1
  -- A match that has concluded has no callbacks.
  pub silent : is_concluded m.current_state ≡ true → (m.send_set ≡ false) × (m.results_set ≡ false)

pub QueuesOk-set :
    (k i : ℕ) (qs : List (List Command)) (q : List Command)
    → QueuesOk k qs
    → QueueOk (i + k) q
    → QueuesOk k (set qs i q)
QueuesOk-set k i [] q h o = tt
QueuesOk-set k zero (p ∷ qs) q h o = (subst (λ j. QueueOk j q) (omega arith) o, h.1)
QueuesOk-set k (suc i) (p ∷ qs) q h o =
    (h.0, QueuesOk-set (suc k) i qs q h.1 (subst (λ j. QueueOk j q) (omega arith) o))

pub QueuesOk-get :
    (k i : ℕ) (qs : List (List Command)) (q : List Command)
    → QueuesOk k qs
    → get_elem? qs i ≡ some q
    → QueueOk (i + k) q
QueuesOk-get k i [] q h e = cc
QueuesOk-get k zero (p ∷ qs) q h e =
    subst (λ j. QueueOk j q) (omega arith) (subst (QueueOk k) (some_inj e) h.0)
QueuesOk-get k (suc i) (p ∷ qs) q h e =
    subst (λ j. QueueOk j q) (omega arith) (QueuesOk-get (suc k) i qs q h.1 e)

pub alive_count-set :
    (ps : List PlayerInfo) (i : ℕ) (old new : PlayerInfo)
    → get_elem? ps i ≡ some old
    → alive_count (set ps i new) + one_if old.alive ≡ alive_count ps + one_if new.alive
alive_count-set [] i old new e = cc
alive_count-set (p ∷ ps) zero old new e = ground (arith, some_inj e)
alive_count-set (p ∷ ps) (suc i) old new e = omega (arith, alive_count-set ps i old new e)

-- What `store` returns.
pub store-eq-ok {ℓ} :
    {A : Type ℓ} (xs ys : List A) (i : ℕ) (v : A) → store xs i v ≡ ok ys → ys ≡ set xs i v
store-eq-ok xs ys i v e = ground arith

pub fetch-eq-ok {ℓ} :
    {A : Type ℓ} (xs : List A) (i : ℕ) (v : A) → fetch xs i ≡ ok v → get_elem? xs i ≡ some v
fetch-eq-ok xs i v e = ground arith

pub Ensures-if :
    {B : Type 0} (P : B → Type 0) (b : Bool) (r s : Result B)
    → (b ≡ true → Ensures P r)
    → (b ≡ false → Ensures P s)
    → Ensures P (if b then r else s)
Ensures-if P true r s h k = h refl
Ensures-if P false r s h k = k refl

-- The counts after a living player is lost.
pub lose_player :
    (m : Match) (i : ℕ) (info : PlayerInfo) (players : List PlayerInfo)
    → IsInv m
    → fetch m.players i ≡ ok info
    → info.alive ≡ true
    → store m.players i (record info { alive = false }) ≡ ok players
    → (sub8 m.remaining_players 1 ≡ alive_count players)
      × (add8 m.elim_counter 1 + sub8 m.remaining_players 1 ≡ m.n_players)
lose_player m i info players inv found alive stored =
    let lost : PlayerInfo = record info { alive = false } in
    let same : players ≡ set m.players i lost = store-eq-ok m.players players i lost stored in
    let count : alive_count players + 1 ≡ alive_count m.players =
      ground
        (arith, same, alive_count-set m.players i info lost (fetch-eq-ok m.players i info found)) in
    (
      omega (arith, inv.tally, inv.eliminated, inv.few),
      omega (arith, inv.tally, inv.eliminated, inv.few),
    )
