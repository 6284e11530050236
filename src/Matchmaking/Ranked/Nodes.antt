-- ===== src/Matchmaking/Ranked/Nodes.antt =====
-- The nodes of a bucket (src/server/match-strategy.cpp, `elo_buckets_`).
use silent_tanks.Base.{
  ℕ, ◌+◌, ◌==◌, ◌≡◌, Bool, true, false, if◌then◌else◌, some, List, [], ◌∷◌, ◌++◌, length, refl, ap,
  arith, inl, inr, Bool-cases, ==_iff, ==_refl, subst, some_inj, Option-cases,
}
use silent_tanks.Protocol.Bytes.{Each}
use silent_tanks.Matchmaking.Ranked.{QueueEntry, erase_node}

abbrev pub FreeOf : ℕ → List QueueEntry → Type 0
FreeOf k = Each (λ e. (e.node == k) ≡ false)

abbrev pub DistinctNodes : List QueueEntry → Type 0
DistinctNodes [] = Unit
DistinctNodes (e ∷ es) = FreeOf e.node es × DistinctNodes es

-- Whether the node `k` is in the bucket, for the user.
unfoldable pub has_entry : ℕ → ℕ → List QueueEntry → Bool
has_entry u k [] = false
has_entry u k (e ∷ es) = if e.node == k then e.session.user_id == u else has_entry u k es

pub Each-map :
    (P R : QueueEntry → Type 0) (es : List QueueEntry)
    → ((e : QueueEntry) → P e → R e)
    → Each P es
    → Each R es
Each-map P R [] f a = tt
Each-map P R (e ∷ es) f a = (f e a.0, Each-map P R es f a.1)

pub Each-zip :
    (P Q R : QueueEntry → Type 0) (es : List QueueEntry)
    → ((e : QueueEntry) → P e → Q e → R e)
    → Each P es
    → Each Q es
    → Each R es
Each-zip P Q R [] f a b = tt
Each-zip P Q R (e ∷ es) f a b = (f e a.0 b.0, Each-zip P Q R es f a.1 b.1)

pub Each-append :
    (P : QueueEntry → Type 0) (es : List QueueEntry) (e : QueueEntry)
    → Each P es
    → P e
    → Each P (es ++ e ∷ [])
Each-append P [] e a b = (b, tt)
Each-append P (x ∷ es) e a b = (a.0, Each-append P es e a.1 b)

pub has_entry-user :
    (u v k : ℕ) (es : List QueueEntry) → has_entry u k es ≡ true → has_entry v k es ≡ true → u ≡ v
unfolding has_entry
has_entry-user u v k [] a b = cc
has_entry-user u v k (e ∷ es) a b = elim (Bool-cases (e.node == k)) [
  | inl here ↦ ground (arith, rw here at a, rw here at b)
  | inr later ↦ has_entry-user u v k es (rw later at a) (rw later at b)
]

-- What the removal of a node leaves.
pub record Erased (k : ℕ) (es left : List QueueEntry) : Type 0 where
  pub free : FreeOf k left
  pub shorter : length es ≡ length left + 1
  pub others : (u i : ℕ) → (i == k) ≡ false → has_entry u i left ≡ has_entry u i es

pub erase_node-finds :
    (u k : ℕ) (es : List QueueEntry)
    → has_entry u k es ≡ true
    → DistinctNodes es
    → (left : List QueueEntry) × (erase_node k es ≡ some left) × Erased k es left
unfolding has_entry erase_node
erase_node-finds u k [] has d = cc
erase_node-finds u k (e ∷ es) has d = elim (Bool-cases (e.node == k)) [
  | inl here ↦
      let same : e.node ≡ k = (==_iff e.node k).0 here in
      (
        es,
        rw here refl,
        record {
          free = subst (λ n. FreeOf n es) same d.0;
          shorter = omega arith;
          others = λ u' i other. ground (arith, same, other);
        },
      )
  | inr later ↦
      let (left, found, erased) = erase_node-finds u k es (rw later at has) d.1 in
      (
        e ∷ left,
        rw (later, found) refl,
        record {
          free = (later, erased.free);
          shorter = omega (arith, erased.shorter);
          others = λ u' i other.
              ap (λ b. if e.node == i then e.session.user_id == u' else b)
                (erased.others u' i other);
        },
      )
]

pub erase_node-Each :
    (P : QueueEntry → Type 0) (k : ℕ) (es left : List QueueEntry)
    → erase_node k es ≡ some left
    → Each P es
    → Each P left
unfolding erase_node
erase_node-Each P k [] left found a = cc
erase_node-Each P k (e ∷ es) left found a = elim (Bool-cases (e.node == k)) [
  | inl here ↦ subst (Each P) (some_inj (rw here at found)) a.1
  | inr later ↦ elim (Option-cases (erase_node k es)) [
    | inl absent ↦ let bad = rw (later, absent) at found in cc
    | inr (rest, kept) ↦
        subst (Each P) (some_inj (rw (later, kept) at found))
          (a.0, erase_node-Each P k es rest kept a.1)
  ]
]

pub erase_node-DistinctNodes :
    (k : ℕ) (es left : List QueueEntry)
    → erase_node k es ≡ some left
    → DistinctNodes es
    → DistinctNodes left
unfolding erase_node
erase_node-DistinctNodes k [] left found d = cc
erase_node-DistinctNodes k (e ∷ es) left found d = elim (Bool-cases (e.node == k)) [
  | inl here ↦ subst DistinctNodes (some_inj (rw here at found)) d.1
  | inr later ↦ elim (Option-cases (erase_node k es)) [
    | inl absent ↦ let bad = rw (later, absent) at found in cc
    | inr (rest, kept) ↦ subst DistinctNodes (some_inj (rw (later, kept) at found)) (
      erase_node-Each (λ x. (x.node == e.node) ≡ false) k es rest kept d.0,
      erase_node-DistinctNodes k es rest kept d.1,
    )
  ]
]

pub DistinctNodes-append :
    (es : List QueueEntry) (e : QueueEntry)
    → DistinctNodes es
    → FreeOf e.node es
    → DistinctNodes (es ++ e ∷ [])
DistinctNodes-append [] e d free = (tt, tt)
DistinctNodes-append (x ∷ es) e d free = (
  Each-append (λ y. (y.node == x.node) ≡ false) es e d.0 (ground (arith, free.0)),
  DistinctNodes-append es e d.1 free.1,
)

pub has_entry-append :
    (u k : ℕ) (es : List QueueEntry) (e : QueueEntry)
    → has_entry u k es ≡ true
    → has_entry u k (es ++ e ∷ []) ≡ true
unfolding has_entry
has_entry-append u k [] e has = cc
has_entry-append u k (x ∷ es) e has = elim (Bool-cases (x.node == k)) [
  | inl here ↦ rw here (rw here at has)
  | inr later ↦ rw later (has_entry-append u k es e (rw later at has))
]

pub has_entry-last :
    (es : List QueueEntry) (e : QueueEntry)
    → FreeOf e.node es
    → has_entry e.session.user_id e.node (es ++ e ∷ []) ≡ true
unfolding has_entry
has_entry-last [] e free = rw (==_refl e.node, ==_refl e.session.user_id) refl
has_entry-last (x ∷ es) e free = rw free.0 (has_entry-last es e free.1)
