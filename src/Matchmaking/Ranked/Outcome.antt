-- ===== src/Matchmaking/Ranked/Outcome.antt =====
-- What the matches of the ranked queue do to it (`match_and_remove` of
-- src/server/match-strategy.cpp).
use silent_tanks.Matchmaking.Ranked.Sizes.{size_at, match_and_remove-size_at}
use silent_tanks.Base.{
  ℕ, ◌==◌, ◌≡◌, ◌⊎◌, Bool, true, false, if◌then◌else◌, Option, some, none, List, [], ◌∷◌, ◌++◌,
  refl, sym, ap, ◌∙◌, arith, inl, inr, Bool-cases, ==_iff, subst, ◌≤◌,
}
use silent_tanks.Protocol.Bytes.{Each}
use silent_tanks.Matchmaking.Types.{Session, Lookup, erase, is_some, contains}
use silent_tanks.Matchmaking.Ranked.{LookupData, Ranked, Pair, match_and_remove}
use silent_tanks.Matchmaking.Ranked.Invariant.{
  IsRanked, place, place_inj, without, erase_unequal, erase_entry-IsRanked,
}

-- Whether the user is matched.
abbrev pub paired : ℕ → List Pair → Bool
paired u [] = false
paired u ((p1, p2) ∷ pairs) =
    if u == p1.user_id then true else if u == p2.user_id then true else paired u pairs

-- Two distinct users who were queued.
abbrev pub IsPair : Ranked → Pair → Type 0
IsPair s (p1, p2) =
    ((p1.user_id == p2.user_id) ≡ false)
    × (contains s.lookup p1.user_id ≡ true)
    × (contains s.lookup p2.user_id ≡ true)

-- The queue is in order again, each match is of two distinct users who were queued, the users who are
-- matched have left the lookup, all others are where they were, and no bucket has become longer.
pub record IsOutcome (s next : Ranked) (pairs : List Pair) : Type 0 where
  pub ranked : IsRanked next
  pub matched : Each (IsPair s) pairs
  pub left : (u : ℕ) → next.lookup u ≡ (if paired u pairs then none else s.lookup u)
  pub shrinks : (m : ℕ) → size_at next.elo_buckets m ≤ size_at s.elo_buckets m

pub no_pairs : (s : Ranked) → IsRanked s → IsOutcome s s []
no_pairs s is = record { ranked = is; matched = tt; left = λ u. refl; shrinks = λ m. omega arith }

paired-append :
    (u : ℕ) (ps qs : List Pair) → paired u (ps ++ qs) ≡ (if paired u ps then true else paired u qs)
paired-append u [] qs = refl
paired-append u ((p1, p2) ∷ ps) qs =
    ap (λ b. if u == p1.user_id then true else if u == p2.user_id then true else b)
      (paired-append u ps qs)
    ∙ nested (u == p1.user_id) (u == p2.user_id) (paired u ps) (paired u qs)
  where
    nested :
        (a b c d : Bool)
        → (if a then true else if b then true else if c then true else d)
          ≡ (if (if a then true else if b then true else c) then true else d)
    nested true b c d = refl
    nested false true c d = refl
    nested false false true d = refl
    nested false false false d = refl

Each-pairs :
    (P Q : Pair → Type 0) (ps qs : List Pair)
    → ((p : Pair) → Q p → P p)
    → Each P ps
    → Each Q qs
    → Each P (ps ++ qs)
Each-pairs P Q [] [] f a b = tt
Each-pairs P Q [] (q ∷ qs) f a b = (f q b.0, Each-pairs P Q [] qs f tt b.1)
Each-pairs P Q (p ∷ ps) qs f a b = (a.0, Each-pairs P Q ps qs f a.1 b)

-- A user who is queued after a tick was queued before.
queued_before :
    (s next : Ranked) (ps : List Pair) (u : ℕ)
    → IsOutcome s next ps
    → contains next.lookup u ≡ true
    → contains s.lookup u ≡ true
queued_before s next ps u out has = elim (Bool-cases (paired u ps)) [
  | inl gone ↦
      let bad : none ≡ next.lookup u = sym (out.left u ∙ rw gone refl) in
      let no : false ≡ contains next.lookup u = ap is_some bad in cc
  | inr stays ↦ ap is_some (sym (out.left u ∙ rw stays refl)) ∙ has
]

pub then_pairs :
    (s next after : Ranked) (ps qs : List Pair)
    → IsOutcome s next ps
    → IsOutcome next after qs
    → IsOutcome s after (ps ++ qs)
then_pairs s next after ps qs first second = record {
  ranked = second.ranked;
  matched =
      Each-pairs (IsPair s) (IsPair next) ps qs
        (λ (p1, p2) is. (
          is.0,
          queued_before s next ps p1.user_id first is.1,
          queued_before s next ps p2.user_id first is.2,
        ))
        first.matched second.matched;
  left = λ u.
      second.left u
      ∙ ap (λ o. if paired u qs then none else o) (first.left u)
      ∙ either (paired u ps) (paired u qs) (s.lookup u)
      ∙ ap (λ b. if b then none else s.lookup u) (sym (paired-append u ps qs));
  shrinks = λ m. omega (arith, first.shrinks m, second.shrinks m);
}
  where
    either :
        (a b : Bool) (o : Option LookupData)
        → (if b then none else if a then none else o)
          ≡ (if (if a then true else b) then none else o)
    either true true o = refl
    either true false o = refl
    either false true o = refl
    either false false o = refl

-- Users whose entries are at different places are distinct.
pub users_apart :
    (s : Ranked) (u v i j k l : ℕ)
    → s.lookup u ≡ some (place i k)
    → s.lookup v ≡ some (place j l)
    → ((i == j) ≡ false) ⊎ ((k == l) ≡ false)
    → (u == v) ≡ false
users_apart s u v i j k l at_u at_v apart = elim (Bool-cases (u == v)) [
  | inr other ↦ other
  | inl same ↦
      let (is, ks) = place_inj (sym at_u ∙ ap s.lookup ((==_iff u v).0 same) ∙ at_v) in
      elim apart [
        | inl other ↦ absurd (ground (arith, other, is))
        | inr other ↦ absurd (ground (arith, other, ks))
      ]
]

-- The match of two distinct users of the queue does not fault.
pub match_and_remove-IsOutcome :
    (s : Ranked) (p1 p2 : Session) (i j k l : ℕ)
    → IsRanked s
    → s.lookup p1.user_id ≡ some (place i k)
    → s.lookup p2.user_id ≡ some (place j l)
    → (p1.user_id == p2.user_id) ≡ false
    → (next : Ranked) × (match_and_remove s p1 p2 ≡ some next) × IsOutcome s next ((p1, p2) ∷ [])
unfolding match_and_remove
match_and_remove-IsOutcome s p1 p2 i j k l is at1 at2 apart =
    let (first, found2, is2) = erase_entry-IsRanked s p2.user_id j l is at2 in
    let at1' = erase_unequal s p2.user_id p1.user_id apart ∙ at1 in
    let (both, found1, is1) =
      erase_entry-IsRanked (without s p2.user_id first) p1.user_id i k is2 at1' in
    let next : Ranked = record s {
      elo_buckets = both;
      lookup = erase (erase s.lookup p1.user_id) p2.user_id;
    } in
    let found : match_and_remove s p1 p2 ≡ some next = rw (at1, at2, found2, found1) refl in
    (
      next,
      found,
      record {
        ranked =
            subst
              (λ (m : Lookup LookupData). IsRanked (record s { elo_buckets = both; lookup = m }))
              (λ x u. swap (u == p1.user_id) (u == p2.user_id) (s.lookup u) x) is1;
        matched = ((apart, ap is_some at1, ap is_some at2), tt);
        left = λ u. gone (u == p1.user_id) (u == p2.user_id) (s.lookup u);
        shrinks = (match_and_remove-size_at s next p1 p2 i k found at1).0;
      },
    )
  where
    swap :
        (a b : Bool) (o : Option LookupData)
        → (if a then none else if b then none else o) ≡ (if b then none else if a then none else o)
    swap true true o = refl
    swap true false o = refl
    swap false true o = refl
    swap false false o = refl

    gone :
        (a b : Bool) (o : Option LookupData)
        → (if b then none else if a then none else o)
          ≡ (if (if a then true else if b then true else false) then none else o)
    gone true true o = refl
    gone true false o = refl
    gone false true o = refl
    gone false false o = refl
