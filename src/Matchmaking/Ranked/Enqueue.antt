-- ===== src/Matchmaking/Ranked/Enqueue.antt =====
-- A user who joins or leaves the ranked queue (`enqueue` and `cancel` of
-- src/server/match-strategy.cpp).
use silent_tanks.Base.{
  ℕ, ◌+◌, ◌<◌, ◌≤◌, ◌==◌, ◌≡◌, true, false, some, List, [], ◌∷◌, ◌++◌, length, get_elem?, set, ltb,
  refl, sym, ap, ◌∙◌, arith, inl, inr, Bool-cases, ==_iff, ==_refl, subst, some_inj, Option-cases,
  length-set, get_elem?-set, lt-get_elem?,
}
use silent_tanks.Protocol.Bytes.{Each}
use silent_tanks.Matchmaking.Types.{ℤ, pos, negsuc, Session, insert, erase, is_some, contains}
use silent_tanks.Matchmaking.Ranked.{
  QueueEntry, Ranked, num_buckets, elo_to_bucket_index, enqueue, cancel,
}
use silent_tanks.Matchmaking.Ranked.Nodes.{
  FreeOf, has_entry, Each-map, Each-append, DistinctNodes-append, has_entry-append, has_entry-last,
}
use silent_tanks.Matchmaking.Ranked.Invariant.{
  IsRanked, IsBucket, place, place_inj, erase_entry-IsRanked,
}
use silent_tanks.Matchmaking.Ranked.Tick.{bucket_of}

elo_to_bucket_index-le : (elo : ℤ) → elo_to_bucket_index elo ≤ num_buckets
unfolding elo_to_bucket_index
elo_to_bucket_index-le (pos elo) = ground arith
elo_to_bucket_index-le (negsuc n) = omega arith

-- An entry at the end of the bucket `i`.
module _ (s : Ranked) (is : IsRanked s) (now : ℕ) (p : Session)
    (absent : contains s.lookup p.user_id ≡ false) (i : ℕ) (bucket : List QueueEntry)
    (here : get_elem? s.elo_buckets i ≡ some bucket) where
  abbrev entry : QueueEntry
  entry = record { session = p; enqueued_at = now; node = s.next_node }

  abbrev longer : List QueueEntry
  longer = bucket ++ entry ∷ []

  abbrev joined : Ranked
  joined = record {
    elo_buckets = set s.elo_buckets i longer;
    lookup = insert s.lookup p.user_id (place i s.next_node);
    next_node = s.next_node + 1;
  }

  stays :
      (e : QueueEntry) (j : ℕ)
      → s.lookup e.session.user_id ≡ some (place j e.node)
      → joined.lookup e.session.user_id ≡ some (place j e.node)
  stays e j at = elim (Bool-cases (e.session.user_id == p.user_id)) [
    | inr other ↦ rw other at
    | inl same ↦
        let mine : contains s.lookup e.session.user_id ≡ contains s.lookup p.user_id =
          ap (contains s.lookup) ((==_iff e.session.user_id p.user_id).0 same) in
        let bad : true ≡ false = sym (ap is_some at) ∙ mine ∙ absent in cc
  ]

  free : FreeOf s.next_node bucket
  free =
      Each-map (λ e. e.node < s.next_node) (λ e. (e.node == s.next_node) ≡ false) bucket
        (λ e given. ground (arith, given)) (is.buckets i bucket here).given

  still_given :
      (b : List QueueEntry)
      → Each (λ e. e.node < s.next_node) b
      → Each (λ e. e.node < s.next_node + 1) b
  still_given b given =
      Each-map (λ e. e.node < s.next_node) (λ e. e.node < s.next_node + 1) b
        (λ e h. omega (arith, h)) given

  still_placed :
      (j : ℕ) (b : List QueueEntry)
      → Each (λ e. s.lookup e.session.user_id ≡ some (place j e.node)) b
      → Each (λ e. joined.lookup e.session.user_id ≡ some (place j e.node)) b
  still_placed j b placed =
      Each-map (λ e. s.lookup e.session.user_id ≡ some (place j e.node))
        (λ e. joined.lookup e.session.user_id ≡ some (place j e.node)) b (λ e at. stays e j at)
        placed

  new_place : joined.lookup p.user_id ≡ some (place i s.next_node)
  new_place = rw (==_refl p.user_id) refl

  joined-buckets :
      (j : ℕ) (b : List QueueEntry) → get_elem? joined.elo_buckets j ≡ some b → IsBucket joined j b
  joined-buckets j b there =
      let moved =
        get_elem?-set s.elo_buckets i j longer (lt-get_elem? s.elo_buckets i bucket here) in
      elim (Bool-cases (i == j)) [
        | inr other ↦
            let old = is.buckets j b (sym (rw other at moved) ∙ there) in
            record {
              looked_up = still_placed j b old.looked_up;
              distinct = old.distinct;
              given = still_given b old.given;
            }
        | inl same ↦
            let old = is.buckets i bucket here in
            subst (IsBucket joined j) (some_inj (sym (rw same at moved) ∙ there)) (
              subst (λ n. IsBucket joined n longer) ((==_iff i j).0 same)
                (record {
                  looked_up =
                      Each-append (λ e. joined.lookup e.session.user_id ≡ some (place i e.node))
                        bucket entry (still_placed i bucket old.looked_up) new_place;
                  distinct = DistinctNodes-append bucket entry old.distinct free;
                  given =
                      Each-append (λ e. e.node < s.next_node + 1) bucket entry
                        (still_given bucket old.given) (omega arith);
                }))
      ]

  joined-known :
      (v j l : ℕ)
      → joined.lookup v ≡ some (place j l)
      → (b : List QueueEntry) × (get_elem? joined.elo_buckets j ≡ some b) × (has_entry v l b ≡ true)
  joined-known v j l at = elim (Bool-cases (v == p.user_id)) [
    | inl same ↦
        let (ij, nl) = place_inj (rw same at at) in
        let moved : get_elem? joined.elo_buckets j ≡ some longer =
          get_elem?-set s.elo_buckets i j longer (lt-get_elem? s.elo_buckets i bucket here)
          ∙ rw ((==_iff i j).1 ij) refl in
        let has : has_entry v l longer ≡ true =
          ap (λ n. has_entry v n longer) (sym nl)
          ∙ ap (λ u. has_entry u s.next_node longer) ((==_iff v p.user_id).0 same)
          ∙ has_entry-last bucket entry free in
        (longer, moved, has)
    | inr other ↦
        let (b, there, has) = is.known v j l (rw other at at) in
        let moved =
          get_elem?-set s.elo_buckets i j longer (lt-get_elem? s.elo_buckets i bucket here) in
        elim (Bool-cases (i == j)) [
          | inr apart ↦ (b, (moved ∙ rw apart there), has)
          | inl at_j ↦
              let one : b ≡ bucket =
                some_inj
                  (sym there ∙ ap (get_elem? s.elo_buckets) (sym ((==_iff i j).0 at_j)) ∙ here) in
              (
                longer,
                (moved ∙ rw at_j refl),
                has_entry-append v l bucket entry (subst (λ x. has_entry v l x ≡ true) one has),
              )
        ]
  ]

  pub joined-IsRanked : IsRanked joined
  joined-IsRanked = record {
    size = length-set s.elo_buckets i longer ∙ is.size;
    buckets = joined-buckets;
    known = joined-known;
  }

-- To enqueue does not fault and keeps the queue in order.
pub enqueue-IsRanked :
    (s : Ranked) (now : ℕ) (p : Session)
    → IsRanked s
    → (next : Ranked) × (enqueue s now p ≡ some next) × IsRanked next
unfolding enqueue
enqueue-IsRanked s now p is = elim (Bool-cases (contains s.lookup p.user_id)) [
  | inl known ↦ (s, rw known refl, is)
  | inr absent ↦
      let i = elo_to_bucket_index p.elo in
      let (bucket, here) = bucket_of s i is (elo_to_bucket_index-le p.elo) in
      let inside : ltb i (length s.elo_buckets) ≡ true =
        ground (arith, lt-get_elem? s.elo_buckets i bucket here) in
      (
        joined s is now p absent i bucket here,
        rw (absent, here, inside) refl,
        joined-IsRanked s is now p absent i bucket here,
      )
]

-- To cancel does not fault and keeps the queue in order.
pub cancel-IsRanked :
    (s : Ranked) (p : Session)
    → IsRanked s
    → (next : Ranked) × (cancel s p ≡ some next) × IsRanked next
unfolding cancel
cancel-IsRanked s p is = elim (Option-cases (s.lookup p.user_id)) [
  | inl absent ↦ (s, rw (absent, cancel) refl, is)
  | inr (d, known) ↦
      let (buckets, erased, left) =
        erase_entry-IsRanked s p.user_id d.bucket_index d.iter is known in
      (
        record s { elo_buckets = buckets; lookup = erase s.lookup p.user_id },
        rw (known, cancel, erased) refl,
        left,
      )
]
