-- ===== src/Matchmaking/Ranked/Invariant.antt =====
-- What every operation on the ranked queue keeps (src/server/match-strategy.cpp).
use silent_tanks.Base.{
  ℕ, ◌+◌, ◌<◌, ◌==◌, ◌≡◌, true, false, some, List, length, get_elem?, set, refl, sym, ap, ◌∙◌,
  arith, inl, inr, Bool-cases, ==_iff, subst, some_inj, length-set, get_elem?-set, lt-get_elem?,
  ltb,
}
use silent_tanks.Protocol.Bytes.{Each}
use silent_tanks.Base.{◌⊎◌}
use silent_tanks.Matchmaking.Types.{erase}
use silent_tanks.Matchmaking.Ranked.{
  QueueEntry, LookupData, Ranked, num_buckets, erase_node, erase_entry,
}
use silent_tanks.Matchmaking.Ranked.Nodes.{
  DistinctNodes, has_entry, Each-map, Each-zip, has_entry-user, Erased, erase_node-finds,
  erase_node-Each, erase_node-DistinctNodes,
}

abbrev pub place : ℕ → ℕ → LookupData
place i k = record { bucket_index = i; iter = k }

-- The nodes of a bucket are distinct and were given out, and the lookup of the user of each entry is
-- the place of the entry.
pub record IsBucket (s : Ranked) (i : ℕ) (bucket : List QueueEntry) : Type 0 where
  pub looked_up : Each (λ e. s.lookup e.session.user_id ≡ some (place i e.node)) bucket
  pub distinct : DistinctNodes bucket
  pub given : Each (λ e. e.node < s.next_node) bucket

-- There are 101 buckets, they are in order, and each user in the lookup has an entry where the lookup
-- says.
pub record IsRanked (s : Ranked) : Type 0 where
  pub size : length s.elo_buckets ≡ num_buckets + 1
  pub buckets :
      (i : ℕ) (bucket : List QueueEntry)
      → get_elem? s.elo_buckets i ≡ some bucket
      → IsBucket s i bucket
  pub known :
      (u i k : ℕ)
      → s.lookup u ≡ some (place i k)
      → (bucket : List QueueEntry) × (get_elem? s.elo_buckets i ≡ some bucket)
        × (has_entry u k bucket ≡ true)

pub place_inj : {i j k l : ℕ} → some (place i k) ≡ some (place j l) → (i ≡ j) × (k ≡ l)
place_inj e = (
  ap (λ (d : LookupData). d.bucket_index) (some_inj e),
  ap (λ (d : LookupData). d.iter) (some_inj e),
)

-- The queue without the user `u`.
abbrev pub without : Ranked → ℕ → List (List QueueEntry) → Ranked
without s u buckets = record s { elo_buckets = buckets; lookup = erase s.lookup u }

pub erase_unequal : (s : Ranked) (u v : ℕ) → (v == u) ≡ false → (erase s.lookup u) v ≡ s.lookup v
erase_unequal s u v other = rw other refl

-- An entry that is left is not that of the user who is removed.
kept_entry :
    (s : Ranked) (u i k j : ℕ) (e : QueueEntry)
    → s.lookup u ≡ some (place i k)
    → ((i == j) ≡ false) ⊎ ((e.node == k) ≡ false)
    → s.lookup e.session.user_id ≡ some (place j e.node)
    → (erase s.lookup u) e.session.user_id ≡ some (place j e.node)
kept_entry s u i k j e at apart entry = elim (Bool-cases (e.session.user_id == u)) [
  | inr other ↦ erase_unequal s u e.session.user_id other ∙ entry
  | inl same ↦
      let (is, ks) =
        place_inj (sym at ∙ sym (ap s.lookup ((==_iff e.session.user_id u).0 same)) ∙ entry) in
      elim apart [
        | inl other ↦ absurd (ground (arith, other, is))
        | inr other ↦ absurd (ground (arith, other, ks))
      ]
]

remove-buckets :
    (s : Ranked) (u i k : ℕ) (bucket left : List QueueEntry)
    → IsRanked s
    → s.lookup u ≡ some (place i k)
    → get_elem? s.elo_buckets i ≡ some bucket
    → erase_node k bucket ≡ some left
    → Erased k bucket left
    → (j : ℕ) (b : List QueueEntry) → get_elem? (set s.elo_buckets i left) j ≡ some b
    → IsBucket (without s u (set s.elo_buckets i left)) j b
remove-buckets s u i k bucket left is at here found erased j b there =
    let moved = get_elem?-set s.elo_buckets i j left (lt-get_elem? s.elo_buckets i bucket here) in
    let old = is.buckets i bucket here in
    elim (Bool-cases (i == j)) [
      | inl same ↦
          let e : left ≡ b = some_inj (sym (rw same at moved) ∙ there) in
          let ij : i ≡ j = (==_iff i j).0 same in
          subst (IsBucket (without s u (set s.elo_buckets i left)) j) e (
            subst (λ n. IsBucket (without s u (set s.elo_buckets i left)) n left) ij
              (record {
                looked_up =
                    Each-zip (λ e. s.lookup e.session.user_id ≡ some (place i e.node))
                      (λ e. (e.node == k) ≡ false)
                      (λ e. (erase s.lookup u) e.session.user_id ≡ some (place i e.node)) left
                      (λ e entry other. kept_entry s u i k i e at (inr other) entry)
                      (erase_node-Each (λ e. s.lookup e.session.user_id ≡ some (place i e.node)) k
                        bucket left found old.looked_up)
                      erased.free;
                distinct = erase_node-DistinctNodes k bucket left found old.distinct;
                given = erase_node-Each (λ e. e.node < s.next_node) k bucket left found old.given;
              }))
      | inr other ↦
          let same = is.buckets j b (sym (rw other at moved) ∙ there) in
          record {
            looked_up =
                Each-map (λ e. s.lookup e.session.user_id ≡ some (place j e.node))
                  (λ e. (erase s.lookup u) e.session.user_id ≡ some (place j e.node)) b
                  (λ e entry. kept_entry s u i k j e at (inl other) entry) same.looked_up;
            distinct = same.distinct;
            given = same.given;
          }
    ]

remove-known :
    (s : Ranked) (u i k : ℕ) (bucket left : List QueueEntry)
    → IsRanked s
    → get_elem? s.elo_buckets i ≡ some bucket
    → has_entry u k bucket ≡ true
    → Erased k bucket left
    → (v j l : ℕ) → (erase s.lookup u) v ≡ some (place j l)
    → (b : List QueueEntry) × (get_elem? (set s.elo_buckets i left) j ≡ some b)
      × (has_entry v l b ≡ true)
remove-known s u i k bucket left is here has erased v j l known = elim (Bool-cases (v == u)) [
  | inl same ↦ let bad = rw same at known in cc
  | inr other ↦
      let (b, there, has_v) = is.known v j l (sym (erase_unequal s u v other) ∙ known) in
      let moved = get_elem?-set s.elo_buckets i j left (lt-get_elem? s.elo_buckets i bucket here) in
      elim (Bool-cases (i == j)) [
        | inr apart ↦ (b, (moved ∙ rw apart there), has_v)
        | inl at ↦
            let ij : i ≡ j = (==_iff i j).0 at in
            let one : b ≡ bucket =
              some_inj (sym there ∙ ap (get_elem? s.elo_buckets) (sym ij) ∙ here) in
            let has_v' : has_entry v l bucket ≡ true =
              subst (λ x. has_entry v l x ≡ true) one has_v in
            let unlike : (l == k) ≡ false = elim (Bool-cases (l == k)) [
              | inr different ↦ different
              | inl alike ↦
                  let has_k : has_entry v k bucket ≡ true =
                    subst (λ n. has_entry v n bucket ≡ true) ((==_iff l k).0 alike) has_v' in
                  absurd (ground (arith, has_entry-user u v k bucket has has_k, other))
            ] in
            (left, (moved ∙ rw at refl), (erased.others v l unlike ∙ has_v'))
      ]
]

-- The removal of the entry of a user who is in the lookup does not fault and keeps the queue in order.
pub erase_entry-IsRanked :
    (s : Ranked) (u i k : ℕ)
    → IsRanked s
    → s.lookup u ≡ some (place i k)
    → (buckets : List (List QueueEntry)) × (erase_entry s.elo_buckets (place i k) ≡ some buckets)
      × IsRanked (without s u buckets)
unfolding erase_entry
erase_entry-IsRanked s u i k is at =
    let (bucket, here, has) = is.known u i k at in
    let (left, found, erased) =
      erase_node-finds u k bucket has (is.buckets i bucket here).distinct in
    let inside : ltb i (length s.elo_buckets) ≡ true =
      ground (arith, lt-get_elem? s.elo_buckets i bucket here) in
    (
      set s.elo_buckets i left,
      rw (here, found, inside) refl,
      record {
        size = length-set s.elo_buckets i left ∙ is.size;
        buckets = remove-buckets s u i k bucket left is at here found erased;
        known = remove-known s u i k bucket left is here has erased;
      },
    )
