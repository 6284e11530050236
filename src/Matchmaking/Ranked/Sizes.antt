-- ===== src/Matchmaking/Ranked/Sizes.antt =====
-- How many entries the buckets have after a removal (src/server/match-strategy.cpp).
use silent_tanks.Base.{
  ℕ, ◌+◌, ◌<◌, ◌≤◌, ◌==◌, ◌≡◌, true, if◌then◌else◌, Option, some, none, List, [], ◌∷◌, length,
  get_elem?, set, ltb, refl, sym, ap, ◌∙◌, arith, inl, inr, Bool-cases, ==_iff, subst, some_inj,
  Option-cases, >>=-eq-some, get_elem?-set, lt-get_elem?,
}
use silent_tanks.Matchmaking.Types.{Session}
use silent_tanks.Matchmaking.Ranked.{
  QueueEntry, LookupData, Ranked, erase_node, erase_entry, match_and_remove,
}
use silent_tanks.Matchmaking.Ranked.Invariant.{place}

abbrev pub bucket_length : Option (List QueueEntry) → ℕ
bucket_length none = 0
bucket_length (some bucket) = length bucket

-- The number of entries of a bucket, none outside the vector.
abbrev pub size_at : List (List QueueEntry) → ℕ → ℕ
size_at buckets i = bucket_length (get_elem? buckets i)

length-erase_node :
    (k : ℕ) (es left : List QueueEntry) → erase_node k es ≡ some left → length es ≡ length left + 1
unfolding erase_node
length-erase_node k [] left found = cc
length-erase_node k (e ∷ es) left found = elim (Bool-cases (e.node == k)) [
  | inl here ↦ omega (arith, ap length (some_inj (rw here at found)))
  | inr later ↦ elim (Option-cases (erase_node k es)) [
    | inl absent ↦ let bad = rw (later, absent) at found in cc
    | inr (rest, kept) ↦
        omega (
          arith,
          length-erase_node k es rest kept,
          ap length (some_inj (rw (later, kept) at found)),
        )
  ]
]

size_at-set :
    (xs : List (List QueueEntry)) (i m : ℕ) (bucket left : List QueueEntry)
    → get_elem? xs i ≡ some bucket
    → length bucket ≡ length left + 1
    → size_at (set xs i left) m + (if i == m then 1 else 0) ≡ size_at xs m
size_at-set xs i m bucket left here shorter =
    let moved = get_elem?-set xs i m left (lt-get_elem? xs i bucket here) in
    elim (Bool-cases (i == m)) [
      | inl same ↦
          let old : size_at xs m ≡ length bucket =
            ap (size_at xs) (sym ((==_iff i m).0 same)) ∙ ap bucket_length here in
          let there : get_elem? (set xs i left) m ≡ some left = moved ∙ rw same refl in
          let new : size_at (set xs i left) m ≡ length left = ap bucket_length there in
          rw same (omega (arith, old, new, shorter))
      | inr other ↦
          let there : get_elem? (set xs i left) m ≡ get_elem? xs m = moved ∙ rw other refl in
          let new : size_at (set xs i left) m ≡ size_at xs m = ap bucket_length there in
          rw other (omega (arith, new))
    ]

pub erase_entry-size_at :
    (xs ys : List (List QueueEntry)) (d : LookupData) (m : ℕ)
    → erase_entry xs d ≡ some ys
    → size_at ys m + (if d.bucket_index == m then 1 else 0) ≡ size_at xs m
unfolding erase_entry
erase_entry-size_at xs ys d m e =
    let (bucket, here, e1) = >>=-eq-some (get_elem? xs d.bucket_index) _ e in
    let (left, found, e2) = >>=-eq-some (erase_node d.iter bucket) _ e1 in
    let inside : ltb d.bucket_index (length xs) ≡ true =
      ground (arith, lt-get_elem? xs d.bucket_index bucket here) in
    let result : set xs d.bucket_index left ≡ ys = some_inj (rw inside at e2) in
    subst (λ zs. size_at zs m + (if d.bucket_index == m then 1 else 0) ≡ size_at xs m) result
      (size_at-set xs d.bucket_index m bucket left here
        (length-erase_node d.iter bucket left found))

-- A match of two sessions makes no bucket longer, and the bucket of the first shorter.
pub match_and_remove-size_at :
    (s next : Ranked) (p1 p2 : Session) (i k : ℕ)
    → match_and_remove s p1 p2 ≡ some next
    → s.lookup p1.user_id ≡ some (place i k)
    → ((m : ℕ) → size_at next.elo_buckets m ≤ size_at s.elo_buckets m)
      × (size_at next.elo_buckets i < size_at s.elo_buckets i)
unfolding match_and_remove
match_and_remove-size_at s next p1 p2 i k e at =
    let (d1, at1, e1) = >>=-eq-some (s.lookup p1.user_id) _ e in
    let (d2, at2, e2) = >>=-eq-some (s.lookup p2.user_id) _ e1 in
    let (first, f2, e3) = >>=-eq-some (erase_entry s.elo_buckets d2) _ e2 in
    let (both, f1, e4) = >>=-eq-some (erase_entry first d1) _ e3 in
    let result : both ≡ next.elo_buckets = ap (λ (r : Ranked). r.elo_buckets) (some_inj e4) in
    let at_i : d1.bucket_index ≡ i =
      ap (λ (d : LookupData). d.bucket_index) (some_inj (sym at1 ∙ at)) in
    let hit : (d1.bucket_index == i) ≡ true = (==_iff d1.bucket_index i).1 at_i in
    (
      λ m.
          let a = erase_entry-size_at s.elo_buckets first d2 m f2 in
          let b = erase_entry-size_at first both d1 m f1 in
          let c : size_at both m ≡ size_at next.elo_buckets m = ap (λ xs. size_at xs m) result in
          omega (arith, a, b, c),
      (let a = erase_entry-size_at s.elo_buckets first d2 i f2 in
          let b = rw hit at (erase_entry-size_at first both d1 i f1) in
          let c : size_at both i ≡ size_at next.elo_buckets i = ap (λ xs. size_at xs i) result in
          omega (arith, a, b, c)),
    )
