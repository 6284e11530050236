-- ===== src/Matchmaking/Ranked/Buckets.antt =====
-- The buckets of ratings (`elo_to_bucket_index` of src/server/match-strategy.cpp).
use silent_tanks.Base.{ℕ, ◌+◌, ◌*◌, ◌≤◌, ◌<◌, arith}
use silent_tanks.Matchmaking.Types.{ℤ, pos, negsuc}
use silent_tanks.Matchmaking.Ranked.{
  elo_floor, max_elo_bucket, num_buckets, bucket_size, elo_to_bucket_index,
}

abbrev pub AtMost : ℤ → ℤ → Type 0
AtMost (pos a) (pos b) = a ≤ b
AtMost (pos a) (negsuc b) = ⊥
AtMost (negsuc a) (pos b) = Unit
AtMost (negsuc a) (negsuc b) = b ≤ a

-- Every rating has a bucket of the vector, a lower rating has no higher bucket, and a rating from the
-- floor on and below the last bucket is in the bucket whose range of 25 contains it.
pub elo_to_bucket_index_lem :
    (a b : ℤ) (elo : ℕ)
    → AtMost a b
    → elo_floor ≤ elo
    → elo < max_elo_bucket
    → (elo_to_bucket_index a ≤ elo_to_bucket_index b)
      × (elo_to_bucket_index b ≤ num_buckets)
      × (elo_floor + bucket_size * elo_to_bucket_index (pos elo) ≤ elo)
      × (elo < elo_floor + bucket_size * (elo_to_bucket_index (pos elo) + 1))
unfolding elo_to_bucket_index
elo_to_bucket_index_lem (pos a) (pos b) elo order low high = ground arith
elo_to_bucket_index_lem (negsuc a) (pos b) elo order low high = ground arith
elo_to_bucket_index_lem (negsuc a) (negsuc b) elo order low high = ground arith
elo_to_bucket_index_lem (pos a) (negsuc b) elo order low high = absurd order
