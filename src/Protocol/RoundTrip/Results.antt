-- ===== src/Protocol/RoundTrip/Results.antt =====
-- The list of the latest matches (src/protocol/message.cpp, `MatchResultList`).
use silent_tanks.Protocol.Clock.{to_time_t, whole_seconds, to_time_t-fits, from_time_t-to_time_t}
use silent_tanks.Base.{
  ℕ, zero, suc, ◌<◌, ◌≤◌, ◌≡◌, Bool, true, false, ltb, some, List, [], ◌∷◌, ◌++◌, length, refl,
  arith, ap, length-append, map,
}
use mathlib.Core.List.{append_assoc}
use silent_tanks.Protocol.Bytes.{Bytes, capacity, put_net, next_byte, Each, concat_map}
use silent_tanks.Protocol.Bytes.Order.{next_net-put_net, length-put_net}
use silent_tanks.Protocol.Structs.{MatchResultRow, MatchResultList, row_size}
use silent_tanks.Protocol.Serialize.{serialize_row, serialize_results}
use silent_tanks.Protocol.Parse.{next_row, results_loop, to_results_list}

-- The members of a row fit their types.
pub record IsRow (r : MatchResultRow) : Type 0 where
  pub match_id : r.match_id < capacity 8
  pub finished_at : r.finished_at < capacity 8
  pub placement : r.placement < capacity 2
  pub elo_change : r.elo_change < capacity 4

-- A row without the part of a second of its time.
abbrev pub whole_row : MatchResultRow → MatchResultRow
whole_row r = record r { finished_at = whole_seconds r.finished_at }

abbrev pub AreRows : List MatchResultRow → Type 0
AreRows = Each IsRow

length-serialize_row :
    (little : Bool) (r : MatchResultRow) → length (serialize_row little r) ≡ row_size
unfolding serialize_row
length-serialize_row little r =
    let a = put_net little 8 r.match_id in
    let b = put_net little 8 (to_time_t r.finished_at) in
    let c = put_net little 2 r.placement in
    let d = put_net little 4 r.elo_change in
    omega (
      arith,
      length-append a (b ++ (c ++ d)),
      length-append b (c ++ d),
      length-append c d,
      length-put_net little 8 r.match_id,
      length-put_net little 8 (to_time_t r.finished_at),
      length-put_net little 2 r.placement,
      length-put_net little 4 r.elo_change,
    )

next_row-serialize_row :
    (little : Bool) (r : MatchResultRow) (rest : Bytes)
    → IsRow r
    → next_row little (serialize_row little r ++ rest) ≡ some (whole_row r, rest)
unfolding next_row serialize_row
next_row-serialize_row little r rest is =
    let a = put_net little 8 r.match_id in
    let b = put_net little 8 (to_time_t r.finished_at) in
    let c = put_net little 2 r.placement in
    let d = put_net little 4 r.elo_change in
    rw
      (
        append_assoc a (b ++ (c ++ d)) rest,
        append_assoc b (c ++ d) rest,
        append_assoc c d rest,
        next_net-put_net little 8 r.match_id (b ++ (c ++ (d ++ rest))) is.match_id,
        next_net-put_net little 8 (to_time_t r.finished_at) (c ++ (d ++ rest))
            (to_time_t-fits r.finished_at is.finished_at),
        next_net-put_net little 2 r.placement (d ++ rest) is.placement,
        next_net-put_net little 4 r.elo_change rest is.elo_change,
        from_time_t-to_time_t r.finished_at is.finished_at,
      )
      refl

results_loop-serialize :
    (little : Bool) (fuel : ℕ) (rs : List MatchResultRow) (rest : Bytes)
    → AreRows rs
    → length rest < row_size
    → length rs ≤ fuel
    → results_loop little fuel (concat_map (serialize_row little) rs ++ rest)
      ≡ some (map whole_row rs)
unfolding results_loop concat_map
results_loop-serialize little zero [] rest is short enough =
    let few : ltb (length rest) row_size ≡ true = ground (arith, short) in rw few refl
results_loop-serialize little (suc fuel) [] rest is short enough =
    let few : ltb (length rest) row_size ≡ true = ground (arith, short) in rw few refl
results_loop-serialize little zero (r ∷ rs) rest is short enough = absurd (omega (arith, enough))
results_loop-serialize little (suc fuel) (r ∷ rs) rest is short enough =
    let row = serialize_row little r in
    let more = concat_map (serialize_row little) rs in
    let long : ltb (length (row ++ (more ++ rest))) row_size ≡ false =
      ground (arith, length-append row (more ++ rest), length-serialize_row little r) in
    rw (append_assoc row more rest) (
      rw
        (
          long,
          next_row-serialize_row little r (more ++ rest) is.0,
          results_loop-serialize little fuel rs rest is.1 short (omega (arith, enough)),
        )
        refl)

length-rows :
    (little : Bool) (rs : List MatchResultRow) (rest : Bytes)
    → length rs ≤ length (concat_map (serialize_row little) rs ++ rest)
unfolding concat_map
length-rows little [] rest = omega arith
length-rows little (r ∷ rs) rest =
    let row = serialize_row little r in
    let more = concat_map (serialize_row little) rs in
    omega (
      arith,
      ap length (append_assoc row more rest),
      length-append row (more ++ rest),
      length-serialize_row little r,
      length-rows little rs rest,
    )

-- A list of results whose members fit their types is read back with the time of each row rounded to
-- a whole second, towards the epoch, and otherwise as it was, also with up to 21 bytes after it, on a
-- host of either order of bytes.
pub to_results_list-serialize_results :
    (little : Bool) (results : MatchResultList) (rest : Bytes)
    → AreRows results.match_results
    → length rest < row_size
    → to_results_list little (serialize_results little results ++ rest)
      ≡ some (record results { match_results = map whole_row results.match_results })
unfolding to_results_list serialize_results next_byte
to_results_list-serialize_results little results rest are short =
    rw
      (results_loop-serialize little _ results.match_results rest are short
        (length-rows little results.match_results rest))
      refl
