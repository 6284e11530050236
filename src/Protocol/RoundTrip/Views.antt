-- ===== src/Protocol/RoundTrip/Views.antt =====
-- The view of a player (src/protocol/message.cpp, `PlayerView`).
use silent_tanks.Base.{
  ℕ, ◌+◌, ◌*◌, ◌<◌, ◌≡◌, Bool, true, false, ltb, ◌!=◌, some, List, [], ◌∷◌, ◌++◌, length, get_elem?,
  refl, arith, ◌∙◌, ap, sym, length-append, u8,
}
use mathlib.Core.List.{append_assoc, append-nil}
use silent_tanks.Game.Types.{Tank}
use silent_tanks.Protocol.Bytes.{
  Bytes, Each, capacity, next_byte, next_net, next_many, concat_map, put_net,
}
use silent_tanks.Protocol.Bytes.Order.{
  next_net-put_net, length-put_net, next_many-concat_map, length-concat_map, Each-any,
}
use silent_tanks.Protocol.Structs.{CellBytes, PlayerView}
use silent_tanks.Protocol.Serialize.{
  bool_byte, serialize_cell, serialize_tank, serialize_range, serialize_view,
}
use silent_tanks.Protocol.Parse.Views.{next_cell, next_tank, to_player_view}

bool_byte_lem : (b : Bool) → (bool_byte b != 0) ≡ b
bool_byte_lem true = refl
bool_byte_lem false = refl

next_cell-serialize_cell :
    (c : CellBytes) (rest : Bytes) → next_cell (serialize_cell c ++ rest) ≡ some (c, rest)
unfolding next_cell next_byte serialize_cell
next_cell-serialize_cell c rest =
    ap (λ b. some (record c { visible = b }, rest)) (bool_byte_lem c.visible)

next_tank-serialize_tank :
    (t : Tank) (rest : Bytes) → next_tank (serialize_tank t ++ rest) ≡ some (t, rest)
unfolding next_tank next_byte serialize_tank
next_tank-serialize_tank t rest =
    ap (λ b. some (record t { aim_focused = b; loaded = bool_byte t.loaded != 0 }, rest))
      (bool_byte_lem t.aim_focused)
    ∙ ap (λ b. some (record t { loaded = b }, rest)) (bool_byte_lem t.loaded)

get_elem?-append {ℓ} :
    {A : Type ℓ} (before xs : List A) (x : A)
    → get_elem? (before ++ x ∷ xs) (length before) ≡ some x
get_elem?-append [] xs x = refl
get_elem?-append (b ∷ before) xs x = get_elem?-append before xs x

-- The loop over a vector from place `from` on writes the elements from there on.
range_from {ℓ} :
    {A : Type ℓ} (f : A → Bytes) (before xs : List A)
    → serialize_range f (before ++ xs) (length before) (length xs) ≡ some (concat_map f xs)
unfolding serialize_range concat_map
range_from f before [] = refl
range_from f before (x ∷ xs) =
    let here : before ++ x ∷ xs ≡ (before ++ x ∷ []) ++ xs =
      sym (append_assoc before (x ∷ []) xs) in
    let next : length before + 1 ≡ length (before ++ x ∷ []) =
      omega (arith, length-append before (x ∷ [])) in
    let rest : serialize_range f (before ++ x ∷ xs) (length before + 1) (length xs)
        ≡ some (concat_map f xs) =
      ap (λ ys. serialize_range f ys (length before + 1) (length xs)) here
      ∙ ap (λ n. serialize_range f ((before ++ x ∷ []) ++ xs) n (length xs)) next
      ∙ range_from f (before ++ x ∷ []) xs in
    rw (get_elem?-append before xs x, rest) refl

-- A view whose map has as many cells as its sides say, with at most 255 tanks and timers, and timers
-- that fit eight bytes.
pub record IsView (v : PlayerView) : Type 0 where
  pub cells : length v.map_view.array ≡ v.map_view.width * v.map_view.height
  pub tanks : length v.visible_tanks < 256
  pub timers : length v.timers < 256
  pub times : Each (λ ms. ms < capacity 8) v.timers

length-cells : (cs : List CellBytes) → length (concat_map serialize_cell cs) ≡ length cs * 3
unfolding serialize_cell
length-cells cs = length-concat_map (λ _. Unit) serialize_cell 3 (λ c _. refl) cs (Each-any cs)

length-tanks : (ts : List Tank) → length (concat_map serialize_tank ts) ≡ length ts * 9
unfolding serialize_tank
length-tanks ts = length-concat_map (λ _. Unit) serialize_tank 9 (λ t _. refl) ts (Each-any ts)

timer_bytes : Bool → List ℕ → Bytes
timer_bytes little timers = concat_map (λ ms. put_net little 8 ms) timers

length-timers :
    (little : Bool) (timers : List ℕ)
    → Each (λ ms. ms < capacity 8) timers
    → length (timer_bytes little timers) ≡ length timers * 8
unfolding timer_bytes
length-timers little timers fits =
    length-concat_map (λ ms. ms < capacity 8) (λ ms. put_net little 8 ms) 8
      (λ ms _. length-put_net little 8 ms) timers fits

read_timers :
    (little : Bool) (timers : List ℕ)
    → Each (λ ms. ms < capacity 8) timers
    → next_many (next_net little 8) (length timers) (timer_bytes little timers) ≡ some (timers, [])
unfolding timer_bytes
read_timers little timers fits =
    ap (next_many (next_net little 8) (length timers))
      (sym (append-nil (timer_bytes little timers)))
    ∙ next_many-concat_map (λ ms. ms < capacity 8) (next_net little 8) (λ ms. put_net little 8 ms)
        (λ ms rest h. next_net-put_net little 8 ms rest h) timers [] fits

-- The bytes of a view.
view_bytes : Bool → PlayerView → Bytes
view_bytes little v =
    length v.visible_tanks
      ∷ v.current_player
      ∷ v.map_view.width
      ∷ v.map_view.height
      ∷ v.current_fuel
      ∷ v.current_state
      ∷ length v.timers
      ∷ concat_map serialize_cell v.map_view.array
    ++ (concat_map serialize_tank v.visible_tanks ++ timer_bytes little v.timers)

serialize_view-bytes :
    (little : Bool) (v : PlayerView)
    → IsView v
    → serialize_view little v ≡ some (view_bytes little v)
unfolding serialize_view view_bytes timer_bytes
serialize_view-bytes little v is =
    let tanks : u8 (length v.visible_tanks) ≡ length v.visible_tanks = omega (arith, is.tanks) in
    let timers : u8 (length v.timers) ≡ length v.timers = omega (arith, is.timers) in
    rw
      (
        tanks,
        timers,
        ← is.cells,
        range_from serialize_cell [] v.map_view.array,
        range_from serialize_tank [] v.visible_tanks,
      )
      refl

to_player_view-bytes :
    (little : Bool) (v : PlayerView)
    → IsView v
    → to_player_view little (view_bytes little v) ≡ some v
unfolding to_player_view view_bytes next_byte
to_player_view-bytes little v is =
    let cells : Bytes = concat_map serialize_cell v.map_view.array in
    let tanks : Bytes = concat_map serialize_tank v.visible_tanks in
    let times : Bytes = timer_bytes little v.timers in
    let room1 : ltb (length (cells ++ (tanks ++ times))) (v.map_view.width * v.map_view.height * 3)
        ≡ false =
      ground
        (arith, length-append cells (tanks ++ times), length-cells v.map_view.array, is.cells) in
    let room2 : ltb (length (tanks ++ times)) (length v.visible_tanks * 9) ≡ false =
      ground (arith, length-append tanks times, length-tanks v.visible_tanks) in
    let room3 : ltb (length times) (length v.timers * 8) ≡ false =
      ground (arith, length-timers little v.timers is.times) in
    let read1 : next_many next_cell (v.map_view.width * v.map_view.height)
          (cells ++ (tanks ++ times))
        ≡ some (v.map_view.array, tanks ++ times) =
      ap (λ n. next_many next_cell n (cells ++ (tanks ++ times))) (sym is.cells)
      ∙ next_many-concat_map (λ _. Unit) next_cell serialize_cell
          (λ c rest _. next_cell-serialize_cell c rest) v.map_view.array (tanks ++ times)
          (Each-any v.map_view.array) in
    let read2 =
      next_many-concat_map (λ _. Unit) next_tank serialize_tank
        (λ t rest _. next_tank-serialize_tank t rest) v.visible_tanks times
        (Each-any v.visible_tanks) in
    rw (room1, read1, room2, read2, room3, read_timers little v.timers is.times) refl

-- A view that fits its types is serialised without a fault, and read back as it was, on a host of
-- either order of bytes.
pub to_player_view-serialize_view :
    (little : Bool) (v : PlayerView)
    → IsView v
    → (bs : Bytes) × (serialize_view little v ≡ some bs) × (to_player_view little bs ≡ some v)
to_player_view-serialize_view little v is =
    (view_bytes little v, serialize_view-bytes little v is, to_player_view-bytes little v is)
