-- ===== src/Protocol/Bytes.antt =====
-- Integers as bytes, for the `memcpy`, `htons`, `htonl` and `htonll` of src/protocol/message.cpp. The
-- order of the bytes of the host, `std::endian::native`, is the argument `little`. A signed integer
-- is held as its two's complement.
pub mod Order
use silent_tanks.Base.{
  ℕ, zero, suc, ◌+◌, ◌*◌, ◌/◌, ◌%◌, ◌<◌, Bool, if◌then◌else◌, Option, some, none, List, [], ◌∷◌,
  reverse, ◌>>=◌, ◌++◌,
}
use mathlib.Core.Option

abbrev pub Bytes : Type 0
Bytes = List ℕ

abbrev pub AllBytes : Bytes → Type 0
AllBytes [] = Unit
AllBytes (b ∷ bs) = (b < 256) × AllBytes bs

-- How many values `w` bytes have.
abbrev pub capacity : ℕ → ℕ
capacity zero = 1
capacity (suc w) = 256 * capacity w

-- The `w` bytes of a value, the least significant first.
unfoldable pub to_le : ℕ → ℕ → Bytes
to_le zero v = []
to_le (suc w) v = v % 256 ∷ to_le w (v / 256)

unfoldable pub from_le : Bytes → ℕ
from_le [] = 0
from_le (b ∷ bs) = b + 256 * from_le bs

-- The most significant first, as on the wire.
unfoldable pub to_be : ℕ → ℕ → Bytes
unfolding to_le
to_be w v = reverse (to_le w v)

unfoldable pub from_be : Bytes → ℕ
unfolding from_le
from_be bs = from_le (reverse bs)

-- An integer in memory, and what memory holds as an integer.
unfoldable pub host_bytes : Bool → ℕ → ℕ → Bytes
unfolding to_be
host_bytes little w v = if little then to_le w v else to_be w v

unfoldable pub host_value : Bool → Bytes → ℕ
unfolding from_be
host_value little bs = if little then from_le bs else from_be bs

-- `htons`, `htonl` and `htonll`, which are also their inverses.
unfoldable pub hton : Bool → ℕ → ℕ → ℕ
unfolding to_le from_be
hton little w v = if little then from_be (to_le w v) else v

-- The bytes that are inserted for an integer, and the integer that is copied out of them.
unfoldable pub put_net : Bool → ℕ → ℕ → Bytes
unfolding host_bytes hton
put_net little w v = host_bytes little w (hton little w v)

unfoldable pub get_net : Bool → ℕ → Bytes → ℕ
unfolding host_value hton
get_net little w bs = hton little w (host_value little bs)

-- The first `n` of the bytes that are left, and the rest; `none` if there are fewer.
unfoldable pub split : ℕ → Bytes → Option (Bytes × Bytes)
split zero bs = some ([], bs)
split (suc n) [] = none
split (suc n) (b ∷ bs) = split n bs >>= λ (xs, rest). some (b ∷ xs, rest)

unfoldable pub next_byte : Bytes → Option (ℕ × Bytes)
next_byte [] = none
next_byte (b ∷ bs) = some (b, bs)

-- An integer of `w` bytes.
unfoldable pub next_net : Bool → ℕ → Bytes → Option (ℕ × Bytes)
unfolding split get_net
next_net little w bs = split w bs >>= λ (xs, rest). some (get_net little w xs, rest)

-- A loop that reads `count` elements, one after another.
unfoldable pub next_many {ℓ} :
    {A : Type ℓ} → (Bytes → Option (A × Bytes)) → ℕ → Bytes → Option (List A × Bytes)
next_many next zero rest = some ([], rest)
next_many next (suc count) rest = do
  (x, r1) ← next rest
  (xs, r2) ← next_many next count r1
  some (x ∷ xs, r2)

-- The elements of a list, one after another.
unfoldable pub concat_map {ℓ} : {A : Type ℓ} → (A → Bytes) → List A → Bytes
concat_map f [] = []
concat_map f (x ∷ xs) = f x ++ concat_map f xs

abbrev pub Each {ℓ} : {A : Type ℓ} → (A → Type 0) → List A → Type 0
Each P [] = Unit
Each P (x ∷ xs) = P x × Each P xs
