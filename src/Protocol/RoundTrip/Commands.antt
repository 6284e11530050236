-- ===== src/Protocol/RoundTrip/Commands.antt =====
-- Commands on the wire (src/protocol/message.cpp, `Command`).
use silent_tanks.Base.{
  ℕ, ◌+◌, ◌*◌, ◌/◌, ◌%◌, ◌<◌, ◌≡◌, true, false, Option, some, [], ◌∷◌, ◌++◌, refl, arith, ap,
}
use silent_tanks.Protocol.Bytes.{
  Bytes, to_le, from_le, from_be, host_value, hton, get_net, split, next_byte, next_net,
}
use silent_tanks.Protocol.Structs.{CommandBytes, SequencedCommand}
use silent_tanks.Protocol.Serialize.{serialize_command_head, serialize_command}
use silent_tanks.Protocol.Parse.{next_command_head, to_command}

pub next_command_head-serialize :
    (c : CommandBytes) (rest : Bytes)
    → next_command_head (serialize_command_head c ++ rest) ≡ some (c, rest)
unfolding next_command_head next_byte serialize_command_head
next_command_head-serialize c rest = refl

-- The two bytes of a number in the other order.
abbrev pub swapped : ℕ → ℕ
swapped n = n % 256 * 256 + n / 256

-- What the writing and the reading do to the digits `h` and `l` of a number.
swap_twice :
    (h l n : ℕ)
    → h < 256
    → l < 256
    → n ≡ h * 256 + l
    → from_be (to_le 2 (from_le (from_be (to_le 2 n) / 256 % 256 ∷ from_be (to_le 2 n) % 256 ∷ [])))
      ≡ l * 256 + h
unfolding from_be to_le from_le
swap_twice h l n a b e =
    let high : n / 256 % 256 ≡ h = omega (arith, e, a, b) in
    let low : n % 256 ≡ l = omega (arith, e, a, b) in
    rw (high, low)
      (let high' : (h + 256 * (l + 0)) / 256 % 256 ≡ l = omega (arith, a, b) in
        let low' : (h + 256 * (l + 0)) % 256 ≡ h = omega (arith, a, b) in
        rw (high', low')
          (let high'' : (l + 256 * (h + 0)) / 256 % 256 ≡ h = omega (arith, a, b) in
            let low'' : (l + 256 * (h + 0)) % 256 ≡ l = omega (arith, a, b) in
            rw (high'', low'') (omega arith)))

-- A host that has the most significant byte first reads back the command that it wrote. A host that
-- has the least significant byte first reads it back with the bytes of the sequence number exchanged.
pub to_command-serialize_command :
    (c : SequencedCommand)
    → c.sequence_number < 65536
    → (to_command false (serialize_command false c) ≡ some c)
      × (to_command true (serialize_command true c)
          ≡ some (record c { sequence_number = swapped c.sequence_number }))
unfolding to_command serialize_command next_command_head next_byte serialize_command_head next_net
    split get_net host_value hton from_be to_le from_le
to_command-serialize_command c fits = (
  ap with_number (omega (arith, fits)),
  ap with_number (
      swap_twice (c.sequence_number / 256) (c.sequence_number % 256) c.sequence_number
        (omega (arith, fits)) (omega arith) (omega arith)),
)
  where
    with_number : ℕ → Option SequencedCommand
    with_number n = some (record c { sequence_number = n })
