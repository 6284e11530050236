-- ===== src/Match/Queue.antt =====
-- The priority queue of commands of a player (src/server/match-instance.h, `seq_comp`).
use silent_tanks.Base.{
  ℕ, ◌≤◌, ltb, ◌≡◌, Option, some, none, List, [], ◌∷◌, refl, arith, inl, inr, Bool-cases,
}
use mathlib.Core.List.{Perm}
use mathlib.Core.List.Perm
use silent_tanks.Protocol.Command.{Command}
use silent_tanks.Match.Turns.{pop_command}

-- No command of the queue has a sequence number below `n`.
abbrev pub NoneBefore : ℕ → List Command → Type 0
NoneBefore n [] = Unit
NoneBefore n (c ∷ q) = (n ≤ c.sequence_number) × NoneBefore n q

-- What a removal from a queue returns.
pub data Pops (q : List Command) (r : Option (Command × List Command)) : Type 0 where
  empty : q ≡ [] → r ≡ none → Pops q r
  least :
      (c : Command) (rest : List Command)
      → r ≡ some (c, rest)
      → Perm q (c ∷ rest)
      → NoneBefore c.sequence_number q
      → Pops q r

NoneBefore-le : (n k : ℕ) (q : List Command) → n ≤ k → NoneBefore k q → NoneBefore n q
NoneBefore-le n k [] h b = tt
NoneBefore-le n k (c ∷ q) h b = (omega (arith, b.0), NoneBefore-le n k q h b.1)

-- Taking a command from a queue finds none exactly when the queue is empty. Otherwise it removes one
-- command, keeps the others, and the one that it removes has the least sequence number.
pub pop_command-Pops : (q : List Command) → Pops q (pop_command q)
unfolding pop_command
pop_command-Pops [] = empty refl refl
pop_command-Pops (c ∷ q) = elim (pop_command-Pops q) [
  | empty nothing e ↦ rw e (least c q refl (Perm.refl (c ∷ q)) (omega arith, rw nothing tt))
  | least d rest e kept low ↦ elim (Bool-cases (ltb d.sequence_number c.sequence_number)) [
    | inl first ↦
        rw (e, first)
          (least d (c ∷ rest) refl (Perm.trans (Perm.cons c kept) (Perm.swap d c rest))
            (ground arith, low))
    | inr later ↦
        rw (e, later)
          (least c q refl (Perm.refl (c ∷ q))
            (omega arith, NoneBefore-le c.sequence_number d.sequence_number q (ground arith) low))
  ]
]
