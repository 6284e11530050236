-- ===== src/Protocol/Bytes/Order.antt =====
-- What is written is read back, in either order of the bytes (src/protocol/message.cpp).
use silent_tanks.Base.{
  ℕ, zero, suc, ◌+◌, ◌*◌, ◌/◌, ◌%◌, ◌<◌, ◌≡◌, Bool, true, false, Option, some, List, [], ◌∷◌, ◌++◌,
  reverse, length, refl, arith, ◌∙◌, ap, sym, length-append, Option-cases, inl, inr,
}
use mathlib.Core.List.{reverse-reverse, reverse-cons, append_assoc}
use silent_tanks.Protocol.Bytes.{
  Bytes, AllBytes, capacity, to_le, from_le, to_be, from_be, host_bytes, host_value, hton, put_net,
  get_net, split, next_net, next_byte, Each, concat_map, next_many,
}

length-to_le : (w v : ℕ) → length (to_le w v) ≡ w
unfolding to_le
length-to_le zero v = refl
length-to_le (suc w) v = ap suc (length-to_le w (v / 256))

to_le-AllBytes : (w v : ℕ) → AllBytes (to_le w v)
unfolding to_le
to_le-AllBytes zero v = tt
to_le-AllBytes (suc w) v = (omega arith, to_le-AllBytes w (v / 256))

from_le-to_le : (w v : ℕ) → v < capacity w → from_le (to_le w v) ≡ v
unfolding to_le from_le
from_le-to_le zero v h = omega (arith, h)
from_le-to_le (suc w) v h = omega (arith, from_le-to_le w (v / 256) (omega (arith, h)))

to_le-from_le : (bs : Bytes) → AllBytes bs → to_le (length bs) (from_le bs) ≡ bs
unfolding to_le from_le
to_le-from_le [] h = refl
to_le-from_le (b ∷ bs) h =
    let low : (b + 256 * from_le bs) % 256 ≡ b = omega (arith, h.0) in
    let high : (b + 256 * from_le bs) / 256 ≡ from_le bs = omega (arith, h.0) in
    rw (low, high, to_le-from_le bs h.1) refl

from_le-lt : (bs : Bytes) → AllBytes bs → from_le bs < capacity (length bs)
unfolding from_le
from_le-lt [] h = omega arith
from_le-lt (b ∷ bs) h = omega (arith, h.0, from_le-lt bs h.1)

pub length-reverse {ℓ} : {A : Type ℓ} (xs : List A) → length (reverse xs) ≡ length xs
length-reverse [] = refl
length-reverse (x ∷ xs) =
    ap length (reverse-cons x xs)
    ∙ omega (arith, length-append (reverse xs) (x ∷ []), length-reverse xs)

append-AllBytes : (xs ys : Bytes) → AllBytes xs → AllBytes ys → AllBytes (xs ++ ys)
append-AllBytes [] ys h k = k
append-AllBytes (x ∷ xs) ys h k = (h.0, append-AllBytes xs ys h.1 k)

reverse-AllBytes : (xs : Bytes) → AllBytes xs → AllBytes (reverse xs)
reverse-AllBytes [] h = tt
reverse-AllBytes (x ∷ xs) h =
    rw reverse-cons (append-AllBytes (reverse xs) (x ∷ []) (reverse-AllBytes xs h.1) (h.0, tt))

pub length-to_be : (w v : ℕ) → length (to_be w v) ≡ w
unfolding to_be
length-to_be w v = length-reverse (to_le w v) ∙ length-to_le w v

pub to_be-AllBytes : (w v : ℕ) → AllBytes (to_be w v)
unfolding to_be
to_be-AllBytes w v = reverse-AllBytes (to_le w v) (to_le-AllBytes w v)

-- Whatever the order of the host, the wire has the most significant byte first.
pub put_net-to_be : (little : Bool) (w v : ℕ) → put_net little w v ≡ to_be w v
unfolding put_net host_bytes hton from_be
put_net-to_be false w v = refl
put_net-to_be true w v =
    ap (λ n. to_le n (from_le (reverse (to_le w v)))) (sym (length-to_be w v))
    ∙ unfold to_be in to_le-from_le (to_be w v) (to_be-AllBytes w v)

get_net-from_be :
    (little : Bool) (bs : Bytes) → AllBytes bs → get_net little (length bs) bs ≡ from_be bs
unfolding get_net host_value hton
get_net-from_be false bs h = refl
get_net-from_be true bs h = ap from_be (to_le-from_le bs h)

pub get_net-put_net :
    (little : Bool) (w v : ℕ) → v < capacity w → get_net little w (put_net little w v) ≡ v
unfolding from_be to_be
get_net-put_net little w v h = rw put_net-to_be (
    ap (λ n. get_net little n (to_be w v)) (sym (length-to_be w v))
    ∙ get_net-from_be little (to_be w v) (to_be-AllBytes w v)
    ∙ ap from_le (reverse-reverse (to_le w v))
    ∙ from_le-to_le w v h)

pub put_net-get_net :
    (little : Bool) (bs : Bytes)
    → AllBytes bs
    → put_net little (length bs) (get_net little (length bs) bs) ≡ bs
unfolding from_be to_be
put_net-get_net little bs h =
    put_net-to_be little (length bs) _
    ∙ ap (λ v. reverse (to_le (length bs) v)) (get_net-from_be little bs h)
    ∙ ap (λ n. reverse (to_le n (from_le (reverse bs)))) (sym (length-reverse bs))
    ∙ ap reverse (to_le-from_le (reverse bs) (reverse-AllBytes bs h))
    ∙ reverse-reverse bs

pub length-put_net : (little : Bool) (w v : ℕ) → length (put_net little w v) ≡ w
length-put_net little w v = ap length (put_net-to_be little w v) ∙ length-to_be w v

pub split-append : (xs rest : Bytes) → split (length xs) (xs ++ rest) ≡ some (xs, rest)
unfolding split
split-append [] rest = refl
split-append (x ∷ xs) rest = rw (split-append xs rest) refl

pub split_exact : (n : ℕ) (xs rest : Bytes) → length xs ≡ n → split n (xs ++ rest) ≡ some (xs, rest)
split_exact n xs rest e = ap (λ k. split k (xs ++ rest)) (sym e) ∙ split-append xs rest

pub split-eq-some :
    (n : ℕ) (bs xs rest : Bytes)
    → split n bs ≡ some (xs, rest)
    → (bs ≡ xs ++ rest) × (length xs ≡ n)
unfolding split
split-eq-some zero bs xs rest e = ground (arith, e)
split-eq-some (suc n) [] xs rest e = cc
split-eq-some (suc n) (b ∷ bs) xs rest e = elim (Option-cases (split n bs)) [
  | inl short ↦ ground (arith, rw short at e)
  | inr ((ys, more), read) ↦
      let (whole, count) = split-eq-some n bs ys more read in
      ground (arith, rw read at e, whole, count)
]

pub next_net-put_net :
    (little : Bool) (w v : ℕ) (rest : Bytes)
    → v < capacity w
    → next_net little w (put_net little w v ++ rest) ≡ some (v, rest)
unfolding next_net
next_net-put_net little w v rest h =
    rw
      (
        split_exact w (put_net little w v) rest (length-put_net little w v),
        get_net-put_net little w v h,
      )
      refl

pub next_byte-eq-some : (bs rest : Bytes) (b : ℕ) → next_byte bs ≡ some (b, rest) → bs ≡ b ∷ rest
unfolding next_byte
next_byte-eq-some [] rest b e = cc
next_byte-eq-some (c ∷ bs) rest b e = ground (arith, e)

-- What each element is read back from, a list of them is.
pub next_many-concat_map {ℓ} :
    {A : Type ℓ} (P : A → Type 0) (next : Bytes → Option (A × Bytes)) (f : A → Bytes)
    → ((x : A) (rest : Bytes) → P x → next (f x ++ rest) ≡ some (x, rest))
    → (xs : List A) (rest : Bytes) → Each P xs
    → next_many next (length xs) (concat_map f xs ++ rest) ≡ some (xs, rest)
unfolding next_many concat_map
next_many-concat_map P next f one [] rest h = refl
next_many-concat_map P next f one (x ∷ xs) rest h =
    rw (append_assoc (f x) (concat_map f xs) rest)
      (rw (one x (concat_map f xs ++ rest) h.0, next_many-concat_map P next f one xs rest h.1) refl)

pub length-concat_map {ℓ} :
    {A : Type ℓ} (P : A → Type 0) (f : A → Bytes) (n : ℕ)
    → ((x : A) → P x → length (f x) ≡ n)
    → (xs : List A) → Each P xs
    → length (concat_map f xs) ≡ length xs * n
unfolding concat_map
length-concat_map P f n one [] h = omega arith
length-concat_map P f n one (x ∷ xs) h =
    grind
      (arith, length-append (f x) (concat_map f xs), one x h.0, length-concat_map P f n one xs h.1)

-- The condition that always holds.
pub Each-any {ℓ} : {A : Type ℓ} (xs : List A) → Each (λ _. Unit) xs
Each-any [] = tt
Each-any (x ∷ xs) = (tt, Each-any xs)
