-- ===== src/Protocol/RoundTrip/Users.antt =====
-- Lists of users (src/protocol/message.cpp, `UserList`).
use silent_tanks.Base.{
  ℕ, zero, suc, ◌+◌, ◌<◌, ◌≤◌, ◌≡◌, ◌↔◌, true, false, ltb, if◌then◌else◌, Option, some, none, List,
  [], ◌∷◌, ◌++◌, length, refl, arith, ◌∙◌, ap, sym, length-append, take-length, >>=-eq-some, u8,
  Bool-cases, inl, inr, some_inj, subst, Option-cases, Option-cases,
}
use mathlib.Core.List.{append_assoc}
use silent_tanks.Protocol.Header.{max_username_length}
use silent_tanks.Protocol.Bytes.{Bytes, split, next_byte, Each, concat_map}
use silent_tanks.Protocol.Bytes.Order.{split_exact, split-append, split-eq-some, next_byte-eq-some}
use silent_tanks.Protocol.Structs.{ExternalUser}
use silent_tanks.Protocol.Serialize.{serialize_user, serialize_user_list}
use silent_tanks.Protocol.Parse.{
  all_allowed, next_user, user_list_loop, to_user_list, Loop, finished, out_of_fuel, add_user,
  returned,
}

-- A user whose id has 16 bytes and whose name is allowed.
pub record IsUser (u : ExternalUser) : Type 0 where
  pub id_size : length u.user_id ≡ 16
  pub name_size : length u.username ≤ max_username_length
  pub name : all_allowed u.username ≡ true

abbrev pub AreUsers : List ExternalUser → Type 0
AreUsers = Each IsUser

-- The bytes of a user, with no reduction of the length of the name.
abbrev user_bytes : ExternalUser → Bytes
user_bytes u = u.user_id ++ length u.username ∷ u.username

pub serialize_user-bytes : (u : ExternalUser) → IsUser u → serialize_user u ≡ user_bytes u
unfolding serialize_user
serialize_user-bytes u is =
    let small : u8 (length u.username) ≡ length u.username = omega (arith, is.name_size) in
    rw (small, take-length u.username) refl

pub length-serialize_user :
    (u : ExternalUser) → IsUser u → length (serialize_user u) ≡ 17 + length u.username
length-serialize_user u is =
    ap length (serialize_user-bytes u is)
    ∙ omega (arith, length-append u.user_id (length u.username ∷ u.username), is.id_size)

pub next_user-serialize_user :
    (u : ExternalUser) (rest : Bytes)
    → IsUser u
    → next_user (serialize_user u ++ rest) ≡ some (u, rest)
unfolding next_user next_byte
next_user-serialize_user u rest is =
    let long : ltb (length (serialize_user u ++ rest)) 17 ≡ false =
      ground (arith, length-append (serialize_user u) rest, length-serialize_user u is) in
    let apart : serialize_user u ++ rest ≡ u.user_id ++ length u.username ∷ (u.username ++ rest) =
      ap (λ bs. bs ++ rest) (serialize_user-bytes u is) ∙ append_assoc u.user_id _ rest in
    let short : ltb max_username_length (length u.username) ≡ false =
      ground (arith, is.name_size) in
    rw long (
      rw
        (
          apart,
          split_exact 16 u.user_id (length u.username ∷ (u.username ++ rest)) is.id_size,
          short,
          split-append u.username rest,
          is.name,
        )
        refl)

-- The end of a successful reading.
named :
    (id name rest rest' : Bytes) (u : ExternalUser)
    → if◌then◌else◌ {A = Option (ExternalUser × Bytes)}
        (all_allowed name)
        (some (record { user_id = id; username = name }, rest'))
        none
      ≡ some (u, rest)
    → (all_allowed name ≡ true) × (u.user_id ≡ id) × (u.username ≡ name) × (rest ≡ rest')
named id name rest rest' u e = elim (Bool-cases (all_allowed name)) [
  | inl fine ↦
      let same : ◌≡◌ {A = ExternalUser × Bytes} (record { user_id = id; username = name }, rest')
          (u, rest) =
        some_inj (rw fine at e) in
      (
        fine,
        sym (ap (λ (x : ExternalUser × Bytes). x.0.user_id) same),
        sym (ap (λ (x : ExternalUser × Bytes). x.0.username) same),
        sym (ap (λ (x : ExternalUser × Bytes). x.1) same),
      )
  | inr bad ↦ ground (arith, rw (bad, returned, user_list_loop) at e)
]

next_user-eq-some :
    (bs rest : Bytes) (u : ExternalUser)
    → next_user bs ≡ some (u, rest)
    → IsUser u × (bs ≡ serialize_user u ++ rest)
unfolding next_user
next_user-eq-some bs rest u e = elim (Bool-cases (ltb (length bs) 17)) [
  | inl short ↦ ground (arith, rw short at e)
  | inr long ↦
      let ((id, r1), s1, e1) = >>=-eq-some (split 16 bs) _ (rw long at e) in
      let ((len, r2), s2, e2) = >>=-eq-some (next_byte r1) _ e1 in
      elim (Bool-cases (ltb max_username_length len)) [
        | inl big ↦ ground (arith, rw big at e2)
        | inr small ↦
            let ((name, r3), s3, e3) = >>=-eq-some (split len r2) _ (rw small at e2) in
            read id r1 len r2 name r3 s1 s2 small s3 (named id name rest r3 u e3)
      ]
]
  where
    read :
        (id r1 : Bytes) (len : ℕ) (r2 name r3 : Bytes)
        → split 16 bs ≡ some (id, r1)
        → next_byte r1 ≡ some (len, r2)
        → ltb max_username_length len ≡ false
        → split len r2 ≡ some (name, r3)
        → (all_allowed name ≡ true) × (u.user_id ≡ id) × (u.username ≡ name) × (rest ≡ r3)
        → IsUser u × (bs ≡ serialize_user u ++ rest)
    read id r1 len r2 name r3 s1 s2 small s3 (fine, same_id, same_name, same_rest) =
        let (whole, sixteen) = split-eq-some 16 bs id r1 s1 in
        let (tail, count) = split-eq-some len r2 name r3 s3 in
        let is : IsUser u = record {
          id_size = ap length same_id ∙ sixteen;
          name_size = ground (arith, ap length same_name, count, small);
          name = ap all_allowed same_name ∙ fine;
        } in
        (
          is,
          whole
              ∙ ap (λ bs. id ++ bs) (next_byte-eq-some r1 r2 len s2 ∙ ap (λ bs. len ∷ bs) tail)
              ∙ sym (append_assoc id (len ∷ name) r3)
              ∙ ap (λ bs. bs ++ r3)
                  (ap (λ n. id ++ n ∷ name) (sym count)
                    ∙ ap (λ i. i ++ length name ∷ name) (sym same_id)
                    ∙ ap (λ n. u.user_id ++ length n ∷ n) (sym same_name)
                    ∙ sym (serialize_user-bytes u is))
              ∙ ap (λ bs. serialize_user u ++ bs) (sym same_rest),
        )

user_list_loop-step :
    (fuel : ℕ) (bs rest : Bytes) (user : ExternalUser)
    → next_user bs ≡ some (user, rest)
    → 0 < length bs
    → user_list_loop (suc fuel) bs ≡ add_user user (user_list_loop fuel rest)
unfolding user_list_loop
user_list_loop-step fuel [] rest user read h = absurd (omega (arith, h))
user_list_loop-step fuel (b ∷ bs) rest user read h = rw (read, user_list_loop) refl

user_list_loop-serialize :
    (us : List ExternalUser) (fuel : ℕ)
    → AreUsers us
    → length us ≤ fuel
    → user_list_loop fuel (concat_map serialize_user us) ≡ finished (some us)
unfolding user_list_loop concat_map
user_list_loop-serialize [] fuel is enough = refl
user_list_loop-serialize (u ∷ us) zero is enough = absurd (omega (arith, enough))
user_list_loop-serialize (u ∷ us) (suc fuel) is enough =
    let more : Bytes = concat_map serialize_user us in
    user_list_loop-step fuel (serialize_user u ++ more) more u
      (next_user-serialize_user u more is.0)
      (omega (arith, length-append (serialize_user u) more, length-serialize_user u is.0))
    ∙ ap (add_user u) (user_list_loop-serialize us fuel is.1 (omega (arith, enough)))

-- The list that a loop returned began with the user in front.
returned-add_user :
    (u : ExternalUser) (r : Loop (Option (List ExternalUser))) (us : List ExternalUser)
    → returned (add_user u r) ≡ some us
    → (vs : List ExternalUser) × (returned r ≡ some vs) × (u ∷ vs ≡ us)
returned-add_user u (finished (some vs)) us e = (vs, refl, some_inj e)
returned-add_user u (finished none) us e = cc
returned-add_user u out_of_fuel us e = cc

user_list_loop-eq-some :
    (fuel : ℕ) (bs : Bytes) (us : List ExternalUser)
    → returned (user_list_loop fuel bs) ≡ some us
    → AreUsers us × (bs ≡ concat_map serialize_user us)
unfolding user_list_loop concat_map
user_list_loop-eq-some fuel [] us e =
    subst (λ ws. AreUsers ws × (◌≡◌ {A = Bytes} [] (concat_map serialize_user ws))) (some_inj e)
      (tt, refl)
user_list_loop-eq-some zero (b ∷ bs) us e = cc
user_list_loop-eq-some (suc fuel) (b ∷ bs) us e = elim (Option-cases (next_user (b ∷ bs))) [
  | inl bad ↦ let never = rw (bad, returned, user_list_loop) at e in cc
  | inr ((u, r1), read) ↦
      let (vs, rest, same) =
        returned-add_user u (user_list_loop fuel r1) us
          (rw (read, returned, user_list_loop) at e) in
      let (is, whole) = next_user-eq-some (b ∷ bs) r1 u read in
      let (are, more) = user_list_loop-eq-some fuel r1 vs rest in
      subst (λ ws. AreUsers ws × ((b ∷ bs) ≡ concat_map serialize_user ws)) same
        ((is, are), whole ∙ ap (λ xs. serialize_user u ++ xs) more)
]

length-users :
    (us : List ExternalUser) → AreUsers us → length us ≤ length (concat_map serialize_user us)
unfolding concat_map
length-users [] is = omega arith
length-users (u ∷ us) is = omega (
  arith,
  length-append (serialize_user u) (concat_map serialize_user us),
  length-serialize_user u is.0,
  length-users us is.1,
)

-- `to_user_list` returns a list of users for exactly the bytes that serialise it, if every id has 16
-- bytes and every name at most 24 allowed characters; its loop needs no more rounds than there are
-- bytes. It returns no other list.
pub to_user_list_iff :
    (bs : Bytes) (us : List ExternalUser)
    → (to_user_list bs ≡ some us) ↔ (AreUsers us × (bs ≡ serialize_user_list us))
unfolding to_user_list serialize_user_list
to_user_list_iff bs us = (
  λ e. user_list_loop-eq-some (length bs) bs us e,
  λ (is, e).
      ap (λ xs. returned (user_list_loop (length xs) xs)) e
      ∙ ap returned (user_list_loop-serialize us _ is (length-users us is)),
)

returned-finished :
    (u : ExternalUser) (r : Loop (Option (List ExternalUser)))
    → r ≡ finished (returned r)
    → add_user u r ≡ finished (returned (add_user u r))
returned-finished u (finished users) e = refl
returned-finished u out_of_fuel e = cc

-- A round takes bytes, so that the loop ends, and however many rounds more are allowed, alike.
loop_ends :
    (fuel fuel' : ℕ) (bs : Bytes)
    → length bs ≤ fuel
    → length bs ≤ fuel'
    → (user_list_loop fuel bs ≡ finished (returned (user_list_loop fuel bs)))
      × (user_list_loop fuel bs ≡ user_list_loop fuel' bs)
unfolding user_list_loop
loop_ends fuel fuel' [] h h' = (refl, refl)
loop_ends zero fuel' (b ∷ bs) h h' = absurd (omega (arith, h))
loop_ends (suc fuel) zero (b ∷ bs) h h' = absurd (omega (arith, h'))
loop_ends (suc fuel) (suc fuel') (b ∷ bs) h h' = elim (Option-cases (next_user (b ∷ bs))) [
  | inl bad ↦ rw (bad, user_list_loop) (refl, refl)
  | inr ((u, rest), good) ↦
      let (is, whole) = next_user-eq-some (b ∷ bs) rest u good in
      let shorter : length rest < length (b ∷ bs) = omega (
        arith,
        ap length whole,
        length-append (serialize_user u) rest,
        length-serialize_user u is,
      ) in
      let (ends, alike) =
        loop_ends fuel fuel' rest (omega (arith, h, shorter)) (omega (arith, h', shorter)) in
      rw (good, user_list_loop)
        (returned-finished u (user_list_loop fuel rest) ends, ap (add_user u) alike)
]

-- The loop of `to_user_list` ends for any bytes: within as many rounds as there are bytes, and
-- however many more are allowed, it is finished, with what `to_user_list` returns.
pub user_list_loop-enough :
    (extra : ℕ) (bs : Bytes) → user_list_loop (length bs + extra) bs ≡ finished (to_user_list bs)
unfolding to_user_list
user_list_loop-enough extra bs =
    let (ends, alike) = loop_ends (length bs + extra) (length bs) bs (omega arith) (omega arith) in
    ends ∙ ap (λ r. finished (returned r)) alike
