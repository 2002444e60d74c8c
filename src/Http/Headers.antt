-- ===== src/Http/Headers.antt =====
-- What a header holds after a change, name by name.
use mathlib.Core.List.{append_assoc, append-nil}
use a2a_red_panda_server_con.Prelude.{
  true, text_eq_iff, Text, ◌≡◌, List, [], ◌∷◌, ◌++◌, arith, text_eq, lookup-without, lookup-insert,
  if◌then◌else◌, text_eq_refl,
}
use a2a_red_panda_server_con.Http.{
  Header, canonical_key, header_values, header_del, header_set, header_add, header_add_all,
}

pub values-del :
    (k j : Text) (h : Header)
    → header_values j (header_del k h)
      ≡ (if text_eq (canonical_key k) (canonical_key j) then [] else header_values j h)
unfolding header_values header_del
values-del k j h = ground (arith, lookup-without (canonical_key k) (canonical_key j) h)

pub values-set :
    (k j v : Text) (h : Header)
    → header_values j (header_set k v h)
      ≡ (if text_eq (canonical_key k) (canonical_key j) then v ∷ [] else header_values j h)
unfolding header_values header_set
values-set k j v h = ground (arith, lookup-insert (canonical_key k) (canonical_key j) (v ∷ []) h)

pub values-add :
    (k j v : Text) (h : Header)
    → header_values j (header_add k v h) ≡ (
        if text_eq (canonical_key k) (canonical_key j)
        then header_values k h ++ v ∷ []
        else header_values j h)
unfolding header_values header_add
values-add k j v h =
    ground
      (arith, lookup-insert (canonical_key k) (canonical_key j) (header_values k h ++ v ∷ []) h)

values_of_same_key :
    (k j : Text) (h : Header)
    → text_eq (canonical_key k) (canonical_key j) ≡ true
    → header_values j h ≡ header_values k h
unfolding header_values
values_of_same_key k j h same = cc ((text_eq_iff _ _).0 same)

values-add_self :
    (k v : Text) (h : Header) → header_values k (header_add k v h) ≡ header_values k h ++ v ∷ []
values-add_self k v h = ground (arith, values-add k k v h, text_eq_refl (canonical_key k))

-- Adding a list of values appends it to what the name holds, and leaves the other names.
pub values-add_all :
    (k j : Text) (vs : List Text) (h : Header)
    → header_values j (header_add_all k vs h) ≡ (
        if text_eq (canonical_key k) (canonical_key j)
        then header_values k h ++ vs
        else header_values j h)
unfolding header_add_all
values-add_all k j [] h = rw append-nil (ground (arith, values_of_same_key k j h))
values-add_all k j (v ∷ vs) h = ground (
  arith,
  values-add_all k j vs (header_add k v h),
  values-add_self k v h,
  values-add k j v h,
  append_assoc (header_values k h) (v ∷ []) vs,
)
