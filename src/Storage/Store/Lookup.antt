-- ===== src/Storage/Store/Lookup.antt =====
-- What the checks before a statement establish, and what `get` reads of the table.
use a2a_red_panda_server_con.Prelude.{
  Text, ◌≡◌, ◌≢◌, false, Option, none, some, [], ◌∷◌, arith, length, ◌==◌, inl, inr, ok, err, ◌⊎◌,
  >>=-eq-ok, refuse_if-eq-ok, or_fail-eq-ok, refuse_if, or_fail,
}
use a2a_red_panda_server_con.Identity.{Identity}
use a2a_red_panda_server_con.Storage.Store.{
  StoreError, unauthenticated, encode_failed, Codec, Faults, is_space, verified_identity, prepare,
  get,
}
use a2a_red_panda_server_con.Storage.Table.{Task, Table, find_row}

-- Issuer, tenant and subject hold something besides white space.
abbrev pub IsWhole : Identity → Type 0
IsWhole i = (is_space i.issuer ≡ false) × (is_space i.tenant ≡ false) × (is_space i.subject ≡ false)

pub verified_identity-eq-ok :
    (context : Option Identity) (i : Identity)
    → verified_identity context ≡ ok i
    → (context ≡ some i) × IsWhole i
unfolding verified_identity
verified_identity-eq-ok none i h = cc
verified_identity-eq-ok (some j) i h = ground arith

pub verified_identity_of_IsWhole : (i : Identity) → IsWhole i → verified_identity (some i) ≡ ok i
unfolding verified_identity
verified_identity_of_IsWhole i w = ground arith

-- Whole or not, there is no third way.
pub verified_cases :
    (j : Identity)
    → (verified_identity (some j) ≡ ok j) ⊎ (verified_identity (some j) ≡ err unauthenticated)
unfolding verified_identity
verified_cases j = ground arith

nonempty_of_length : (s : Text) → (length s == 0) ≡ false → s ≢ []
nonempty_of_length [] h = cc
nonempty_of_length (c ∷ s) h = cc

module _ {M A : Type 0} (codec : Codec M A) where
  -- What an operation knows of its arguments when it reaches the database.
  pub record IsPrepared (context : Option Identity) (task : Option (Task M A)) (t : Task M A)
      (i : Identity) (payload : Text) : Type 0 where
    pub given : task ≡ some t
    pub named : t.id ≢ []
    pub caller : context ≡ some i
    pub whole : IsWhole i
    pub encoded : codec.encode t ≡ some payload

  pub prepare-IsPrepared :
      (missing : StoreError) (context : Option Identity) (task : Option (Task M A)) (t : Task M A)
      (i : Identity) (payload : Text)
      → prepare codec missing context task ≡ ok (t, i, payload)
      → IsPrepared context task t i payload
  unfolding prepare
  prepare-IsPrepared missing context none t i payload h = cc
  prepare-IsPrepared missing context (some u) t i payload h =
      let (_, named, h') = >>=-eq-ok (refuse_if (length u.id == 0) missing) _ h in
      let (i', caller, h'') = >>=-eq-ok (verified_identity context) _ h' in
      let (p', encoded, done) = >>=-eq-ok (or_fail (codec.encode u) encode_failed) _ h'' in
      let (present, whole) = verified_identity-eq-ok context i' caller in
      let enc = or_fail-eq-ok (codec.encode u) encode_failed encoded in
      record {
        given = cc;
        named = nonempty_of_length t.id (ground (arith, refuse_if-eq-ok _ _ named));
        caller = cc;
        whole = ground arith;
        encoded = cc;
      }

  -- `get` reads the table only through its key.
  pub get_congr :
      (faults : Faults) (j : Identity) (k : Text) (t u : Table)
      → find_row j k t ≡ find_row j k u
      → get codec faults (some j) k t ≡ get codec faults (some j) k u
  unfolding get
  get_congr faults j k t u e = elim (verified_cases j) [
    | inl fine ↦ simp (fine, e)
    | inr bad ↦ simp bad
  ]
