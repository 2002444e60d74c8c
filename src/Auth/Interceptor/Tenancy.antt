-- ===== src/Auth/Interceptor/Tenancy.antt =====
-- A call's tenant is the verified one, whatever the client wrote.
use a2a_red_panda_server_con.Prelude.{
  Text, ◌≡◌, ◌≢◌, refl, ◌↔◌, ◌⊎◌, true, Option, none, some, [], ◌∷◌, str, length, arith, inl, inr,
  ◌==◌, text_eq, text_eq_iff, ok, err, lookup,
}
use a2a_red_panda_server_con.Auth.Interceptor.{
  Payload, other, text_attribute, User, unauthorized, request_tenant, set_request_tenant,
  authenticated_user, before,
}
use a2a_red_panda_server_con.Identity.{Identity, owner_key}

none_has_no_value : (i : Identity) → none ≡ some i → ⊥
none_has_no_value i e = cc

empty_iff : (s : Text) → ((length s == 0) ≡ true) ↔ (s ≡ [])
empty_iff [] = ground arith
empty_iff (c ∷ s) = ground arith

module _ {R : Type 0} where
  -- What a request holds besides its tenant.
  abbrev pub IsOther : Payload R → Type 0
  IsOther (other r) = Unit
  IsOther _ = ⊥

  -- A call is accepted exactly when the context has an identity and the request names no tenant or
  -- that identity's; it goes on with the identity's tenant and a user made from the identity.
  pub before-eq-ok :
      (context : Option Identity) (payload payload' : Payload R) (user : User)
      → (before context payload ≡ ok (payload', user)) ↔ (
          (identity : Identity) × (context ≡ some identity)
          × ((request_tenant payload ≡ []) ⊎ (request_tenant payload ≡ identity.tenant))
          × (payload' ≡ set_request_tenant identity.tenant payload)
          × (user ≡ authenticated_user identity))
  unfolding before
  before-eq-ok none payload payload' user = (λ h. cc, λ t. absurd (none_has_no_value t.0 t.1))
  before-eq-ok (some identity) payload payload' user = (
    λ h. (
      identity,
      refl,
      ground (
        arith,
        empty_iff (request_tenant payload),
        text_eq_iff (request_tenant payload) identity.tenant,
      ),
      ground arith,
      ground arith,
    ),
    λ t.
        let (i, e, named, p, u) = t in
        ground (
          arith,
          empty_iff (request_tenant payload),
          text_eq_iff (request_tenant payload) identity.tenant,
        ),
  )

  -- A request that names another tenant than the verified one is unauthorized.
  pub before-other_tenant :
      (identity : Identity) (payload : Payload R)
      → request_tenant payload ≢ []
      → request_tenant payload ≢ identity.tenant
      → before (some identity) payload ≡ err unauthorized
  unfolding before
  before-other_tenant identity payload ne other_tenant = ground (
    arith,
    empty_iff (request_tenant payload),
    text_eq_iff (request_tenant payload) identity.tenant,
  )

  set_tenant :
      (tenant : Text) (payload : Payload R)
      → (IsOther payload × (set_request_tenant tenant payload ≡ payload))
        ⊎ (request_tenant (set_request_tenant tenant payload) ≡ tenant)
  unfolding request_tenant set_request_tenant
  set_tenant tenant (other r) = inl (tt, refl)
  set_tenant tenant _ = inr refl

  -- An accepted call of the ten kinds that carry a tenant goes on with the verified tenant, a call
  -- of another kind unchanged; the user is named by the owner key, and has the tenant as attribute.
  pub before_tenant :
      (context : Option Identity) (payload payload' : Payload R) (user : User)
      → before context payload ≡ ok (payload', user)
      → (identity : Identity) × (context ≡ some identity)
        × ((IsOther payload × (payload' ≡ payload)) ⊎ (request_tenant payload' ≡ identity.tenant))
        × (user.name ≡ owner_key identity)
        × (lookup (str "tenant") user.attributes ≡ some (text_attribute identity.tenant))
  unfolding authenticated_user lookup str text_eq
  before_tenant context payload payload' user h =
      let (identity, present, _, p, u) = (before-eq-ok context payload payload' user).0 h in
      (identity, present, rw p (set_tenant identity.tenant payload), rw u, rw u)
