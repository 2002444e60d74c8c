-- ===== src/Auth/Middleware/Refusal.antt =====
-- How a request is answered that does not reach the protected handler.
use a2a_red_panda_server_con.Prelude.{
  subst, Text, ℕ, ◌≡◌, ◌≢◌, refl, ◌⊎◌, false, some, List, [], ◌∷◌, str, length, arith, All,
  Bool-cases, Option-cases, inl, inr, ◌==◌, not, ◌≤◌, ◌||◌, text_eq, without, contains, text_eq_iff,
  contains_iff, ◌↔◌, Among,
}
use a2a_red_panda_server_con.Auth.Bearer.{bearer_token}
use a2a_red_panda_server_con.Auth.Middleware.{
  has_scopes, invalid_token_challenge, scope_challenge, admit, middleware, unauthenticated,
  permission_denied, write_auth_error,
}
use a2a_red_panda_server_con.Auth.Middleware.Admission.{empty_iff}
use a2a_red_panda_server_con.Auth.Scope.{Authenticator}
use a2a_red_panda_server_con.Auth.Scope.Valid.{IsScopeByte, IsScopeToken, join-All}
use a2a_red_panda_server_con.Http.{
  Request, Response, reply, canonical_key, header_values, header_set,
}
use a2a_red_panda_server_con.Identity.{Identity}
use a2a_red_panda_server_con.Strings.{join}

-- The identity is one of the configured issuer, with a subject and a tenant.
abbrev pub IsGenuine : Authenticator → Identity → Type 0
IsGenuine a identity =
    (identity.issuer ≡ a.issuer) × (identity.subject ≢ []) × (identity.tenant ≢ [])

-- The request's token verifies to this identity, which is a genuine one.
abbrev pub IsKnown : Authenticator → Request → Identity → Type 0
IsKnown a req identity =
    ((token : Text) × (bearer_token (header_values (str "Authorization") req.header) ≡ some token)
      × (a.verifier token ≡ some identity))
    × IsGenuine a identity

-- One of the required scopes is not granted.
abbrev pub LacksScope : (granted required : List Text) → Type 0
LacksScope granted required = (s : Text) × Among s required × (Among s granted → ⊥)

has_scopes-LacksScope :
    (granted required : List Text)
    → has_scopes granted required ≡ false
    → LacksScope granted required
unfolding has_scopes
has_scopes-LacksScope granted [] h = cc
has_scopes-LacksScope granted (s ∷ rest) h = elim (Bool-cases (contains granted s)) [
  | inl there ↦
      (let (t, needed, missing) = has_scopes-LacksScope granted rest (ground (arith, there, h)) in
        (t, inr needed, missing))
  | inr away ↦ (s, inl refl, λ among. cc ((contains_iff granted s).1 among, away))
]

IsGenuine-iff :
    (a : Authenticator) (identity : Identity)
    → ((not (text_eq identity.issuer a.issuer)
          || length identity.subject == 0
          || length identity.tenant == 0)
        ≡ false)
      ↔ IsGenuine a identity
IsGenuine-iff a identity = ground (
  arith,
  text_eq_iff identity.issuer a.issuer,
  empty_iff identity.subject,
  empty_iff identity.tenant,
)

admit-eq-reply :
    (a : Authenticator) (identity : Identity) (req : Request) (res : Response)
    → admit a identity req ≡ reply res
    → ((res ≡ unauthenticated) × (IsGenuine a identity → ⊥))
      ⊎ ((res ≡ permission_denied a)
          × IsGenuine a identity
          × LacksScope identity.scopes a.required_scopes)
unfolding admit
admit-eq-reply a identity req res h =
    elim (Bool-cases (
      not (text_eq identity.issuer a.issuer)
      || length identity.subject == 0
      || length identity.tenant == 0)) [
        | inl bad ↦
            inl (ground (arith, bad, h), λ genuine. cc ((IsGenuine-iff a identity).1 genuine, bad))
        | inr fine ↦ elim (Bool-cases (has_scopes identity.scopes a.required_scopes)) [
          | inl granted ↦ absurd (ground (arith, fine, granted, h))
          | inr lacking ↦ inr (
            ground (arith, fine, lacking, h),
            (IsGenuine-iff a identity).0 fine,
            has_scopes-LacksScope identity.scopes a.required_scopes lacking,
          )
        ]
      ]

unauthenticated_headers :
    (header_values (str "Cache-Control") unauthenticated.header ≡ str "no-store" ∷ [])
    × (header_values (str "WWW-Authenticate") unauthenticated.header ≡ invalid_token_challenge ∷ [])
unfolding write_auth_error header_values header_set canonical_key str text_eq without
unauthenticated_headers = (refl, refl)

permission_denied_headers :
    (a : Authenticator)
    → (header_values (str "Cache-Control") (permission_denied a).header ≡ str "no-store" ∷ [])
      × (header_values (str "WWW-Authenticate") (permission_denied a).header
          ≡ scope_challenge (join (str " ") a.required_scopes) ∷ [])
unfolding write_auth_error header_values header_set canonical_key str text_eq without
permission_denied_headers a = (refl, refl)

abbrev IsQuotable : ℕ → Type 0
IsQuotable c = (0x20 ≤ c) × (c ≤ 0x7e) × (c ≢ b'"') × (c ≢ 92)

scope-IsQuotable : (s : Text) → All IsScopeByte s → All IsQuotable s
scope-IsQuotable [] h = tt
scope-IsQuotable (c ∷ s) (h, hs) = (omega arith, scope-IsQuotable s hs)

scopes-IsQuotable : (l : List Text) → All IsScopeToken l → All (λ s. All IsQuotable s) l
scopes-IsQuotable [] h = tt
scopes-IsQuotable (s ∷ l) (h, hs) = (scope-IsQuotable s h.1, scopes-IsQuotable l hs)

quoted_scopes : (l : List Text) → All IsScopeToken l → All IsQuotable (join (str " ") l)
unfolding str
quoted_scopes l h = join-All IsQuotable (str " ") l (omega arith, tt) (scopes-IsQuotable l h)

-- A refusal is one of two fixed answers. It is 401 only where the request has no token that
-- verifies to an identity of the configured issuer with a subject and a tenant; and it is 403 only
-- where it has one, and one of the required scopes is not among that identity's.
pub middleware-eq-reply :
    (a : Authenticator) (req : Request) (res : Response)
    → middleware a req ≡ reply res
    → ((res ≡ unauthenticated) × ((identity : Identity) → IsKnown a req identity → ⊥))
      ⊎ ((res ≡ permission_denied a)
          × ((identity : Identity) × IsKnown a req identity
              × LacksScope identity.scopes a.required_scopes))
unfolding middleware
middleware-eq-reply a req res h =
    elim (Option-cases (bearer_token (header_values (str "Authorization") req.header))) [
      | inl nothing ↦
          inl (ground arith, λ identity ((token, presented, _), _). cc (presented, nothing))
      | inr (token, presented) ↦ elim (Option-cases (a.verifier token)) [
        | inl refused ↦ inl (
          ground arith,
          λ identity ((given, presented', verified), _).
              let same : given ≡ token = cc (presented, presented') in
              let known : a.verifier token ≡ some identity = rw same at verified in
              cc (known, refused),
        )
        | inr (found, verified) ↦ elim (admit-eq-reply a found req res (ground arith)) [
          | inl (e, strange) ↦ inl (
            e,
            λ identity ((given, presented', verified'), genuine).
                let same : given ≡ token = cc (presented, presented') in
                let known : a.verifier token ≡ some identity = rw same at verified' in
                let same_identity : identity ≡ found = cc (known, verified) in
                strange (subst (IsGenuine a) same_identity genuine),
          )
          | inr (e, genuine, lacking) ↦
              inr (e, (found, ((token, presented, verified), genuine), lacking))
        ]
      ]
    ]

-- Every refusal forbids caching and carries exactly one challenge; where the authenticator was
-- built by `NewAuthenticator`, the text in the challenge's quoted scope is printable and holds
-- neither a quote nor a backslash.
pub refusal_headers :
    (a : Authenticator) (req : Request) (res : Response)
    → All IsScopeToken a.required_scopes
    → middleware a req ≡ reply res
    → (header_values (str "Cache-Control") res.header ≡ str "no-store" ∷ [])
      × ((header_values (str "WWW-Authenticate") res.header ≡ invalid_token_challenge ∷ [])
          ⊎ ((scope : Text) × (header_values (str "WWW-Authenticate") res.header
                ≡ scope_challenge scope ∷ [])
              × All (λ c. (0x20 ≤ c) × (c ≤ 0x7e) × (c ≢ b'"') × (c ≢ 92)) scope))
refusal_headers a req res valid h = elim (middleware-eq-reply a req res h) [
  | inl (e, _) ↦ rw e ((unauthenticated_headers).0, inl (unauthenticated_headers).1)
  | inr (e, _) ↦ rw e (
    (permission_denied_headers a).0,
    inr (_, (permission_denied_headers a).1, quoted_scopes a.required_scopes valid),
  )
]
