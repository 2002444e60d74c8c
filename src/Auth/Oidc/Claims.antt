-- ===== src/Auth/Oidc/Claims.antt =====
-- internal/auth/oidc.go: `Verify` and the readers of single claims.
use a2a_red_panda_server_con.Prelude.Options.{◌>>=◌, require}
use a2a_red_panda_server_con.Prelude.{
  Text, some, none, Option, text_eq, str, Assoc, lookup, ℕ, zero, suc, ◌+◌, ◌*◌, Bool, false, ◌&&◌,
  ◌||◌, not, List, [], ◌∷◌, ◌++◌, ltb, ◌==◌, if◌then◌else◌, length, select,
}
use a2a_red_panda_server_con.Identity.{Identity}
use a2a_red_panda_server_con.Storage.Listing.{not_before}
use a2a_red_panda_server_con.Strings.{strip_any, spaces, trim_space}

-- A JSON value that stands in no list, or in one; `object` stands for a boolean or an object, and
-- for a list in a list.
pub data Scalar : Type 0 where
  string number : Text → Scalar
  null object : Scalar

pub data Json : Type 0 where
  scalar : Scalar → Json
  list : List Scalar → Json

-- What `math.IsNaN`, `math.IsInf`, the order and the conversion to an integer tell of a float: one
-- that is not negative has its whole seconds and the nanoseconds behind them.
pub data Float : Type 0 where
  nan infinite negative_float : Float
  seconds : (whole nanos : ℕ) → Float

-- How the package encoding/json reads numbers: whether a text is a number's token, and
-- `json.Number.Float64`.
pub record Numbers : Type 0 where
  pub is_number : Text → Bool
  pub float64 : Text → Option Float

-- `json.Unmarshal` into a string, a list of strings and a `json.Number`. `null` leaves the zero
-- value.
unfoldable pub to_string : Scalar → Option Text
to_string (string s) = some s
to_string null = some []
to_string (number token) = none
to_string object = none

unfoldable pub to_strings : List Scalar → Option (List Text)
to_strings [] = some []
to_strings (x ∷ xs) = do s ← to_string x; rest ← to_strings xs; some (s ∷ rest)

unfoldable pub to_number : Numbers → Scalar → Option Text
to_number n (number token) = some token
to_number n (string s) = if n.is_number s then some s else none
to_number n null = some []
to_number n object = none

unfoldable pub string_claim : Json → Option Text
string_claim (scalar x) = to_string x
string_claim (list xs) = none

unfoldable pub number_claim : Numbers → Json → Option Text
number_claim n (scalar x) = to_number n x
number_claim n (list xs) = none

unfoldable pub strings_claim : Json → Option (List Text)
strings_claim (scalar (string s)) = none
strings_claim (scalar (number token)) = none
strings_claim (scalar null) = some []
strings_claim (scalar object) = none
strings_claim (list xs) = to_strings xs

-- `strings.Fields`: the open field, and the fields behind it, empty ones among them, on fuel.
unfoldable pub fields_loop : ℕ → Text → Text × List Text
fields_loop zero s = ([], [])
fields_loop (suc n) [] = ([], [])
fields_loop (suc n) (c ∷ s) = elim (strip_any spaces (c ∷ s)) [
  | some rest ↦ (let (part, parts) = fields_loop n rest in ([], part ∷ parts))
  | none ↦ (let (part, parts) = fields_loop n s in (c ∷ part, parts))
]

-- Every step takes at least one byte, so the length is enough fuel.
unfoldable pub fields : Text → List Text
fields s =
    let (part, parts) = fields_loop (length s) s in select (λ f. not (text_eq f [])) (part ∷ parts)

unfoldable pub required_string_claim : Assoc Json → (name : Text) → Option Text
required_string_claim claims name = do
  raw ← lookup name claims
  value ← string_claim raw
  if text_eq (trim_space value) [] then none else some value

-- 9999-12-31T23:59:59Z
abbrev pub max_numeric_date : ℕ
max_numeric_date = 253402300799

-- A time is the number of nanoseconds since the Unix epoch.
abbrev pub nanos_per_second : ℕ
nanos_per_second = 1000000000

unfoldable pub numeric_date : Float → Option ℕ
numeric_date nan = none
numeric_date infinite = none
numeric_date negative_float = none
numeric_date (seconds whole nanos) =
    if ltb max_numeric_date whole || whole == max_numeric_date && not (nanos == 0)
    then none
    else some (whole * nanos_per_second + nanos)

-- No error, and the time if the claim is there; `none` is an error.
unfoldable pub optional_numeric_date : Numbers → Assoc Json → (name : Text) → Option (Option ℕ)
optional_numeric_date n claims name = elim (lookup name claims) [
  | none ↦ some none
  | some raw ↦ (do
    token ← number_claim n raw
    float ← n.float64 token
    time ← numeric_date float
    some (some time))
]

unfoldable pub required_numeric_date : Numbers → Assoc Json → (name : Text) → Option ℕ
required_numeric_date n claims name = do found ← optional_numeric_date n claims name; found

-- The scopes of one claim; a claim that is absent has none.
unfoldable pub claim_scopes : Assoc Json → (name : Text) → Option (List Text)
claim_scopes claims name = elim (lookup name claims) [
  | none ↦ some []
  | some raw ↦ elim (string_claim raw) [
    | some value ↦ some (fields value)
    | none ↦ strings_claim raw
  ]
]

unfoldable pub token_scopes : Assoc Json → Option (List Text)
token_scopes claims = do
  scope ← claim_scopes claims (str "scope")
  scp ← claim_scopes claims (str "scp")
  some (scope ++ scp)

-- The verifier; `verify_claims` is `claimsVerifier.VerifyClaims`.
pub record OidcVerifier : Type 0 where
  pub verify_claims : Text → Option (Assoc Json)
  pub issuer : Text
  pub tenant_claim : Text
  pub clock_skew : ℕ

-- `err != nil || (ok && now.Add(v.clockSkew).Before(notBefore))`
unfoldable pub too_early : (now skew : ℕ) → Option ℕ → Bool
too_early now skew none = false
too_early now skew (some not_before) = ltb (now + skew) not_before

-- `none` is `ErrInvalidToken`; `now` is what the verifier's clock answers.
unfoldable pub verify : Numbers → OidcVerifier → (now : ℕ) → (raw_token : Text) → Option Identity
verify n v now raw_token = do
  claims ← v.verify_claims raw_token
  subject ← required_string_claim claims (str "sub")
  tenant ← required_string_claim claims v.tenant_claim
  expires ← required_numeric_date n claims (str "exp")
  timely ← require (ltb now (expires + v.clock_skew))
  not_before ← optional_numeric_date n claims (str "nbf")
  begun ← require (not (too_early now v.clock_skew not_before))
  scopes ← token_scopes claims
  some (record { issuer = v.issuer; subject = subject; tenant = tenant; scopes = scopes })
