-- ===== src/Auth/Bearer.antt =====
-- internal/auth/auth.go: `bearerToken` and `validBearerCredential`.
pub mod Credential
pub mod Token
use mathlib.Core.List.{foldr}
use a2a_red_panda_server_con.Prelude.{
  Text, ℕ, Bool, true, false, ◌&&◌, ◌||◌, not, Option, none, some, List, [], ◌∷◌, str, length, ltb,
  leb, ◌==◌, if◌then◌else◌,
}
use a2a_red_panda_server_con.Strings.{cut, equal_fold}

-- The bytes that the loop counts as content: letters, digits and `-._~+/`.
unfoldable pub b64_byte : ℕ → Bool
b64_byte c =
    (leb b'a' c && leb c b'z')
    || (leb b'A' c && leb c b'Z')
    || (leb b'0' c && leb c b'9')
    || c == b'-'
    || c == b'.'
    || c == b'_'
    || c == b'~'
    || c == b'+'
    || c == b'/'

-- The loop of `validBearerCredential` over its two flags; at the end it answers `content`.
unfoldable pub credential_loop : (padding content : Bool) → Text → Bool
credential_loop padding content [] = content
credential_loop padding content (c ∷ s) =
    let padded = credential_loop true content s in
    let more = credential_loop padding true s in
    if c == b'='
    then (if not content then false else padded)
    else if padding
    then false
    else if b64_byte c
    then more
    else false

-- The empty credential is refused before the loop.
unfoldable pub valid_bearer_credential : Text → Bool
unfolding credential_loop
valid_bearer_credential [] = false
valid_bearer_credential (c ∷ s) = credential_loop false false (c ∷ s)

-- `for len(token) > 0 && token[0] == ' ' { token = token[1:] }`
unfoldable pub skip_spaces : Text → Text
skip_spaces [] = []
skip_spaces (c ∷ s) = let rest = skip_spaces s in if c == b' ' then rest else c ∷ s

abbrev pub max_header_bytes : ℕ
max_header_bytes = 16384

-- One header value: the scheme up to the first space, then the credential behind the spaces. The
-- rest behind the first space is what the loop leaves after its first round.
unfoldable pub bearer_value : Text → Option Text
bearer_value value = if ltb max_header_bytes (length value) then none else elim (cut b' ' value) [
  | none ↦ none
  | some (scheme, rest) ↦
      if length scheme == 0 || not (equal_fold scheme (str "Bearer"))
      then none
      else if valid_bearer_credential (skip_spaces rest)
      then some (skip_spaces rest)
      else none
]

-- `none` is `ErrInvalidToken`.
unfoldable pub bearer_token : List Text → Option Text
bearer_token (value ∷ []) = bearer_value value
bearer_token _ = none
