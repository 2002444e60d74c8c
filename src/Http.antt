-- ===== src/Http.antt =====
-- The parts of Go's `net/http` that the program works on: headers and queries as maps from names
-- to values, a request with its body, and what a middleware does with a request. The identity that
-- `auth.WithIdentity` puts into the request's context is a field of the request.
pub mod Headers
use mathlib.Core.Option.{get_or}
use a2a_red_panda_server_con.Prelude.{
  Text, Assoc, ℕ, ◌≤◌, Bool, true, false, ◌&&◌, ◌||◌, Option, none, some, List, [], ◌∷◌, ◌++◌, ◌-◌,
  ◌+◌, map, lookup, without, insert, str, text_eq, leb, ltb, ◌==◌, if◌then◌else◌, all, not,
}
use a2a_red_panda_server_con.Identity.{Identity}
use a2a_red_panda_server_con.Strings.{lower}

abbrev pub Header : Type 0
Header = Assoc (List Text)

-- A byte that a header's name may hold (RFC 7230 tchar); any other makes the name stay as it is.
token_byte : ℕ → Bool
token_byte c =
    (leb b'0' c && leb c b'9')
    || (leb b'A' c && leb c b'Z')
    || (leb b'a' c && leb c b'z')
    || c == b'!'
    || c == b'#'
    || c == b'$'
    || c == b'%'
    || c == b'&'
    || c == 39
    || c == b'*'
    || c == b'+'
    || c == b'-'
    || c == b'.'
    || c == b'^'
    || c == b'_'
    || c == b'`'
    || c == b'|'
    || c == b'~'

upper : ℕ → ℕ
upper c = if leb b'a' c && leb c b'z' then c - 32 else c

-- Letters in upper case at the start and behind a dash, in lower case elsewhere.
canonical_loop : Bool → Text → Text
canonical_loop first [] = []
canonical_loop first (c ∷ s) = (if first then upper c else lower c) ∷ canonical_loop (c == b'-') s

-- `textproto.CanonicalMIMEHeaderKey`
unfoldable pub canonical_key : Text → Text
unfolding token_byte upper lower canonical_loop
canonical_key name = if all token_byte name then canonical_loop true name else name

-- `header.Values(name)`
unfoldable pub header_values : Text → Header → List Text
unfolding lookup
header_values name h = get_or (lookup (canonical_key name) h) []

-- `header.Del(name)`
unfoldable pub header_del : Text → Header → Header
unfolding without
header_del name h = without (canonical_key name) h

-- `header.Set(name, value)`
unfoldable pub header_set : Text → Text → Header → Header
unfolding insert
header_set name value h = insert (canonical_key name) (value ∷ []) h

-- `header.Add(name, value)`
unfoldable pub header_add : Text → Text → Header → Header
unfolding header_values insert
header_add name value h = insert (canonical_key name) (header_values name h ++ value ∷ []) h

-- `for _, value := range values { header.Add(name, value) }`
unfoldable pub header_add_all : Text → List Text → Header → Header
unfolding header_add
header_add_all name [] h = h
header_add_all name (v ∷ vs) h = header_add_all name vs (header_add name v h)

-- A request's body: none, or a stream that delivers `content` and then ends, or fails if `broken`;
-- `close_fails` is what `Close` answers.
pub data Body : Type 0 where
  no_body : Body
  stream : (content : Text) (broken close_fails : Bool) → Body

-- `content_length` is `none` where Go has -1, an unknown length.
pub record Request : Type 0 where
  pub header : Header
  pub query : Assoc (List Text)
  pub body : Body
  pub content_length : Option ℕ
  pub identity : Option Identity

-- The JSON bodies and the plain text that the program answers with.
pub data Content : Type 0 where
  error_json : (code : ℕ) (status message : Text) → Content
  plain : Text → Content

pub record Response : Type 0 where
  pub status : ℕ
  pub header : Header
  pub content : Content

-- A middleware hands a request on to the next handler, or answers it.
pub data Handling : Type 0 where
  forward : Request → Handling
  reply : Response → Handling

-- The next middleware around the same handler.
abbrev pub next_handler : Handling → (Request → Handling) → Handling
next_handler (forward req) next = next req
next_handler (reply res) next = reply res
