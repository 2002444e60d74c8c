-- ===== src/Server/Body/Bounded.antt =====
-- Which bodies pass the limit.
use a2a_red_panda_server_con.Prelude.{
  Text, ℕ, ◌+◌, ◌≤◌, ◌<◌, ◌≡◌, ◌↔◌, inl, inr, Bool, false, Option, none, some, arith, length,
  length-take, take, leb, if◌then◌else◌, Bool-cases,
}
use a2a_red_panda_server_con.Http.{Body, no_body, stream, Request, forward}
use a2a_red_panda_server_con.Server.Body.{
  max_int64, read_limit, read_all, declared_too_large, with_body, limit_body, limit_request_body,
}

-- The request's body is absent, or can be read and closed and is, as declared and as read, within
-- the limit; `content` is what the next handler reads.
abbrev pub IsWithin : ℕ → Body → Option ℕ → Type 0
IsWithin max_bytes no_body declared = Unit
IsWithin max_bytes (stream content broken close_fails) declared =
    (length content ≤ max_bytes)
    × (broken ≡ false)
    × (close_fails ≡ false)
    × (declared_too_large max_bytes declared ≡ false)

abbrev pub buffered : Body → Request → Request
buffered no_body req = req
buffered (stream content broken close_fails) req = with_body content req

read_short :
    (max : ℕ) (content : Text) (broken : Bool)
    → max < max_int64
    → length content ≤ max
    → read_all (read_limit max) content broken ≡ (if broken then none else some content)
unfolding read_all read_limit
read_short max content broken small short = ground arith

read_long :
    (max : ℕ) (content : Text) (broken : Bool)
    → max < max_int64
    → max < length content
    → (body : Text) × (read_all (read_limit max) content broken ≡ some body) × (max < length body)
unfolding read_all read_limit
read_long max content broken small long = (
  take (max + 1) content,
  ground arith,
  omega (arith, length-take (max + 1) content (omega arith)),
)

limit_body-eq-forward :
    (max : ℕ) (body : Body) (req req' : Request)
    → max < max_int64
    → (limit_body max body req ≡ forward req')
      ↔ (IsWithin max body req.content_length × (req' ≡ buffered body req))
unfolding limit_body
limit_body-eq-forward max no_body req req' small = ground arith
limit_body-eq-forward max (stream content broken close_fails) req req' small =
    elim (Bool-cases (leb (length content) max)) [
      | inl short ↦ ground (arith, read_short max content broken small (ground arith))
      | inr long ↦
          (let (body, read, over) = read_long max content broken small (ground arith) in
            ground (arith, read, over))
    ]

-- Under a limit below the largest `int64` a request goes on exactly when it has no body, or one
-- that can be read and closed and is within the limit, both as declared and as read; a body is
-- then buffered whole, with its true length.
pub limit_request_body-eq-forward :
    (max_bytes : ℕ) (req req' : Request)
    → max_bytes < max_int64
    → (limit_request_body max_bytes req ≡ forward req')
      ↔ (IsWithin max_bytes req.body req.content_length × (req' ≡ buffered req.body req))
unfolding limit_request_body
limit_request_body-eq-forward max req req' small = limit_body-eq-forward max req.body req req' small
