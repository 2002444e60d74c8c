-- ===== src/Server/Body.antt =====
-- internal/server/protocol.go: `limitRequestBody`. A stream fails, if it does, on the read behind
-- its content.
pub mod Bounded
use a2a_red_panda_server_con.Prelude.{
  Text, str, ℕ, ◌+◌, Bool, true, false, ◌||◌, Option, none, some, List, [], ◌∷◌, ◌++◌, length, take,
  ltb, leb, if◌then◌else◌,
}
use a2a_red_panda_server_con.Http.{
  Body, no_body, stream, Request, Response, Handling, forward, reply, header_set, error_json, plain,
}

abbrev pub max_int64 : ℕ
max_int64 = 9223372036854775807

-- `io.LimitReader(body, maxBytes+1)`: how many bytes it gives at most. The sum wraps round to a
-- negative number where the limit is the largest `int64`, and the reader then gives none.
unfoldable pub read_limit : ℕ → ℕ
read_limit max_bytes = if leb max_int64 max_bytes then 0 else max_bytes + 1

-- `io.ReadAll` of the limited reader: `none` for a read that failed.
unfoldable pub read_all : ℕ → Text → Bool → Option Text
read_all limit content broken =
    if leb limit (length content)
    then some (take limit content)
    else if broken
    then none
    else some content

unfoldable pub too_large : Response
too_large = record {
  status = 413;
  header = header_set (str "Content-Type") (str "application/json") [];
  content = error_json 413 (str "RESOURCE_EXHAUSTED") (str "request body exceeds configured limit");
}

-- `http.Error`
unfoldable pub read_failure : Response
read_failure = record {
  status = 400;
  header =
      header_set (str "X-Content-Type-Options") (str "nosniff")
        (header_set (str "Content-Type") (str "text/plain; charset=utf-8") []);
  content = plain (str "failed to read request body" ++ 10 ∷ []);
}

-- `request.ContentLength > maxBytes`
unfoldable pub declared_too_large : ℕ → Option ℕ → Bool
declared_too_large max_bytes none = false
declared_too_large max_bytes (some n) = ltb max_bytes n

-- The body as it was read, and its length.
unfoldable pub with_body : Text → Request → Request
with_body content req = record req {
  body = stream content false false;
  content_length = some (length content);
}

-- The tests on the request's body.
unfoldable pub limit_body : (max_bytes : ℕ) → Body → Request → Handling
limit_body max_bytes no_body req = forward req
limit_body max_bytes (stream content broken close_fails) req =
    if declared_too_large max_bytes req.content_length
    then reply too_large
    else elim (read_all (read_limit max_bytes) content broken) [
      | none ↦ reply read_failure
      | some body ↦
          if close_fails
          then reply read_failure
          else if ltb max_bytes (length body)
          then reply too_large
          else forward (with_body body req)
    ]

unfoldable pub limit_request_body : (max_bytes : ℕ) → Request → Handling
limit_request_body max_bytes req = limit_body max_bytes req.body req
