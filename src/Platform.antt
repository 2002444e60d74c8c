-- ===== src/Platform.antt =====
-- What the program takes from Go's packages net, net/url, path/filepath, strings and time, as a
-- parameter; and the reading of numbers of the package strconv.
pub mod Ranges
use a2a_red_panda_server_con.Prelude.{
  Text, ℕ, zero, suc, ◌+◌, ◌-◌, ◌*◌, ◌^◌, Bool, true, false, Option, none, some, List, [], ◌∷◌, ltb,
  leb, ◌==◌, ◌&&◌, if◌then◌else◌, ℤ, pos, negsuc,
}
use a2a_red_panda_server_con.Strings.{decimal}

-- A parsed URL: `user` is the password that the user's part gives, if there is one, and
-- `query_keys` are the keys of `Query()`.
pub record Url : Type 0 where
  pub scheme : Text
  pub opaque : Text
  pub user : Option (Option Text)
  pub host : Text
  pub hostname : Text
  pub port : Text
  pub path : Text
  pub raw_query : Text
  pub query_keys : List Text
  pub fragment : Text

pub record Platform : Type 0 where
  -- `url.ParseRequestURI` and `url.Parse`
  pub parse_request_uri : Text → Option Url
  pub parse_url : Text → Option Url
  -- `net.ParseIP(host)` is an address, and `IsLoopback` holds of it
  pub is_loopback_ip : Text → Bool
  -- `time.ParseDuration`, in nanoseconds
  pub parse_duration : Text → Option ℤ
  -- `strings.ToLower`
  pub to_lower : Text → Text
  -- `strings.EqualFold` is equality of these
  pub fold : Text → Text
  -- `filepath.IsAbs`
  pub is_abs : Text → Bool

-- `a < b`
unfoldable pub int_lt : ℤ → ℤ → Bool
int_lt (pos m) (pos n) = ltb m n
int_lt (pos m) (negsuc n) = false
int_lt (negsuc m) (pos n) = true
int_lt (negsuc m) (negsuc n) = ltb n m

-- `strconv.Itoa`
unfoldable pub itoa : ℤ → Text
itoa (pos n) = decimal n
itoa (negsuc n) = b'-' ∷ decimal (suc n)

-- The number of which the decimal digits so far are `n`; nothing but digits may follow.
unfoldable pub digits_value : ℕ → Text → Option ℕ
digits_value n [] = some n
digits_value n (c ∷ s) =
    let value = digits_value (10 * n + (c - b'0')) s in
    if leb b'0' c && leb c b'9' then value else none

-- `strconv.ParseUint(s, 10, …)`, without a bound.
unfoldable pub parse_digits : Text → Option ℕ
unfolding digits_value
parse_digits [] = none
parse_digits (c ∷ s) = digits_value 0 (c ∷ s)

-- The negative of a number that is at most the bound.
unfoldable pub negative : (bound : ℕ) → ℕ → Option ℤ
negative bound zero = some (pos zero)
negative bound (suc m) = if ltb m bound then some (negsuc m) else none

unfoldable pub nonnegative : (bound : ℕ) → ℕ → Option ℤ
nonnegative bound n = if ltb n bound then some (pos n) else none

unfoldable pub bind_option : {A B : Type 0} → Option A → (A → Option B) → Option B
bind_option none f = none
bind_option (some a) f = f a

-- `strconv.ParseInt(s, 10, bits)`, of which `strconv.Atoi` is the case of 64 bits.
unfoldable pub parse_int : (bits : ℕ) → Text → Option ℤ
unfolding parse_digits negative nonnegative bind_option
parse_int bits [] = none
parse_int bits (c ∷ s) =
    let bound = 2 ^ (bits - 1) in
    if c == b'-'
    then bind_option (parse_digits s) (negative bound)
    else if c == b'+'
    then bind_option (parse_digits s) (nonnegative bound)
    else bind_option (parse_digits (c ∷ s)) (nonnegative bound)
