-- ===== src/Strings.antt =====
-- The functions of Go's `strings`, `strconv` and `fmt` packages that the program calls, over byte
-- strings. The proofs are in the modules below.
pub mod Split
pub mod Decimal
pub mod Trim
pub mod Trimmed
pub mod Parts
use mathlib.Core.List.{reverse}
use a2a_red_panda_server_con.Prelude.{
  Text, ℕ, zero, suc, ◌+◌, ◌-◌, ◌/◌, ◌%◌, Bool, true, false, ◌&&◌, ◌||◌, Option, none, some, List,
  [], ◌∷◌, ◌++◌, map, length, ltb, leb, ◌==◌, if◌then◌else◌, text_eq, str,
}

-- The rest of `s` behind the prefix.
unfoldable pub strip_prefix : Text → Text → Option Text
strip_prefix [] s = some s
strip_prefix (p ∷ ps) [] = none
strip_prefix (p ∷ ps) (c ∷ s) = let rest = strip_prefix ps s in if p == c then rest else none

-- The rest of `s` behind the first of the patterns that it begins with.
unfoldable pub strip_any : List Text → Text → Option Text
strip_any [] s = none
strip_any (p ∷ ps) s = elim (strip_prefix p s) [ some rest ↦ some rest | none ↦ strip_any ps s ]

-- The loop that takes patterns off the front, on fuel.
unfoldable pub trim_loop : List Text → ℕ → Text → Text
trim_loop ps zero s = s
trim_loop ps (suc n) s = elim (strip_any ps s) [ some rest ↦ trim_loop ps n rest | none ↦ s ]

-- Every pattern takes at least one byte, so the length is enough fuel.
unfoldable pub trim_front : List Text → Text → Text
trim_front ps s = trim_loop ps (length s) s

unfoldable pub trim_back : List Text → Text → Text
trim_back ps s = reverse (trim_front (map reverse ps) (reverse s))

-- The UTF-8 encodings of the code points for which `unicode.IsSpace` holds.
abbrev pub spaces : List Text
spaces =
    (9 ∷ [])
    ∷ (10 ∷ [])
    ∷ (11 ∷ [])
    ∷ (12 ∷ [])
    ∷ (13 ∷ [])
    ∷ (32 ∷ [])
    ∷ (0xC2 ∷ 0x85 ∷ [])
    ∷ (0xC2 ∷ 0xA0 ∷ [])
    ∷ (0xE1 ∷ 0x9A ∷ 0x80 ∷ [])
    ∷ (0xE2 ∷ 0x80 ∷ 0x80 ∷ [])
    ∷ (0xE2 ∷ 0x80 ∷ 0x81 ∷ [])
    ∷ (0xE2 ∷ 0x80 ∷ 0x82 ∷ [])
    ∷ (0xE2 ∷ 0x80 ∷ 0x83 ∷ [])
    ∷ (0xE2 ∷ 0x80 ∷ 0x84 ∷ [])
    ∷ (0xE2 ∷ 0x80 ∷ 0x85 ∷ [])
    ∷ (0xE2 ∷ 0x80 ∷ 0x86 ∷ [])
    ∷ (0xE2 ∷ 0x80 ∷ 0x87 ∷ [])
    ∷ (0xE2 ∷ 0x80 ∷ 0x88 ∷ [])
    ∷ (0xE2 ∷ 0x80 ∷ 0x89 ∷ [])
    ∷ (0xE2 ∷ 0x80 ∷ 0x8A ∷ [])
    ∷ (0xE2 ∷ 0x80 ∷ 0xA8 ∷ [])
    ∷ (0xE2 ∷ 0x80 ∷ 0xA9 ∷ [])
    ∷ (0xE2 ∷ 0x80 ∷ 0xAF ∷ [])
    ∷ (0xE2 ∷ 0x81 ∷ 0x9F ∷ [])
    ∷ (0xE3 ∷ 0x80 ∷ 0x80 ∷ [])
    ∷ []

-- `strings.TrimSpace`
unfoldable pub trim_space : Text → Text
unfolding trim_back trim_front trim_loop strip_any strip_prefix
trim_space s = trim_back spaces (trim_front spaces s)

-- `strings.Cut(s, sep)` for a separator of one byte: what stands before it and behind it.
unfoldable pub cut : ℕ → Text → Option (Text × Text)
cut sep [] = none
cut sep (c ∷ s) =
    let rest = cut sep s in
    if c == sep then some ([], s) else elim rest [ none ↦ none | some (a, b) ↦ some (c ∷ a, b) ]

-- `strings.Split(s, sep)` for a separator of one byte: the open part, and the parts behind it.
unfoldable pub split_parts : ℕ → Text → Text × List Text
split_parts sep [] = ([], [])
split_parts sep (c ∷ s) =
    let (part, parts) = split_parts sep s in
    if c == sep then ([], part ∷ parts) else (c ∷ part, parts)

unfoldable pub split : ℕ → Text → List Text
unfolding split_parts
split sep s = let (part, parts) = split_parts sep s in part ∷ parts

-- An ASCII letter in lower case.
unfoldable pub lower : ℕ → ℕ
lower c = if leb b'A' c && leb c b'Z' then c + 32 else c

-- `strings.EqualFold` against a word of ASCII letters other than k and s, which alone have a
-- partner outside ASCII.
unfoldable pub equal_fold : Text → Text → Bool
unfolding lower
equal_fold s word = text_eq (map lower s) (map lower word)

-- `strings.Join(texts, sep)`
unfoldable pub join : Text → List Text → Text
join sep [] = []
join sep (x ∷ []) = x
join sep (x ∷ y ∷ xs) = x ++ (sep ++ join sep (y ∷ xs))

-- `%d` of a number, on fuel: the number of digits is at most the number plus one.
unfoldable pub decimal_loop : ℕ → ℕ → Text
decimal_loop zero n = []
decimal_loop (suc f) n =
    let rest = decimal_loop f (n / 10) in
    if ltb n 10 then (48 + n) ∷ [] else rest ++ (48 + n % 10) ∷ []

unfoldable pub decimal : ℕ → Text
unfolding decimal_loop
decimal n = decimal_loop (suc n) n

-- `strings.IndexByte(s, c) >= 0`
unfoldable pub is_in : ℕ → Text → Bool
is_in c [] = false
is_in c (d ∷ s) = c == d || is_in c s

-- `strings.TrimRight(s, cutset)` for a cutset of ASCII bytes.
unfoldable pub trim_right : (cutset s : Text) → Text
trim_right cutset [] = []
trim_right cutset (c ∷ s) =
    let rest = trim_right cutset s in if text_eq rest [] && is_in c cutset then [] else c ∷ rest
