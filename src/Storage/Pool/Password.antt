-- ===== src/Storage/Pool/Password.antt =====
-- What a password file must be, and what of it is the password.
use a2a_red_panda_server_con.Prelude.{
  Text, text_eq, text_eq_iff, ℕ, zero, suc, ◌%◌, ◌≤◌, ◌≡◌, refl, sym, ap, ◌∙◌, subst, ◌≢◌, ◌⊎◌, inl,
  inr, Bool, true, false, ◌&&◌, not, Option, some, [], ◌∷◌, ◌++◌, arith, ltb, ◌==◌, Bool-cases,
  not-false, ok, length, take, All, refuse_if, or_fail, >>=-eq-ok, refuse_if-eq-ok, or_fail-eq-ok,
  ok-injective, not_above,
}
use a2a_red_panda_server_con.Config.Parts.{not_empty}
use a2a_red_panda_server_con.Storage.Pool.{
  file_failed, not_regular, open_permissions, too_long, empty_password, nul_in_password, FileInfo,
  File, max_password_bytes, line_end, check_info, check_contents, read_password_file,
}
use a2a_red_panda_server_con.Strings.{cut, is_in, trim_right}

trim_right_split :
    (cutset s : Text)
    → (ends : Text) × (s ≡ trim_right cutset s ++ ends) × All (λ c. is_in c cutset ≡ true) ends
unfolding trim_right
trim_right_split cutset [] = ([], refl, tt)
trim_right_split cutset (c ∷ s) =
    let (ends, same, cut) = trim_right_split cutset s in
    elim (Bool-cases (text_eq (trim_right cutset s) [] && is_in c cutset)) [
      | inl off ↦
          (let blank : trim_right cutset s ≡ [] =
              (text_eq_iff (trim_right cutset s) []).0 (ground (arith, off)) in
            let all : s ≡ ends = rw blank at same in
            (c ∷ ends, rw off (ap (λ t. c ∷ t) all), (ground (arith, off), cut)))
      | inr kept ↦ (ends, rw kept (ap (λ t. c ∷ t) same), cut)
    ]

take_all : (n : ℕ) (s : Text) → length (take (suc n) s) ≤ n → take (suc n) s ≡ s
take_all n [] h = refl
take_all zero (c ∷ s) h = absurd (omega arith)
take_all (suc n) (c ∷ s) h = ap (λ t. c ∷ t) (take_all n s (omega arith))

is_in_none : (c : ℕ) (s : Text) → is_in c s ≡ false → All (λ d. c ≢ d) s
unfolding is_in
is_in_none c [] h = tt
is_in_none c (d ∷ s) h = (λ e. ground (arith, e, h), is_in_none c s (ground (arith, h)))

-- A password: one or more bytes, at most 65536, none of them zero, which with line ends behind them
-- are the whole file.
abbrev pub IsPassword : (contents password : Text) → Type 0
IsPassword contents password =
    (password ≢ [])
    × (length contents ≤ max_password_bytes)
    × All (λ c. 0 ≢ c) password
    × ((ends : Text) × (contents ≡ password ++ ends) × All (λ c. is_in c line_end ≡ true) ends)

check_contents-IsPassword :
    (contents password : Text)
    → check_contents contents ≡ ok password
    → IsPassword contents password
unfolding check_contents
check_contents-IsPassword contents password h =
    let read = take (suc max_password_bytes) contents in
    let found = trim_right line_end read in
    let (_, short, h) = >>=-eq-ok (refuse_if (ltb max_password_bytes (length read)) too_long) _ h in
    let (_, given, h) = >>=-eq-ok (refuse_if (text_eq found []) empty_password) _ h in
    let (_, clean, h) = >>=-eq-ok (refuse_if (is_in 0 found) nul_in_password) _ h in
    let bound : length read ≤ max_password_bytes =
      not_above max_password_bytes (length read)
        (refuse_if-eq-ok (ltb max_password_bytes (length read)) too_long short) in
    let whole : read ≡ contents = take_all max_password_bytes contents bound in
    let (ends, same, cut) = trim_right_split line_end read in
    subst (λ s. IsPassword contents s) (ok-injective h)
      (
        not_empty found (refuse_if-eq-ok (text_eq found []) empty_password given),
        subst (λ s. length s ≤ max_password_bytes) whole bound,
        is_in_none 0 found (refuse_if-eq-ok (is_in 0 found) nul_in_password clean),
        (ends, sym whole ∙ same, cut),
      )

-- The file is a regular one, and on a system that is not Windows neither its group nor others may
-- do anything with it.
abbrev pub IsPrivate : (windows : Bool) → FileInfo → Type 0
IsPrivate windows info = (info.regular ≡ true) × ((windows ≡ true) ⊎ (info.permissions % 64 ≡ 0))

-- The password is that of the file.
abbrev pub IsPasswordOf : (windows : Bool) → (Text → Option File) → (path password : Text) → Type 0
IsPasswordOf windows open_file path password =
    (file : File) × (info : FileInfo) × (contents : Text) × (open_file path ≡ some file)
    × (file.info ≡ some info)
    × (file.contents ≡ some contents)
    × IsPrivate windows info
    × IsPassword contents password

closed_to_others :
    (windows : Bool) (bits : ℕ)
    → (not windows && not (bits % 64 == 0)) ≡ false
    → (windows ≡ true) ⊎ (bits % 64 ≡ 0)
closed_to_others true bits h = inl refl
closed_to_others false bits h = inr (ground (arith, h))

pub read_password_file-IsPasswordOf :
    (windows : Bool) (open_file : Text → Option File) (path password : Text)
    → read_password_file windows open_file path ≡ ok password
    → IsPasswordOf windows open_file path password
unfolding read_password_file check_info
read_password_file-IsPasswordOf windows open_file path password h =
    let (file, opened, h) = >>=-eq-ok (or_fail (open_file path) file_failed) _ h in
    let (info, told, h) = >>=-eq-ok (or_fail file.info file_failed) _ h in
    let (_, checked, h) = >>=-eq-ok (check_info windows info) _ h in
    let (contents, read, h) = >>=-eq-ok (or_fail file.contents file_failed) _ h in
    let (_, regular, rest) = >>=-eq-ok (refuse_if (not info.regular) not_regular) _ checked in
    let (_, private, _) =
      >>=-eq-ok (refuse_if (not windows && not (info.permissions % 64 == 0)) open_permissions) _
        rest in
    (
      file,
      info,
      contents,
      or_fail-eq-ok (open_file path) file_failed opened,
      or_fail-eq-ok file.info file_failed told,
      or_fail-eq-ok file.contents file_failed read,
      (
        not-false info.regular (refuse_if-eq-ok (not info.regular) not_regular regular),
        closed_to_others windows info.permissions (
            refuse_if-eq-ok (not windows && not (info.permissions % 64 == 0)) open_permissions
              private),
      ),
      check_contents-IsPassword contents password h,
    )
