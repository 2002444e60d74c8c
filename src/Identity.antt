-- ===== src/Identity.antt =====
-- internal/auth/auth.go: the verified identity, and the one-string key that names its owner.
pub mod OwnerKey
use a2a_red_panda_server_con.Prelude.{Text, List, [], ◌∷◌, ◌++◌, length}
use a2a_red_panda_server_con.Strings.{decimal}

pub record Identity : Type 0 where
  pub issuer : Text
  pub subject : Text
  pub tenant : Text
  pub scopes : List Text

-- `%d:%s` of a string's length and the string.
unfoldable pub counted : Text → Text
counted s = decimal (length s) ++ (b':' ∷ s)

unfoldable pub owner_key : Identity → Text
owner_key identity =
    counted identity.issuer
    ++ (b'|' ∷ (counted identity.tenant ++ (b'|' ∷ counted identity.subject)))
