-- ===== src/Server/Params/Items.antt =====
-- What `splitParameterValues` makes of values.
use a2a_red_panda_server_con.Prelude.{
  Text, ◌≢◌, List, [], ◌∷◌, ◌++◌, length, ◌==◌, Bool-cases, inl, inr, subst,
}
use a2a_red_panda_server_con.Auth.Middleware.Admission.{empty_iff}
use a2a_red_panda_server_con.Server.Params.{trimmed_items, split_parameter_values}
use a2a_red_panda_server_con.Strings.{trim_space, split}
use a2a_red_panda_server_con.Strings.Parts.{IsSplit, split-IsSplit}
use a2a_red_panda_server_con.Strings.Trimmed.{IsTrimmed, trim_space-IsTrimmed}

-- The items are the parts in order, without the spaces round them, and without those that are
-- nothing but spaces.
pub data AreItems : (parts items : List Text) → Type 0 where
  no_parts : AreItems [] []
  blank_part :
      (part : Text) (parts items : List Text)
      → IsTrimmed part []
      → AreItems parts items
      → AreItems (part ∷ parts) items
  one_item :
      (part item : Text) (parts items : List Text)
      → IsTrimmed part item
      → item ≢ []
      → AreItems parts items
      → AreItems (part ∷ parts) (item ∷ items)

-- The items of all values in order; the parts of a value stand between its commas.
pub data AreValuesItems : (values items : List Text) → Type 0 where
  no_values : AreValuesItems [] []
  one_value :
      (value : Text) (parts mine values items : List Text)
      → IsSplit b',' value parts
      → AreItems parts mine
      → AreValuesItems values items
      → AreValuesItems (value ∷ values) (mine ++ items)

trimmed_items-AreItems : (parts : List Text) → AreItems parts (trimmed_items parts)
unfolding trimmed_items
trimmed_items-AreItems [] = no_parts
trimmed_items-AreItems (part ∷ parts) =
    let trimmed = trim_space-IsTrimmed part in
    let rest = trimmed_items-AreItems parts in
    elim (Bool-cases (length (trim_space part) == 0)) [
      | inl blank ↦ rw blank (
          blank_part part parts (trimmed_items parts)
            (subst (IsTrimmed part) ((empty_iff (trim_space part)).0 blank) trimmed) rest)
      | inr given ↦ rw given (
          one_item part (trim_space part) parts (trimmed_items parts) trimmed
            (λ e. cc ((empty_iff (trim_space part)).1 e, given)) rest)
    ]

pub split_parameter_values-AreValuesItems :
    (values : List Text) → AreValuesItems values (split_parameter_values values)
unfolding split_parameter_values
split_parameter_values-AreValuesItems [] = no_values
split_parameter_values-AreValuesItems (value ∷ values) =
    one_value value (split b',' value) (trimmed_items (split b',' value)) values
      (split_parameter_values values) (split-IsSplit b',' value)
      (trimmed_items-AreItems (split b',' value)) (split_parameter_values-AreValuesItems values)
