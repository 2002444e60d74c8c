-- ===== src/Server/Params.antt =====
-- internal/server/protocol.go: `normalizeServiceParameters` and the protocol version. The SDK's
-- names of the two service parameters and its version are parameters.
pub mod Items
pub mod Values
use mathlib.Core.Option.{get_or}
use a2a_red_panda_server_con.Prelude.{
  Text, text_eq, Bool, true, false, ◌&&◌, ◌||◌, not, Option, none, some, List, [], ◌∷◌, ◌++◌,
  length, ◌==◌, lookup, Assoc, if◌then◌else◌, take,
}
use a2a_red_panda_server_con.Http.{Request, header_values, header_del, header_add_all}
use a2a_red_panda_server_con.Strings.{split, trim_space}

-- The loop over the items of one value.
unfoldable pub trimmed_items : List Text → List Text
trimmed_items [] = []
trimmed_items (item ∷ items) =
    let rest = trimmed_items items in
    if not (length (trim_space item) == 0) then trim_space item ∷ rest else rest

unfoldable pub split_parameter_values : List Text → List Text
split_parameter_values [] = []
split_parameter_values (value ∷ values) =
    trimmed_items (split b',' value) ++ split_parameter_values values

-- `request.URL.Query()[name]`
unfoldable pub query_values : Text → Request → List Text
query_values name req = get_or (lookup name req.query) []

-- Two equal values count as one.
unfoldable pub merge_equal : List Text → List Text
merge_equal (v ∷ w ∷ []) = if text_eq v w then v ∷ [] else v ∷ w ∷ []
merge_equal values = values

-- `request.Header.Del(name)`, and `Add` for each value.
unfoldable pub put_values : Text → List Text → Request → Request
put_values name values req = record req {
  header = header_add_all name values (header_del name req.header);
}

unfoldable pub normalize_version_parameter : (version_name : Text) → Request → Request
normalize_version_parameter name req =
    let headers = split_parameter_values (header_values name req.header) in
    let query = split_parameter_values (query_values name req) in
    put_values name (merge_equal (headers ++ query)) req

unfoldable pub normalize_list_parameter : (name : Text) → Request → Request
normalize_list_parameter name req =
    put_values name
      (split_parameter_values (header_values name req.header ++ query_values name req)) req

unfoldable pub normalize_service_parameters :
    (version_name extensions_name : Text) → Request → Request
normalize_service_parameters version_name extensions_name req =
    normalize_list_parameter extensions_name (normalize_version_parameter version_name req)

-- `protocolVersionInterceptor.Before` on the values of the version parameter, if it is there.
unfoldable pub version_supported : (version : Text) → Option (List Text) → Bool
version_supported version none = false
version_supported version (some []) = false
version_supported version (some (v ∷ [])) = text_eq (trim_space v) version
version_supported version (some (v ∷ w ∷ rest)) = false
