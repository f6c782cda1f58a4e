-- ===== src/ManifestFile/Fields.antt =====
-- The readers of fields of runtime/src/loader/manifest.cpp.
use Prim.Native.String.{String}
use nemotron_inference.Base.{ℕ, suc, List, [], ◌∷◌, ◌++◌, Option, none, some, text}
use nemotron_inference.Json.{
  Integer, positive, JsonValue, integer, string, array, object, JsonArray, empty_array, element,
  JsonObject, find_member,
}
use nemotron_inference.ManifestFile.Readers.{Reading, pure, complain}

unfoldable pub as_object : Option JsonValue → Option JsonObject
as_object (some (object members)) = some members
as_object _ = none

unfoldable pub as_array : Option JsonValue → Option JsonArray
as_array (some (array elements)) = some elements
as_array _ = none

unfoldable pub as_string : Option JsonValue → Option (List ℕ)
as_string (some (string s)) = some s
as_string _ = none

unfoldable pub as_integer : Option JsonValue → Option Integer
as_integer (some (integer n)) = some n
as_integer _ = none

abbrev pub quoted : String → String → String → List ℕ
quoted before key after = text before ++ (text key ++ text after)

-- Each reader returns what the output holds afterwards: its default, where the field is refused.
unfoldable pub read_required_string : JsonObject → String → List ℕ → Reading (List ℕ)
read_required_string members key tensor_name = elim (as_string (find_member members (text key))) [
  | none ↦ complain tensor_name (quoted "missing or invalid string field '" key "'") []
  | some s ↦ pure s
]

unfoldable pub read_optional_string : JsonObject → String → Option (List ℕ)
read_optional_string members key = as_string (find_member members (text key))

-- A string that is left empty where it is missing.
unfoldable pub or_empty : Option (List ℕ) → List ℕ
or_empty none = []
or_empty (some s) = s

unfoldable pub read_required_size_t : JsonObject → String → List ℕ → Reading ℕ
read_required_size_t members key tensor_name = elim (as_integer (find_member members (text key))) [
  | some (positive n) ↦ pure n
  | _ ↦ complain tensor_name (quoted "missing or invalid integer field '" key "'") 0
]

-- The loop over the elements; `dims` holds what was read before a bad one.
unfoldable pub read_dims : String → List ℕ → List ℕ → JsonArray → Reading (List ℕ)
read_dims key tensor_name dims empty_array = pure dims
read_dims key tensor_name dims (element (integer (positive (suc n))) rest) =
    read_dims key tensor_name (dims ++ (suc n ∷ [])) rest
read_dims key tensor_name dims (element _ rest) =
    complain tensor_name (quoted "array field '" key "' must contain positive integers") dims

unfoldable pub read_required_dims : JsonObject → String → List ℕ → Reading (List ℕ)
read_required_dims members key tensor_name = elim (as_array (find_member members (text key))) [
  | none ↦ complain tensor_name (quoted "missing or invalid array field '" key "'") []
  | some elements ↦ read_dims key tensor_name [] elements
]
