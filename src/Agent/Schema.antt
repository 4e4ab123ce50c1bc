-- ===== src/Agent/Schema.antt =====
-- internal/agent/schema.go: tool arguments against the supported subset of JSON Schema.
pub mod Typing
pub mod Conformance
use Prim.Native.Nat.{◌%◌, ◌^◌}
use ai_etl_platform.Common.{
  ℕ, zero, suc, ◌==◌, String, str_eq, is_blank, trim_space, Option, none, some, List, [], ◌∷◌, Bool,
  true, false, ◌&&◌, ◌||◌, not, if◌then◌else◌, Dict, get, has, Outcome, ok, err, check, ◌>>=◌, ◌>>◌,
  put, is_nil,
}
use ai_etl_platform.Agent.Types.{
  Fault, Float64, dyadic, Json, null, bool, num, str, arr, obj, Fields, end, field, RawMessage,
  no_bytes, malformed, encoded, bad_schema_root, malformed_arguments, arguments_not_object,
  missing_argument, unknown_argument, bad_argument,
}

pub record SchemaProperty : Type 0 where
  pub type : String
  pub description : String
  pub enum : List String

pub record JsonSchema : Type 0 where
  pub type : String
  pub required : List String
  pub properties : Dict SchemaProperty
  pub additional_properties : Bool

unfoldable pub contains : List String → String → Bool
contains [] target = false
contains (value ∷ values) target = str_eq value target || contains values target

-- math.Trunc(v) == v
abbrev pub is_whole : Float64 → Bool
is_whole (dyadic sign m k) = m % 2 ^ k == 0

abbrev pub is_string_in : List String → Json → Bool
is_string_in enum (str v) = is_nil enum || contains enum v
is_string_in enum _ = false

abbrev pub is_number : Json → Bool
is_number (num v) = true
is_number _ = false

abbrev pub is_integer : Json → Bool
is_integer (num v) = is_whole v
is_integer _ = false

abbrev pub is_boolean : Json → Bool
is_boolean (bool b) = true
is_boolean _ = false

abbrev pub is_object : Json → Bool
is_object (obj fs) = true
is_object _ = false

abbrev pub is_array : Json → Bool
is_array (arr xs) = true
is_array _ = false

-- the `switch` on the declared type; a type that is not listed there fits nothing
unfoldable pub fits : SchemaProperty → Json → Bool
fits prop value =
    if str_eq prop.type "" || str_eq prop.type "any"
    then true
    else if str_eq prop.type "string"
    then is_string_in prop.enum value
    else if str_eq prop.type "number"
    then is_number value
    else if str_eq prop.type "integer"
    then is_integer value
    else if str_eq prop.type "boolean"
    then is_boolean value
    else if str_eq prop.type "object"
    then is_object value
    else if str_eq prop.type "array"
    then is_array value
    else false

-- all the messages of this function name the argument: they are one error here
unfoldable pub validate_property : String → SchemaProperty → Json → Option Fault
validate_property name prop value = if fits prop value then none else some (bad_argument name)

-- `json.Unmarshal` into a map: the last of two equal names counts
abbrev members : Fields → Dict Json → Dict Json
members end m = m
members (field k v fs) m = members fs (put m k v)

-- JSON null leaves the map nil
abbrev decode_object : Json → Outcome Fault (Dict Json)
decode_object (obj fs) = ok (members fs [])
decode_object null = err arguments_not_object
decode_object _ = err malformed_arguments

abbrev decode : RawMessage → Outcome Fault (Dict Json)
decode no_bytes = ok []
decode malformed = err malformed_arguments
decode (encoded j) = decode_object j

first_missing : Dict Json → List String → Option Fault
first_missing args [] = none
first_missing args (name ∷ rest) =
    let later = first_missing args rest in
    if is_blank name
    then later
    else if has (get args (trim_space name))
    then later
    else some (missing_argument (trim_space name))

first_unknown : Dict SchemaProperty → Dict Json → Option Fault
first_unknown properties [] = none
first_unknown properties ((name, v) ∷ rest) =
    let later = first_unknown properties rest in
    if has (get properties name) then later else some (unknown_argument name)

misfit_at : String → SchemaProperty → Option Json → Option Fault
misfit_at name prop none = none
misfit_at name prop (some value) = validate_property name prop value

first_misfit : Dict Json → Dict SchemaProperty → Option Fault
first_misfit args [] = none
first_misfit args ((name, prop) ∷ rest) =
    let later = first_misfit args rest in
    elim (misfit_at name prop (get args name)) [ some e ↦ some e | none ↦ later ]

unfoldable pub validate_arguments : JsonSchema → RawMessage → Outcome Fault (Dict Json)
unfolding first_missing first_unknown first_misfit misfit_at validate_property
validate_arguments schema raw = do
  check (
      if is_blank schema.type || str_eq schema.type "object"
      then none
      else some (bad_schema_root schema.type))
  args ← decode raw
  check (first_missing args schema.required)
  check (if schema.additional_properties then none else first_unknown schema.properties args)
  check (first_misfit args schema.properties)
  ok args
