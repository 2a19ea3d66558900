-- ===== src/Extensions/Records/Schema.antt =====
-- `validateData` of backend/src/platform/extension-runtime.service.ts. The data is the list of its keys
-- and values; a value is told apart as far as the check does.
use wattanman.Base.{
  String, Bool, true, false, not, ◌&&◌, Option, none, some, List, [], ◌∷◌, any, str_eq,
  if◌then◌else◌, Result, ok, bad_request, throw_if, ◌>>◌,
}

pub data Kind : Type 0 where
  number boolean text date other : Kind

pub record Field : Type 0 where
  pub key : String
  pub kind : Kind
  pub required : Bool

pub data Value : Type 0 where
  null number_value boolean_value structure : Value
  text_value : String → Value

-- `data[key]`
unfoldable pub value_of : String → List (String × Value) → Option Value
value_of key [] = none
value_of key ((k, v) ∷ rest) =
    let found = value_of key rest in if str_eq k key then some v else found

abbrev is_known : List Field → String → Bool
is_known fields key = any (λ f. str_eq f.key key) fields

-- `Object.keys(data)` are all known.
unfoldable pub known_keys : List Field → List (String × Value) → Result (Unit {0})
known_keys fields [] = ok tt
known_keys fields ((k, v) ∷ rest) =
    throw_if (not (is_known fields k)) bad_request >> known_keys fields rest

abbrev pub is_blank : Option Value → Bool
is_blank none = true
is_blank (some null) = true
is_blank (some (text_value t)) = str_eq t ""
is_blank (some v) = false

-- The type of a value that is there; a missing one and `null` are passed over.
abbrev pub has_kind : Kind → Option Value → Bool
has_kind kind none = true
has_kind kind (some null) = true
has_kind number (some number_value) = true
has_kind number (some v) = false
has_kind boolean (some boolean_value) = true
has_kind boolean (some v) = false
has_kind text (some (text_value t)) = true
has_kind text (some v) = false
has_kind date (some (text_value t)) = true
has_kind date (some v) = false
has_kind other (some v) = true

abbrev check_field : Field → Option Value → Result (Unit {0})
check_field f v = do
  throw_if (f.required && is_blank v) bad_request
  throw_if (not (has_kind f.kind v)) bad_request

unfoldable pub check_fields : List Field → List (String × Value) → Result (Unit {0})
check_fields [] pairs = ok tt
check_fields (f ∷ fs) pairs = check_field f (value_of f.key pairs) >> check_fields fs pairs

unfoldable pub validate_data : List Field → List (String × Value) → Result (Unit {0})
unfolding known_keys check_fields
validate_data fields pairs = known_keys fields pairs >> check_fields fields pairs
