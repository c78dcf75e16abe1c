-- ===== src/Proxy/Json.antt =====
-- What internal/proxy uses of encoding/json, as functions that every user takes as an argument. A
-- `json.RawMessage` is its text; a map of them is the list of its entries.
use shimiaocheng_llm.Prelude.{
  Bool, List, [], ◌∷◌, Option, none, some, Text, text_eq, if◌then◌else◌, ℤ,
}

-- What the upstream says that a request has used; it may send negative numbers.
pub record Usage : Type 0 where
  pub prompt_tokens : ℤ
  pub completion_tokens : ℤ
  pub total_tokens : ℤ

pub record Json : Type 0 where
  -- `json.Unmarshal` into a map, a slice, and the structs of the package; `none` is an error.
  pub object_of : Text → Option (List (Text × Text))
  pub array_of : Text → Option (List Text)
  pub parts_of : Text → Option (List (Text × Text))
  pub role_of : Text → Option Text
  pub model_of : Text → Option Text
  pub request_of : Text → Option (Text × Bool)
  pub usage_of : Text → Option Usage
  pub chunk_usage_of : Text → Option (Option Usage)
  -- `json.Marshal`.
  pub from_object : List (Text × Text) → Option Text
  pub from_array : List Text → Option Text
  pub from_string : Text → Text

-- `m[key] = value`.
unfoldable pub put : Text → Text → List (Text × Text) → List (Text × Text)
put key value [] = (key, value) ∷ []
put key value ((k, v) ∷ m) =
    let rest = put key value m in if text_eq k key then (k, value) ∷ m else (k, v) ∷ rest

unfoldable pub get_or {ℓ} : {A : Type ℓ} → Option A → A → A
get_or none d = d
get_or (some a) d = a

-- A slice of maps: the decoding fails where that of an element fails.
unfoldable pub objects_of : Json → List Text → Option (List (List (Text × Text)))
objects_of j [] = some []
objects_of j (t ∷ ts) = elim (j.object_of t) [
  | none ↦ none
  | some o ↦ elim (objects_of j ts) [ none ↦ none | some os ↦ some (o ∷ os) ]
]

unfoldable pub from_objects : Json → List (List (Text × Text)) → Option (List Text)
from_objects j [] = some []
from_objects j (o ∷ os) = elim (j.from_object o) [
  | none ↦ none
  | some t ↦ elim (from_objects j os) [ none ↦ none | some ts ↦ some (t ∷ ts) ]
]
