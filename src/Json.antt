-- ===== src/Json.antt =====
-- nlohmann::json, a third-party library, as the program uses it: a JSON value shows one of the kinds
-- below, and an object is a map in the order of its keys.
use langgraph_cpp.Prelude.{ℕ, String, ◌≡◌, Bool, true, false, Option, none, some, List, []}
use langgraph_cpp.Prelude.Map.{Map}

-- One level of a value. `other` stands for the kinds that the modelled code never looks into:
-- negative integers, floating-point numbers and binary data.
pub data View (J O : Type 0) : Type 0 where
  null : View J O
  boolean : Bool → View J O
  unsigned : ℕ → View J O
  text : String → View J O
  array : List J → View J O
  object : Map String J → View J O
  other : O → View J O

pub record JsonLib : Type 1 where
  pub Value : Type 0
  pub Other : Type 0
  pub view : Value → View Value Other
  pub make : View Value Other → Value
  -- A value that was built shows what it was built from.
  pub view-make : (v : View Value Other) → view (make v) ≡ v

module _ ⦃J : JsonLib⦄ where
  abbrev pub Json : Type 0
  Json = J.Value

  abbrev pub Fields : Type 0
  Fields = Map String Json

  abbrev pub shown : Json → View Json J.Other
  shown = J.view

  abbrev pub json_null : Json
  json_null = J.make null

  abbrev pub json_text : String → Json
  json_text s = J.make (text s)

  abbrev pub json_unsigned : ℕ → Json
  json_unsigned n = J.make (unsigned n)

  abbrev pub json_array : List Json → Json
  json_array xs = J.make (array xs)

  abbrev pub json_object : Fields → Json
  json_object m = J.make (object m)

  abbrev pub array_of : View Json J.Other → Option (List Json)
  array_of (array xs) = some xs
  array_of _ = none

  abbrev pub object_of : View Json J.Other → Option Fields
  object_of (object m) = some m
  object_of _ = none

  abbrev pub text_of : View Json J.Other → Option String
  text_of (text s) = some s
  text_of _ = none

  abbrev pub unsigned_of : View Json J.Other → Option ℕ
  unsigned_of (unsigned n) = some n
  unsigned_of _ = none

  abbrev pub null_of : View Json J.Other → Bool
  null_of null = true
  null_of _ = false

  -- `is_array`, `is_object`, `is_string`, `is_number_unsigned`, each with the part it guards.
  abbrev pub as_array : Json → Option (List Json)
  as_array j = array_of (J.view j)

  abbrev pub as_object : Json → Option Fields
  as_object j = object_of (J.view j)

  abbrev pub as_text : Json → Option String
  as_text j = text_of (J.view j)

  abbrev pub as_unsigned : Json → Option ℕ
  as_unsigned j = unsigned_of (J.view j)

  abbrev pub is_null : Json → Bool
  is_null j = null_of (J.view j)

  abbrev fields_or_none : Option Fields → Fields
  fields_or_none none = []
  fields_or_none (some m) = m

  -- The fields of a value that is known to be an object.
  abbrev pub fields : Json → Fields
  fields j = fields_or_none (as_object j)
