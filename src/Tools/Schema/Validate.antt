-- ===== src/Tools/Schema/Validate.antt =====
-- `validate_params` and `_validate` of nanobot/agent/tools/base.py.
use eeebot_self_evolving.Prelude.{
  ℕ, suc, Bool, true, false, ◌&&◌, ◌||◌, not, Option, none, some, String, List, [], ◌∷◌, ◌++◌,
  str_eq, ltb, if◌then◌else◌, length, codes, or_else,
}
use eeebot_self_evolving.Prelude.Json.{Json, Items, Fields}
use eeebot_self_evolving.Prelude.Effects.{Result, ok, raise, exception}
use eeebot_self_evolving.Providers.Sanitize.{has_key}
use eeebot_self_evolving.Tools.Schema.{
  TypeSpec, untyped, single, union, Limits, Schema, schema, Properties, ItemSchema, any_item, each,
  Texts, resolve_type, is_nullable, is_null, mismatch, is_type, less, is_member, find_property,
}

abbrev pub Errors : Type 0
Errors = List (List ℕ)

abbrev pub error_if : Bool → List ℕ → Errors
error_if true e = e ∷ []
error_if false e = []

abbrev label : List ℕ → List ℕ
label [] = codes "parameter"
label path = path

-- `path + "." + k if path else k`
abbrev pub field_path : List ℕ → String → List ℕ
field_path [] k = codes k
field_path path k = path ++ b'.' ∷ codes k

-- The errors of a keyword, where it is given.
abbrev pub optional : {A : Type 0} → Option A → (A → Errors) → Errors
optional none f = []
optional (some a) f = f a

abbrev pub only_if : Bool → Errors → Errors
only_if true es = es
only_if false es = []

module _ (x : Texts) where
  abbrev pub enum_error : Json → List ℕ → Items → Errors
  enum_error v path values =
      error_if (not (is_member v values))
        (label path ++ codes " must be one of " ++ x.show (Json.arr values))

  abbrev pub minimum_error : Json → List ℕ → Json → Errors
  minimum_error v path low =
      error_if (less v low) (label path ++ codes " must be >= " ++ x.show low)

  abbrev pub maximum_error : Json → List ℕ → Json → Errors
  maximum_error v path high =
      error_if (less high v) (label path ++ codes " must be <= " ++ x.show high)

  abbrev pub text_length : Json → ℕ
  text_length (Json.str t) = length (codes t)
  text_length _ = 0

  abbrev pub min_length_error : Json → List ℕ → ℕ → Errors
  min_length_error v path low =
      error_if (ltb (text_length v) low)
        (label path ++ codes " must be at least " ++ x.decimal low ++ codes " chars")

  abbrev pub max_length_error : Json → List ℕ → ℕ → Errors
  max_length_error v path high =
      error_if (ltb high (text_length v))
        (label path ++ codes " must be at most " ++ x.decimal high ++ codes " chars")

  abbrev pub is_numeric : Option String → Bool
  is_numeric t = is_type "integer" t || is_type "number" t

  unfoldable pub limit_errors : Limits → Option String → Json → List ℕ → Errors
  limit_errors lim t v path =
      optional lim.enum (enum_error v path)
      ++ only_if (is_numeric t) (
          optional lim.minimum (minimum_error v path)
          ++ optional lim.maximum (maximum_error v path))
      ++ only_if (is_type "string" t) (
          optional lim.min_length (min_length_error v path)
          ++ optional lim.max_length (max_length_error v path))

  unfoldable pub required_errors : List String → Fields → List ℕ → Errors
  required_errors [] d path = []
  required_errors (k ∷ ks) d path =
      error_if (not (has_key k d)) (codes "missing required " ++ field_path path k)
      ++ required_errors ks d path

  -- The tests on null and on the type, in front of all others.
  unfoldable pub guarded : TypeSpec → Json → List ℕ → Errors → Errors
  unfolding is_nullable resolve_type
  guarded ty v path rest =
      if is_nullable ty && is_null v
      then []
      else if mismatch (resolve_type ty) v
      then (label path ++ codes " should be " ++ codes (or_else (resolve_type ty) "")) ∷ []
      else rest

  unfoldable mutual
    unfolding guarded limit_errors required_errors find_property resolve_type

    pub validate : Json → Schema → List ℕ → Errors
    validate (Json.obj d) (schema ty lim props items) path = guarded ty (Json.obj d) path (
        limit_errors lim (resolve_type ty) (Json.obj d) path
        ++ only_if (is_type "object" (resolve_type ty))
            (required_errors lim.required d path ++ validate_fields d props path))
    validate (Json.arr vs) (schema ty lim props items) path = guarded ty (Json.arr vs) path (
        limit_errors lim (resolve_type ty) (Json.arr vs) path
        ++ only_if (is_type "array" (resolve_type ty)) (validate_items vs items 0 path))
    validate v (schema ty lim props items) path =
        guarded ty v path (limit_errors lim (resolve_type ty) v path)

    pub validate_fields : Fields → Properties → List ℕ → Errors
    validate_fields Fields.end props path = []
    validate_fields (Fields.field k v d) props path =
        optional (find_property k props) (λ s. validate v s (field_path path k))
        ++ validate_fields d props path

    pub validate_items : Items → ItemSchema → ℕ → List ℕ → Errors
    validate_items Items.nil items i path = []
    validate_items (Items.cons v vs) any_item i path = []
    validate_items (Items.cons v vs) (each s) i path =
        validate v s (path ++ b'[' ∷ x.decimal i ++ b']' ∷ [])
        ++ validate_items vs (each s) (suc i) path

  -- `schema.get("type", "object") == "object"`
  abbrev pub is_object : Schema → Bool
  is_object (schema untyped lim props items) = true
  is_object (schema (single t) lim props items) = str_eq t "object"
  is_object (schema (union ts) lim props items) = false

  -- `{**schema, "type": "object"}`
  abbrev pub as_object : Schema → Schema
  as_object (schema ty lim props items) = schema (single "object") lim props items

  -- `validate_params`; the parameters are a dict.
  unfoldable pub validate_params : Schema → Fields → Result Errors
  unfolding validate
  validate_params s params =
      if is_object s
      then ok (validate (Json.obj params) (as_object s) [])
      else raise (exception "Schema must be object type")
