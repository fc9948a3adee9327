-- ===== src/Tools/Schema.antt =====
-- `cast_params` and `validate_params` of nanobot/agent/tools/base.py. A schema is read with its
-- keywords in the kinds that JSON Schema gives them; texts are lists of code points.
pub mod Validate
pub mod Valid
pub mod Agrees
pub mod Cast
use eeebot_self_evolving.Prelude.{
  ℕ, zero, suc, ◌-◌, ◌*◌, ◌^◌, Bool, true, false, ◌&&◌, ◌||◌, not, Option, none, some, String, List,
  [], ◌∷◌, ◌++◌, str_eq, ltb, if◌then◌else◌, length, codes,
}
use eeebot_self_evolving.Prelude.Int.{ℤ, pos, negsuc, pos_part, ◌-ℤ◌, ltb_ℤ, leb_ℤ}
use eeebot_self_evolving.Prelude.Json.{Json, Items, Fields}
use eeebot_self_evolving.Runtime.Dict.{lookup}
use eeebot_self_evolving.Providers.Sanitize.{has_key}

-- The keyword `type`: missing, a name, or a list of names.
pub data TypeSpec : Type 0 where
  untyped : TypeSpec
  single : String → TypeSpec
  union : List String → TypeSpec

-- The keywords that hold no schema.
pub record Limits : Type 0 where
  pub enum : Option Items
  pub minimum : Option Json
  pub maximum : Option Json
  pub min_length : Option ℕ
  pub max_length : Option ℕ
  pub required : List String

mutual
  pub data Schema : Type 0 where
    schema : TypeSpec → Limits → Properties → ItemSchema → Schema

  pub data Properties : Type 0 where
    none_left : Properties
    property : String → Schema → Properties → Properties

  pub data ItemSchema : Type 0 where
    any_item : ItemSchema
    each : Schema → ItemSchema

-- `int` and `float` of a text, `str.lower`, `str` of a value, and how an f-string shows values and numbers.
pub record Texts : Type 0 where
  pub int_of : String → Option ℤ
  pub float_of : String → Option Json
  pub lower : String → String
  pub str_of : Json → String
  pub show : Json → List ℕ
  pub decimal : ℕ → List ℕ

-- `_resolve_type`
unfoldable pub resolve_type : TypeSpec → Option String
resolve_type untyped = none
resolve_type (single t) = some t
resolve_type (union []) = none
resolve_type (union (t ∷ ts)) =
    let later = resolve_type (union ts) in if str_eq t "null" then later else some t

unfoldable pub is_nullable : TypeSpec → Bool
is_nullable (union []) = false
is_nullable (union (t ∷ ts)) = str_eq t "null" || is_nullable (union ts)
is_nullable _ = false

abbrev pub is_null : Json → Bool
is_null Json.null = true
is_null _ = false

-- `isinstance(val, _TYPE_MAP[t])`, where a Boolean is no number; `none` is a `t` without an entry.
unfoldable pub instance_of : String → Json → Option Bool
instance_of t v =
    if str_eq t "string"
    then some (elim v [ Json.str _ ↦ true | _ ↦ false ])
    else if str_eq t "integer"
    then some (elim v [ Json.int _ ↦ true | _ ↦ false ])
    else if str_eq t "number"
    then some (elim v [ Json.int _ ↦ true | Json.float _ _ ↦ true | _ ↦ false ])
    else if str_eq t "boolean"
    then some (elim v [ Json.bool _ ↦ true | _ ↦ false ])
    else if str_eq t "array"
    then some (elim v [ Json.arr _ ↦ true | _ ↦ false ])
    else if str_eq t "object"
    then some (elim v [ Json.obj _ ↦ true | _ ↦ false ])
    else none

abbrev pub mismatch : Option String → Json → Bool
mismatch none v = false
mismatch (some t) v = elim (instance_of t v) [ none ↦ false | some fits ↦ not fits ]

abbrev pub is_type : String → Option String → Bool
is_type name none = false
is_type name (some t) = str_eq t name

-- `m * 2 ^ k`
abbrev scale : ℤ → ℕ → ℤ
scale (pos n) k = pos (n * 2 ^ k)
scale (negsuc n) k = elim (suc n * 2 ^ k) [ zero ↦ pos 0 | suc m ↦ negsuc m ]

-- A number as a mantissa and an exponent.
abbrev mantissa : Json → ℤ
mantissa (Json.int n) = n
mantissa (Json.float m e) = m
mantissa (Json.bool true) = pos 1
mantissa _ = pos 0

abbrev exponent : Json → ℤ
exponent (Json.float m e) = e
exponent _ = pos 0

-- `a` at the exponent of `b`, where that is smaller.
abbrev aligned : Json → Json → ℤ
aligned a b = scale (mantissa a) (pos_part (exponent a -ℤ exponent b))

-- `a < b` on numbers
unfoldable pub less : Json → Json → Bool
unfolding ◌-ℤ◌
less a b = ltb_ℤ (aligned a b) (aligned b a)

abbrev same_number : Json → Json → Bool
same_number a b = not (less a b) && not (less b a)

-- Every key of `e` is one of `d`.
abbrev covers : Fields → Fields → Bool
covers d Fields.end = true
covers d (Fields.field k v e) = has_key k d && covers d e

abbrev same_scalar : Json → Json → Bool
same_scalar a b = elim b [
  | Json.bool y ↦ same_number a (Json.bool y)
  | Json.int n ↦ same_number a (Json.int n)
  | Json.float m e ↦ same_number a (Json.float m e)
  | _ ↦ false
]

-- `a == b`
unfoldable mutual
  unfolding less

  pub same_json : Json → Json → Bool
  same_json Json.null b = is_null b
  same_json (Json.str s) b = elim b [ Json.str t ↦ str_eq s t | _ ↦ false ]
  same_json (Json.arr xs) b = elim b [ Json.arr ys ↦ same_items xs ys | _ ↦ false ]
  same_json (Json.obj d) b = elim b [ Json.obj e ↦ fields_in d e && covers d e | _ ↦ false ]
  same_json (Json.bool x) b = same_scalar (Json.bool x) b
  same_json (Json.int n) b = same_scalar (Json.int n) b
  same_json (Json.float m e) b = same_scalar (Json.float m e) b

  same_items : Items → Items → Bool
  same_items Items.nil ys = elim ys [ Items.nil ↦ true | _ ↦ false ]
  same_items (Items.cons x xs) ys = elim ys [
    | Items.nil ↦ false
    | Items.cons y rest ↦ same_json x y && same_items xs rest
  ]

  fields_in : Fields → Fields → Bool
  fields_in Fields.end e = true
  fields_in (Fields.field k v d) e = (has_key k e && same_json v (lookup k e)) && fields_in d e

abbrev pub is_member : Json → Items → Bool
is_member v Items.nil = false
is_member v (Items.cons w rest) = same_json v w || is_member v rest

unfoldable pub find_property : String → Properties → Option Schema
find_property k none_left = none
find_property k (property j s rest) =
    let later = find_property k rest in if str_eq j k then some s else later
