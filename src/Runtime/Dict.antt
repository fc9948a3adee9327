-- ===== src/Runtime/Dict.antt =====
-- Python dicts with text keys, as JSON objects, and the truth of a JSON value.
use eeebot_self_evolving.Prelude.{
  Bool, true, false, not, List, [], ◌∷◌, String, str_eq, eq_iff, if◌then◌else◌, ◌≡◌, refl, arith,
  Bool-cases, inl, inr,
}
use eeebot_self_evolving.Prelude.Int.{nonzero}
use eeebot_self_evolving.Prelude.Json.{Json, Items, Fields}

-- `d.get(k)`, where a missing key and `null` are both `None`.
abbrev pub lookup : String → Fields → Json
lookup k Fields.end = Json.null
lookup k (Fields.field j v rest) = let later = lookup k rest in if str_eq j k then v else later

-- `{**d, k: v}`
abbrev pub assign : String → Json → Fields → Fields
assign k v Fields.end = Fields.field k v Fields.end
assign k v (Fields.field j u rest) =
    let later = assign k v rest in
    if str_eq j k then Fields.field j v rest else Fields.field j u later

-- `{**d, **changes}`
abbrev pub assign_all : List (String × Json) → Fields → Fields
assign_all [] d = d
assign_all ((k, v) ∷ rest) d = assign_all rest (assign k v d)

-- The dict of a literal.
abbrev pub dict : List (String × Json) → Fields
dict entries = assign_all entries Fields.end

-- `d if isinstance(d, dict) else {}`
abbrev pub as_dict : Json → Fields
as_dict (Json.obj d) = d
as_dict _ = Fields.end

abbrev pub is_true : Json → Bool
is_true Json.null = false
is_true (Json.bool b) = b
is_true (Json.int n) = nonzero n
is_true (Json.float m e) = nonzero m
is_true (Json.str s) = not (str_eq s "")
is_true (Json.arr Items.nil) = false
is_true (Json.arr (Items.cons _ _)) = true
is_true (Json.obj Fields.end) = false
is_true (Json.obj (Fields.field _ _ _)) = true

-- `a or b`
abbrev pub either : Json → Json → Json
either a b = if is_true a then a else b

-- `v == text`
abbrev pub is_text : String → Json → Bool
is_text t (Json.str s) = str_eq s t
is_text t _ = false

str_eq_refl : (k : String) → str_eq k k ≡ true
str_eq_refl k = (eq_iff k k).1 refl

pub lookup-assign : (k : String) (v : Json) (d : Fields) → lookup k (assign k v d) ≡ v
lookup-assign k v Fields.end = let e = str_eq_refl k in ground arith
lookup-assign k v (Fields.field j u rest) = let ih = lookup-assign k v rest in ground arith

pub lookup-assign_other :
    (k i : String) (v : Json) (d : Fields)
    → str_eq k i ≡ false
    → lookup i (assign k v d) ≡ lookup i d
lookup-assign_other k i v Fields.end h = ground arith
lookup-assign_other k i v (Fields.field j u rest) h =
    let ih = lookup-assign_other k i v rest h in
    elim (Bool-cases (str_eq j k)) [
      | inl e ↦
          let same : j ≡ k = (eq_iff j k).0 e in
          let other : str_eq j i ≡ false = rw same h in ground arith
      | inr e ↦ ground arith
    ]
