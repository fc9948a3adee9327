-- ===== src/Tools/Schema/Cast.antt =====
-- `cast_params` of nanobot/agent/tools/base.py, and what it changes.
use mathlib.Core.Path.{subst}
use eeebot_self_evolving.Prelude.{
  sym, ◌∙◌, Bool, true, false, ◌||◌, Option, none, some, String, str_eq, if◌then◌else◌, ◌≡◌, ◌⊎◌,
  ◌++◌, [], ◌∷◌, refl, arith, inl, inr, Bool-cases, Option-cases, both_true,
}
use eeebot_self_evolving.Prelude.Json.{Json, Items, Fields}
use eeebot_self_evolving.Prelude.Effects.{ok_inj, Result, ok, raise, exception}
use eeebot_self_evolving.Tools.{Output, Tool, Registry, Runs, find_tool, execute_tool}
use eeebot_self_evolving.Tools.Calls.{execute_tool-RanValid}
use eeebot_self_evolving.Tools.Schema.{
  TypeSpec, single, Schema, schema, Properties, ItemSchema, any_item, each, Texts, resolve_type,
  is_nullable, is_null, instance_of, mismatch, is_type, find_property,
}
use eeebot_self_evolving.Tools.Schema.Validate.{is_object, as_object, validate, validate_params}
use eeebot_self_evolving.Tools.Schema.Valid.{Accepts, IsValid, AreValidFields, AreValidItems}
use eeebot_self_evolving.Tools.Schema.Agrees.{validate_lem}

module _ (x : Texts) where
  abbrev is_any : String → String → String → String → Bool
  is_any a b c v = str_eq v a || (str_eq v b || str_eq v c)

  -- A text as a Boolean.
  abbrev pub cast_boolean : String → Json
  cast_boolean s =
      if is_any "true" "1" "yes" (x.lower s)
      then Json.bool true
      else if is_any "false" "0" "no" (x.lower s)
      then Json.bool false
      else Json.str s

  unfoldable pub cast_text : Option String → String → Json
  cast_text t s =
      if is_type "string" t
      then Json.str s
      else if is_type "integer" t
      then (elim (x.int_of s) [ none ↦ Json.str s | some n ↦ Json.int n ])
      else if is_type "number" t
      then (elim (x.float_of s) [ none ↦ Json.str s | some v ↦ v ])
      else if is_type "boolean" t
      then cast_boolean s
      else Json.str s

  -- A value that is neither a text nor null, where `v` is asked for as a text.
  abbrev pub as_text : Option String → Json → Json → Json
  as_text t v other = if is_type "string" t then Json.str (x.str_of v) else other

  unfoldable mutual
    unfolding cast_text resolve_type find_property

    pub cast_value : Json → Schema → Json
    cast_value Json.null s = Json.null
    cast_value (Json.str t) (schema ty lim props items) = cast_text (resolve_type ty) t
    cast_value (Json.arr vs) (schema ty lim props items) =
        let cast = cast_items vs items in
        as_text (resolve_type ty) (Json.arr vs)
          (if is_type "array" (resolve_type ty) then Json.arr cast else Json.arr vs)
    cast_value (Json.obj d) (schema ty lim props items) =
        let cast = cast_object d props in
        as_text (resolve_type ty) (Json.obj d)
          (if is_type "object" (resolve_type ty) then Json.obj cast else Json.obj d)
    cast_value v (schema ty lim props items) = as_text (resolve_type ty) v v

    pub cast_object : Fields → Properties → Fields
    cast_object Fields.end props = Fields.end
    cast_object (Fields.field k v d) props =
        Fields.field k (elim (find_property k props) [ none ↦ v | some s ↦ cast_value v s ])
          (cast_object d props)

    pub cast_items : Items → ItemSchema → Items
    cast_items Items.nil items = Items.nil
    cast_items (Items.cons v vs) any_item = Items.cons v vs
    cast_items (Items.cons v vs) (each s) = Items.cons (cast_value v s) (cast_items vs (each s))

  abbrev properties_of : Schema → Properties
  properties_of (schema ty lim props items) = props

  -- `cast_params`
  unfoldable pub cast_params : Schema → Fields → Fields
  unfolding cast_object
  cast_params s params =
      let cast = cast_object params (properties_of s) in if is_object x s then cast else params

  fits_text :
      (t : Option String) (s : String)
      → mismatch t (Json.str s) ≡ false
      → cast_text t s ≡ Json.str s
  unfolding cast_text instance_of
  fits_text none s h = refl
  fits_text (some t) s h = ground arith

  fits_items :
      (t : Option String) (vs cast : Items)
      → mismatch t (Json.arr vs) ≡ false
      → (is_type "array" t ≡ true → cast ≡ vs)
      → as_text t (Json.arr vs) (if is_type "array" t then Json.arr cast else Json.arr vs)
        ≡ Json.arr vs
  unfolding instance_of
  fits_items none vs cast h same = refl
  fits_items (some t) vs cast h same = ground arith

  fits_object :
      (t : Option String) (d cast : Fields)
      → mismatch t (Json.obj d) ≡ false
      → (is_type "object" t ≡ true → cast ≡ d)
      → as_text t (Json.obj d) (if is_type "object" t then Json.obj cast else Json.obj d)
        ≡ Json.obj d
  unfolding instance_of
  fits_object none d cast h same = refl
  fits_object (some t) d cast h same = ground arith

  -- A value that is no text stays where no text is asked for.
  stays :
      (t : Option String) (v : Json)
      → instance_of "string" v ≡ some false
      → mismatch t v ≡ false
      → as_text t v v ≡ v
  unfolding instance_of
  stays none v s h = refl
  stays (some t) v s h = ground arith

  accepted :
      {P : Type 0} (ty : TypeSpec) (v : Json)
      → is_null v ≡ false
      → Accepts ty v P
      → (mismatch (resolve_type ty) v ≡ false) × P
  accepted ty v n (inl e) = let (a, b) = both_true (is_nullable ty) (is_null v) e in absurd cc
  accepted ty v n (inr h) = h

  mutual
    unfolding cast_value cast_object cast_items IsValid AreValidFields AreValidItems instance_of

    cast_value-valid : (v : Json) (s : Schema) → IsValid x v s → cast_value v s ≡ v
    cast_value-valid Json.null s h = refl
    cast_value-valid (Json.str t) (schema ty lim props items) h =
        fits_text (resolve_type ty) t (accepted ty (Json.str t) refl h).0
    cast_value-valid (Json.arr vs) (schema ty lim props items) h =
        let (fits, (within, array)) = accepted ty (Json.arr vs) refl h in
        fits_items (resolve_type ty) vs (cast_items vs items) fits
          (λ a. cast_items-valid vs items (array a))
    cast_value-valid (Json.obj d) (schema ty lim props items) h =
        let (fits, (within, object)) = accepted ty (Json.obj d) refl h in
        fits_object (resolve_type ty) d (cast_object d props) fits
          (λ o. cast_object-valid d props (object o).1)
    cast_value-valid (Json.bool b) (schema ty lim props items) h =
        stays (resolve_type ty) (Json.bool b) refl (accepted ty (Json.bool b) refl h).0
    cast_value-valid (Json.int n) (schema ty lim props items) h =
        stays (resolve_type ty) (Json.int n) refl (accepted ty (Json.int n) refl h).0
    cast_value-valid (Json.float m e) (schema ty lim props items) h =
        stays (resolve_type ty) (Json.float m e) refl (accepted ty (Json.float m e) refl h).0

    cast_object-valid :
        (d : Fields) (props : Properties) → AreValidFields x d props → cast_object d props ≡ d
    cast_object-valid Fields.end props h = refl
    cast_object-valid (Fields.field k v d) props (h, hs) =
        elim (Option-cases (find_property k props)) [
          | inl e ↦ rw (e, cast_object-valid d props hs) refl
          | inr (s, e) ↦ rw (e, cast_value-valid v s (h s e), cast_object-valid d props hs) refl
        ]

    cast_items-valid :
        (vs : Items) (items : ItemSchema) → AreValidItems x vs items → cast_items vs items ≡ vs
    cast_items-valid Items.nil items h = refl
    cast_items-valid (Items.cons v vs) any_item h = refl
    cast_items-valid (Items.cons v vs) (each s) (h, hs) =
        rw (cast_value-valid v s h, cast_items-valid vs (each s) hs) refl

module _ (x : Texts) where
  object-AreValid :
      (s : Schema) (params : Fields)
      → IsValid x (Json.obj params) (as_object x s)
      → AreValidFields x params (properties_of x s)
  unfolding IsValid resolve_type
  object-AreValid (schema ty lim props items) params h =
      ((accepted x (single "object") (Json.obj params) refl h).1.1 refl).1

  -- What the validation lets through.
  validate_params-IsValid :
      (s : Schema) (params : Fields)
      → validate_params x s params ≡ ok []
      → (is_object x s ≡ true) × IsValid x (Json.obj params) (as_object x s)
  unfolding validate_params
  validate_params-IsValid s params h = elim (Bool-cases (is_object x s)) [
    | inl e ↦
        let h' : ok (validate x (Json.obj params) (as_object x s) []) ≡ ok [] = rw e at h in
        (e, (validate_lem x (Json.obj params) (as_object x s) []).0 cc)
    | inr e ↦
        let h' : raise (exception "Schema must be object type") ≡ ok [] = rw e at h in absurd cc
  ]

-- The cast leaves parameters as they are in which the validation finds no error: it only changes
-- what would be refused.
pub cast_params-validate_params :
    (x : Texts) (s : Schema) (params : Fields)
    → validate_params x s params ≡ ok []
    → cast_params x s params ≡ params
unfolding cast_params
cast_params-validate_params x s params h =
    let (object, valid) = validate_params-IsValid x s params h in
    rw object (cast_object-valid x params (properties_of x s) (object-AreValid x s params valid))

-- A tool with a schema.
abbrev pub schema_tool : Texts → String → Json → Schema → (Fields → Result Output) → Tool
schema_tool x name definition s run = record {
  name = name;
  definition = definition;
  cast_params = λ params. ok (cast_params x s params);
  validate_params = λ params. validate_params x s params;
  execute = run;
}

some_inj : {a b : Tool} → some a ≡ some b → a ≡ b
some_inj h = cc

-- When the registry has a tool with a schema under the name, executing it runs no tool, or it runs this tool
-- with the parameters that the cast of its schema gives, and these are valid for the schema.
pub execute_tool-IsValid :
    (x : Texts) (s : Schema) (name : String) (definition : Json) (run : Fields → Result Output)
    (tools : Registry) (params : Fields) (runs : Runs)
    → find_tool name tools ≡ some (schema_tool x name definition s run)
    → let (r, runs') = execute_tool tools name params runs in
      (runs' ≡ runs)
      ⊎ (IsValid x (Json.obj (cast_params x s params)) (as_object x s)
          × (runs' ≡ runs ++ (name, cast_params x s params) ∷ []))
execute_tool-IsValid x s name definition run tools params runs h =
    elim (execute_tool-RanValid tools name params runs).1 [
      | inl same ↦ inl same
      | inr (t, cast, found, casts, valid, ran) ↦
          let tool = schema_tool x name definition s run in
          let same : t ≡ tool = some_inj (sym found ∙ h) in
          let cast_same : cast_params x s params ≡ cast =
            ok_inj (subst (λ (u : Tool). u.cast_params params ≡ ok cast) same casts) in
          let valid' : validate_params x s cast ≡ ok [] =
            subst (λ (u : Tool). u.validate_params cast ≡ ok []) same valid in
          let is_valid =
            (validate_params-IsValid x s (cast_params x s params) (rw cast_same valid')).1 in
          inr (is_valid, rw cast_same ran)
    ]
