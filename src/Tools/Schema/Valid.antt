-- ===== src/Tools/Schema/Valid.antt =====
-- What a schema asks for, and the errors of nanobot/agent/tools/base.py.
use eeebot_self_evolving.Prelude.{
  ℕ, Bool, true, false, ◌&&◌, not, Option, none, some, String, List, [], ◌∷◌, ◌++◌, ◌≡◌, ◌≤◌, ◌⊎◌,
  refl, ap, ltb, arith,
}
use eeebot_self_evolving.Prelude.Json.{Json, Items, Fields}
use eeebot_self_evolving.Providers.Sanitize.{has_key}
use eeebot_self_evolving.Tools.Schema.{
  TypeSpec, Limits, Schema, schema, Properties, ItemSchema, any_item, each, Texts, resolve_type,
  is_nullable, is_null, mismatch, is_type, less, is_member, find_property,
}
use eeebot_self_evolving.Tools.Schema.Validate.{
  Errors, error_if, optional, only_if, enum_error, minimum_error, maximum_error, text_length,
  min_length_error, max_length_error, is_numeric, limit_errors,
}

-- The value keeps to the keywords that hold no schema.
pub record IsWithin (x : Texts) (lim : Limits) (t : Option String) (v : Json) : Type 0 where
  pub enum : (values : Items) → lim.enum ≡ some values → is_member v values ≡ true
  pub minimum : (low : Json) → is_numeric x t ≡ true → lim.minimum ≡ some low → less v low ≡ false
  pub maximum :
      (high : Json) → is_numeric x t ≡ true → lim.maximum ≡ some high → less high v ≡ false
  pub min_length :
      (n : ℕ) → is_type "string" t ≡ true → lim.min_length ≡ some n → n ≤ text_length x v
  pub max_length :
      (n : ℕ) → is_type "string" t ≡ true → lim.max_length ≡ some n → text_length x v ≤ n

pub nil_parts : {A : Type 0} (xs ys : List A) → xs ++ ys ≡ [] → (xs ≡ []) × (ys ≡ [])
nil_parts [] ys h = (refl, h)
nil_parts (x ∷ xs) ys h = cc

pub nil_append : {A : Type 0} {xs ys : List A} → xs ≡ [] → ys ≡ [] → xs ++ ys ≡ []
nil_append h k = rw (h, k) refl

pub no_error : (b : Bool) (e : List ℕ) → error_if b e ≡ [] → b ≡ false
no_error true e h = cc
no_error false e h = refl

pub optional_none :
    {A : Type 0} (o : Option A) (f : A → Errors)
    → optional o f ≡ []
    → (a : A) → o ≡ some a
    → f a ≡ []
optional_none none f h a e = absurd cc
optional_none (some b) f h a e = let same : b ≡ a = cc in rw (ap f same) at h

pub optional_nil :
    {A : Type 0} (o : Option A) (f : A → Errors)
    → ((a : A) → o ≡ some a → f a ≡ [])
    → optional o f ≡ []
optional_nil none f h = refl
optional_nil (some b) f h = h b refl

pub only_if_none : (b : Bool) (es : Errors) → only_if b es ≡ [] → b ≡ true → es ≡ []
only_if_none true es h e = h
only_if_none false es h e = absurd cc

pub only_if_nil : (b : Bool) (es : Errors) → (b ≡ true → es ≡ []) → only_if b es ≡ []
only_if_nil true es h = h refl
only_if_nil false es h = refl

pub error_nil : (b : Bool) (e : List ℕ) → b ≡ false → error_if b e ≡ []
error_nil b e h = rw h refl

pub not-false : (b : Bool) → not b ≡ false → b ≡ true
not-false b h = ground arith

-- The value is null where that is allowed, or it has the type and the rest holds.
abbrev pub Accepts : TypeSpec → Json → Type 0 → Type 0
Accepts ty v Rest =
    ((is_nullable ty && is_null v) ≡ true) ⊎ ((mismatch (resolve_type ty) v ≡ false) × Rest)

abbrev pub HasAll : List String → Fields → Type 0
HasAll [] d = Unit
HasAll (k ∷ ks) d = (has_key k d ≡ true) × HasAll ks d

-- The value is what the schema asks for.
unfoldable mutual
  pub IsValid : Texts → Json → Schema → Type 0
  IsValid x (Json.obj d) (schema ty lim props items) =
      let t = resolve_type ty in
      Accepts ty (Json.obj d) (
        IsWithin x lim t (Json.obj d)
        × (is_type "object" t ≡ true → HasAll lim.required d × AreValidFields x d props))
  IsValid x (Json.arr vs) (schema ty lim props items) =
      let t = resolve_type ty in
      Accepts ty (Json.arr vs)
        (IsWithin x lim t (Json.arr vs) × (is_type "array" t ≡ true → AreValidItems x vs items))
  IsValid x v (schema ty lim props items) = Accepts ty v (IsWithin x lim (resolve_type ty) v)

  -- Every property that the schema knows is valid.
  pub AreValidFields : Texts → Fields → Properties → Type 0
  AreValidFields x Fields.end props = Unit
  AreValidFields x (Fields.field k v d) props =
      ((s : Schema) → find_property k props ≡ some s → IsValid x v s) × AreValidFields x d props

  pub AreValidItems : Texts → Items → ItemSchema → Type 0
  AreValidItems x Items.nil items = Unit
  AreValidItems x (Items.cons v vs) any_item = Unit
  AreValidItems x (Items.cons v vs) (each s) = IsValid x v s × AreValidItems x vs (each s)

module _ (x : Texts) (lim : Limits) (t : Option String) (v : Json) (path : List ℕ) where
  abbrev enum : Errors
  enum = optional lim.enum (enum_error x v path)

  abbrev range : Errors
  range =
      optional lim.minimum (minimum_error x v path) ++ optional lim.maximum (maximum_error x v path)

  abbrev lengths : Errors
  lengths =
      optional lim.min_length (min_length_error x v path)
      ++ optional lim.max_length (max_length_error x v path)

  pub limit_errors-IsWithin : limit_errors x lim t v path ≡ [] → IsWithin x lim t v
  unfolding limit_errors
  limit_errors-IsWithin h =
      let (first, texts) =
        nil_parts (enum ++ only_if (is_numeric x t) range) (only_if (is_type "string" t) lengths)
          h in
      let (enums, ranges) = nil_parts enum (only_if (is_numeric x t) range) first in
      let in_range = λ (n : is_numeric x t ≡ true).
        nil_parts _ (optional lim.maximum (maximum_error x v path))
          (only_if_none (is_numeric x t) range ranges n) in
      let in_length = λ (n : is_type "string" t ≡ true).
        nil_parts _ (optional lim.max_length (max_length_error x v path))
          (only_if_none (is_type "string" t) lengths texts n) in
      record {
        enum = λ values e. not-false _ (no_error _ _ (optional_none _ _ enums values e));
        minimum = λ low n e. no_error _ _ (optional_none _ _ (in_range n).0 low e);
        maximum = λ high n e. no_error _ _ (optional_none _ _ (in_range n).1 high e);
        min_length = λ n s e.
            let short = no_error _ _ (optional_none _ _ (in_length s).0 n e) in ground arith;
        max_length = λ n s e.
            let long = no_error _ _ (optional_none _ _ (in_length s).1 n e) in ground arith;
      }

  pub IsWithin-limit_errors : IsWithin x lim t v → limit_errors x lim t v path ≡ []
  unfolding limit_errors
  IsWithin-limit_errors h =
      nil_append
        (nil_append
          (optional_nil lim.enum (enum_error x v path)
            (λ values e. error_nil _ _ (rw (h.enum values e) refl)))
          (only_if_nil (is_numeric x t) range (λ n.
            nil_append
              (optional_nil lim.minimum (minimum_error x v path)
                (λ low e. error_nil _ _ (h.minimum low n e)))
              (optional_nil lim.maximum (maximum_error x v path)
                (λ high e. error_nil _ _ (h.maximum high n e))))))
        (only_if_nil (is_type "string" t) lengths (λ s.
          nil_append
            (optional_nil lim.min_length (min_length_error x v path)
              (λ n e. error_nil _ _ (not_short n (h.min_length n s e))))
            (optional_nil lim.max_length (max_length_error x v path)
              (λ n e. error_nil _ _ (not_long n (h.max_length n s e))))))
    where
      not_short : (n : ℕ) → n ≤ text_length x v → ltb (text_length x v) n ≡ false
      not_short n le = ground arith

      not_long : (n : ℕ) → text_length x v ≤ n → ltb n (text_length x v) ≡ false
      not_long n le = ground arith
