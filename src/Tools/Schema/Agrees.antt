-- ===== src/Tools/Schema/Agrees.antt =====
-- `_validate` of nanobot/agent/tools/base.py reports nothing on valid values, and on those alone.
use eeebot_self_evolving.Prelude.{
  ℕ, suc, ◌&&◌, not, String, List, [], ◌∷◌, ◌≡◌, ◌↔◌, refl, inl, inr, Bool-cases,
}
use eeebot_self_evolving.Prelude.Json.{Json, Items, Fields}
use eeebot_self_evolving.Providers.Sanitize.{has_key}
use eeebot_self_evolving.Tools.Schema.{
  TypeSpec, Schema, schema, Properties, ItemSchema, any_item, each, Texts, resolve_type,
  is_nullable, is_null, mismatch, is_type, find_property,
}
use eeebot_self_evolving.Tools.Schema.Validate.{
  Errors, limit_errors, required_errors, guarded, validate, validate_fields, validate_items,
  field_path,
}
use eeebot_self_evolving.Tools.Schema.Valid.{
  Accepts, HasAll, IsValid, AreValidFields, AreValidItems, nil_parts, nil_append, no_error,
  error_nil, not-false, optional_none, optional_nil, only_if_none, only_if_nil,
  limit_errors-IsWithin, IsWithin-limit_errors,
}

module _ (x : Texts) where
  guarded-Accepts :
      (ty : TypeSpec) (v : Json) (path : List ℕ) (rest : Errors)
      → guarded x ty v path rest ≡ []
      → Accepts ty v (rest ≡ [])
  unfolding guarded
  guarded-Accepts ty v path rest h = elim (Bool-cases (is_nullable ty && is_null v)) [
    | inl e ↦ inl e
    | inr e ↦ elim (Bool-cases (mismatch (resolve_type ty) v)) [
      | inl f ↦ absurd (bad (rw (e, f) at h))
      | inr f ↦ inr (f, rw (e, f) at h)
    ]
  ]
    where
      bad : {A : Type 0} {a : A} {as' : List A} → a ∷ as' ≡ [] → ⊥
      bad e = cc

  Accepts-guarded :
      (ty : TypeSpec) (v : Json) (path : List ℕ) (rest : Errors)
      → Accepts ty v (rest ≡ [])
      → guarded x ty v path rest ≡ []
  unfolding guarded
  Accepts-guarded ty v path rest (inl e) = rw (e, guarded) refl
  Accepts-guarded ty v path rest (inr (f, h)) = elim (Bool-cases (is_nullable ty && is_null v)) [
    | inl e ↦ rw (e, guarded) refl
    | inr e ↦ rw (e, f, guarded) h
  ]

  accept : {P Q : Type 0} (ty : TypeSpec) (v : Json) → (P → Q) → Accepts ty v P → Accepts ty v Q
  accept ty v f (inl e) = inl e
  accept ty v f (inr (e, p)) = inr (e, f p)

  required-HasAll :
      (ks : List String) (d : Fields) (path : List ℕ)
      → required_errors x ks d path ≡ []
      → HasAll ks d
  unfolding required_errors
  required-HasAll [] d path h = tt
  required-HasAll (k ∷ ks) d path h =
      let (first, rest) = nil_parts _ (required_errors x ks d path) h in
      (not-false _ (no_error _ _ first), required-HasAll ks d path rest)

  HasAll-required :
      (ks : List String) (d : Fields) (path : List ℕ)
      → HasAll ks d
      → required_errors x ks d path ≡ []
  unfolding required_errors
  HasAll-required [] d path h = refl
  HasAll-required (k ∷ ks) d path (h, hs) =
      nil_append (error_nil (not (has_key k d)) _ (rw h refl)) (HasAll-required ks d path hs)

  mutual
    unfolding validate validate_fields validate_items IsValid AreValidFields AreValidItems

    validate-IsValid :
        (v : Json) (s : Schema) (path : List ℕ) → validate x v s path ≡ [] → IsValid x v s
    validate-IsValid (Json.obj d) (schema ty lim props items) path h =
        accept ty (Json.obj d)
          (λ e.
            let (limits, fields) =
              nil_parts (limit_errors x lim (resolve_type ty) (Json.obj d) path) _ e in
            (
              limit_errors-IsWithin x lim (resolve_type ty) (Json.obj d) path limits,
              λ o.
                  let (required, rest) =
                    nil_parts (required_errors x lim.required d path)
                      (validate_fields x d props path)
                      (only_if_none (is_type "object" (resolve_type ty)) _ fields o) in
                  (required-HasAll lim.required d path required, fields-AreValid d props path rest),
            ))
          (guarded-Accepts ty (Json.obj d) path _ h)
    validate-IsValid (Json.arr vs) (schema ty lim props items) path h =
        accept ty (Json.arr vs)
          (λ e.
            let (limits, rest) =
              nil_parts (limit_errors x lim (resolve_type ty) (Json.arr vs) path) _ e in
            (
              limit_errors-IsWithin x lim (resolve_type ty) (Json.arr vs) path limits,
              λ a.
                  items-AreValid vs items 0 path
                    (only_if_none (is_type "array" (resolve_type ty)) _ rest a),
            ))
          (guarded-Accepts ty (Json.arr vs) path _ h)
    validate-IsValid v (schema ty lim props items) path h =
        accept ty v (limit_errors-IsWithin x lim (resolve_type ty) v path)
          (guarded-Accepts ty v path _ h)

    fields-AreValid :
        (d : Fields) (props : Properties) (path : List ℕ)
        → validate_fields x d props path ≡ []
        → AreValidFields x d props
    fields-AreValid Fields.end props path h = tt
    fields-AreValid (Fields.field k v d) props path h =
        let (first, rest) = nil_parts _ (validate_fields x d props path) h in
        (
          λ s e.
              validate-IsValid v s (field_path path k)
                (optional_none (find_property k props) _ first s e),
          fields-AreValid d props path rest,
        )

    items-AreValid :
        (vs : Items) (items : ItemSchema) (i : ℕ) (path : List ℕ)
        → validate_items x vs items i path ≡ []
        → AreValidItems x vs items
    items-AreValid Items.nil items i path h = tt
    items-AreValid (Items.cons v vs) any_item i path h = tt
    items-AreValid (Items.cons v vs) (each s) i path h =
        let (first, rest) = nil_parts _ (validate_items x vs (each s) (suc i) path) h in
        (validate-IsValid v s _ first, items-AreValid vs (each s) (suc i) path rest)

  mutual
    unfolding validate validate_fields validate_items IsValid AreValidFields AreValidItems

    IsValid-validate :
        (v : Json) (s : Schema) (path : List ℕ) → IsValid x v s → validate x v s path ≡ []
    IsValid-validate (Json.obj d) (schema ty lim props items) path h =
        let t = resolve_type ty in
        Accepts-guarded ty (Json.obj d) path _ (
          accept ty (Json.obj d)
            (λ (within, object).
              nil_append (IsWithin-limit_errors x lim t (Json.obj d) path within) (
                only_if_nil (is_type "object" t) _ (λ o.
                  nil_append (HasAll-required lim.required d path (object o).0)
                    (AreValid-fields d props path (object o).1))))
            h)
    IsValid-validate (Json.arr vs) (schema ty lim props items) path h =
        let t = resolve_type ty in
        Accepts-guarded ty (Json.arr vs) path _ (
          accept ty (Json.arr vs)
            (λ (within, array).
              nil_append (IsWithin-limit_errors x lim t (Json.arr vs) path within)
                (only_if_nil (is_type "array" t) _ (λ a. AreValid-items vs items 0 path (array a))))
            h)
    IsValid-validate v (schema ty lim props items) path h =
        Accepts-guarded ty v path _
          (accept ty v (IsWithin-limit_errors x lim (resolve_type ty) v path) h)

    AreValid-fields :
        (d : Fields) (props : Properties) (path : List ℕ)
        → AreValidFields x d props
        → validate_fields x d props path ≡ []
    AreValid-fields Fields.end props path h = refl
    AreValid-fields (Fields.field k v d) props path (h, hs) =
        nil_append
          (optional_nil (find_property k props) _
            (λ s e. IsValid-validate v s (field_path path k) (h s e)))
          (AreValid-fields d props path hs)

    AreValid-items :
        (vs : Items) (items : ItemSchema) (i : ℕ) (path : List ℕ)
        → AreValidItems x vs items
        → validate_items x vs items i path ≡ []
    AreValid-items Items.nil items i path h = refl
    AreValid-items (Items.cons v vs) any_item i path h = refl
    AreValid-items (Items.cons v vs) (each s) i path (h, hs) =
        nil_append (IsValid-validate v s _ h) (AreValid-items vs (each s) (suc i) path hs)

  pub validate_lem :
      (v : Json) (s : Schema) (path : List ℕ) → (validate x v s path ≡ []) ↔ IsValid x v s
  validate_lem v s path = (validate-IsValid v s path, IsValid-validate v s path)
