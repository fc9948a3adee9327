-- ===== src/Tools/Tests.antt =====
-- A registry with one tool, and the theorems at it.
use eeebot_self_evolving.Prelude.{
  List, ℕ, ◌+◌, codes, Option, none, ◌++◌, refl, some, String, [], ◌∷◌, ◌≡◌, ◌⊎◌,
}
use eeebot_self_evolving.Prelude.Json.{Json, Fields}
use eeebot_self_evolving.Prelude.Effects.{ok, raise, cancelled}
use eeebot_self_evolving.Tools.{Tool, Output, text, find_tool, execute_tool}
use eeebot_self_evolving.Tools.Calls.{RanValid, execute_tool-RanValid}
use eeebot_self_evolving.Tools.Schema.{
  Limits, Schema, schema, single, none_left, property, any_item, Texts, find_property, is_nullable,
  resolve_type, instance_of,
}
use eeebot_self_evolving.Tools.Schema.Validate.{
  as_object, validate, validate_params, guarded, limit_errors, required_errors,
}
use eeebot_self_evolving.Tools.Schema.Valid.{IsValid}
use eeebot_self_evolving.Tools.Schema.Cast.{
  cast_params, cast_params-validate_params, schema_tool, execute_tool-IsValid,
}

abbrev echo : Tool
echo = record {
  name = "echo";
  definition = Json.null;
  cast_params = λ params. ok params;
  validate_params = λ _. ok [];
  execute = λ _. ok (text (b'x' ∷ []));
}

execute_tool-RanValid_example :
    let (r, runs') = execute_tool (echo ∷ []) "echo" Fields.end [] in
    (((out : Output) × (r ≡ ok out)) ⊎ (r ≡ raise cancelled))
    × RanValid (echo ∷ []) "echo" Fields.end [] runs'
execute_tool-RanValid_example = execute_tool-RanValid (echo ∷ []) "echo" Fields.end []

abbrev texts : Texts
texts = record {
  int_of = λ _. none;
  float_of = λ _. none;
  lower = λ t. t;
  str_of = λ _. "";
  show = λ _. [];
  decimal = λ _. [];
}

-- An object with a required text of at least two characters.
abbrev limits : List String → Option ℕ → Limits
limits required min_length = record {
  enum = none;
  minimum = none;
  maximum = none;
  min_length = min_length;
  max_length = none;
  required = required;
}

abbrev word : Schema
word = schema (single "string") (limits [] (some 2)) none_left any_item

abbrev query : Schema
query =
    schema (single "object") (limits ("query" ∷ []) none) (property "query" word none_left) any_item

abbrev good : Fields
good = Fields.field "query" (Json.str "cat") Fields.end

good_passes : validate_params texts query good ≡ ok []
unfolding validate_params validate guarded limit_errors required_errors find_property is_nullable
    resolve_type instance_of
good_passes = refl

cast_params-validate_params_example : cast_params texts query good ≡ good
cast_params-validate_params_example = cast_params-validate_params texts query good good_passes

abbrev search_tool : Tool
search_tool = schema_tool texts "find" Json.null query (λ _. ok (text []))

finds : find_tool "find" (search_tool ∷ []) ≡ some search_tool
unfolding find_tool
finds = refl

execute_tool-IsValid_example :
    let (r, runs') = execute_tool (search_tool ∷ []) "find" good [] in
    (runs' ≡ [])
    ⊎ (IsValid texts (Json.obj (cast_params texts query good)) (as_object texts query)
        × (runs' ≡ [] ++ ("find", cast_params texts query good) ∷ []))
execute_tool-IsValid_example =
    execute_tool-IsValid texts query "find" Json.null (λ _. ok (text [])) (search_tool ∷ []) good []
      finds

-- A number of one digit, and a file of three lines.
abbrev digit : ℕ → List ℕ
digit n = (48 + n) ∷ []

abbrev poem : List (List ℕ)
poem = codes "roses" ∷ codes "violets" ∷ codes "sugar" ∷ []
