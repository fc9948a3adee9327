-- ===== src/Tools.antt =====
-- The registry of the agent's tools (nanobot/agent/tools/registry.py). The tools are parameters.
use Prim.Native.String.{◌++◌ as concat}
use eeebot_self_evolving.Prelude.{
  ℕ, Bool, true, false, Option, none, some, String, List, [], ◌∷◌, ◌++◌, str_eq, if◌then◌else◌,
  codes, map,
}
use eeebot_self_evolving.Prelude.Json.{Json, Fields}
use eeebot_self_evolving.Prelude.Effects.{Result, ok, raise, exception, cancelled, Method}
use eeebot_self_evolving.Memory.Store.{is_prefix}
pub mod Names
pub mod Calls
pub mod Files
pub mod Schema
mod Tests

-- What `execute` of a tool returns: a text, or something else.
pub data Output : Type 0 where
  text : List ℕ → Output
  value : Json → Output

pub record Tool : Type 0 where
  pub name : String
  pub definition : Json
  pub cast_params : Fields → Result Fields
  pub validate_params : Fields → Result (List (List ℕ))
  pub execute : Fields → Result Output

-- `_tools`, in the order of the dict.
abbrev pub Registry : Type 0
Registry = List Tool

unfoldable pub register : Tool → Registry → Registry
register t [] = t ∷ []
register t (u ∷ us) = let rest = register t us in if str_eq u.name t.name then t ∷ us else u ∷ rest

unfoldable pub unregister : String → Registry → Registry
unregister name [] = []
unregister name (u ∷ us) =
    let rest = unregister name us in if str_eq u.name name then us else u ∷ rest

unfoldable pub find_tool : String → Registry → Option Tool
find_tool name [] = none
find_tool name (u ∷ us) =
    let rest = find_tool name us in if str_eq u.name name then some u else rest

unfoldable pub has : String → Registry → Bool
unfolding find_tool
has name tools = elim (find_tool name tools) [ none ↦ false | some _ ↦ true ]

abbrev pub tool_names : Registry → List String
tool_names tools = map (λ (t : Tool). t.name) tools

abbrev pub get_definitions : Registry → List Json
get_definitions tools = map (λ (t : Tool). t.definition) tools

abbrev pub hint : List ℕ
hint = 10 ∷ 10 ∷ codes "[Analyze the error above and try a different approach.]"

-- `separator.join(parts)`
abbrev pub join : List ℕ → List (List ℕ) → List ℕ
join separator [] = []
join separator (p ∷ []) = p
join separator (p ∷ q ∷ ps) = p ++ separator ++ join separator (q ∷ ps)

-- The parameters that tools were executed with, the newest last.
abbrev pub Runs : Type 0
Runs = List (String × Fields)

abbrev pub not_found : String → Registry → List ℕ
not_found name tools =
    codes "Error: Tool '"
    ++ codes name
    ++ codes "' not found. Available: "
    ++ join (codes ", ") (map codes (tool_names tools))

abbrev pub invalid : String → List (List ℕ) → List ℕ
invalid name errors =
    codes "Error: Invalid parameters for tool '"
    ++ codes name
    ++ codes "': "
    ++ join (codes "; ") errors
    ++ hint

abbrev pub failed : String → String → List ℕ
failed name e = codes "Error executing " ++ codes name ++ codes ": " ++ codes e ++ hint

-- The hint after a text that starts with "Error".
unfoldable pub hinted : Result Output → Result Output
unfolding is_prefix
hinted (ok (text t)) = if is_prefix (codes "Error") t then ok (text (t ++ hint)) else ok (text t)
hinted (ok (value v)) = ok (value v)
hinted (raise e) = raise e

-- `except Exception`
unfoldable pub reported : String → Result Output → Result Output
reported name (ok out) = ok out
reported name (raise (exception e)) = ok (text (failed name e))
reported name (raise cancelled) = raise cancelled

unfoldable pub run_tool : Tool → String → Fields → Method Runs Output
unfolding hinted
run_tool t name params runs = (hinted (t.execute params), runs ++ (name, params) ∷ [])

unfoldable pub run_valid : Tool → String → Fields → Result (List (List ℕ)) → Method Runs Output
unfolding run_tool
run_valid t name params (raise e) runs = (raise e, runs)
run_valid t name params (ok (e ∷ es)) runs = (ok (text (invalid name (e ∷ es))), runs)
run_valid t name params (ok []) runs = run_tool t name params runs

unfoldable pub run_cast : Tool → String → Result Fields → Method Runs Output
unfolding run_valid
run_cast t name (raise e) runs = (raise e, runs)
run_cast t name (ok params) runs = run_valid t name params (t.validate_params params) runs

unfoldable pub execute_tool : Registry → String → Fields → Method Runs Output
unfolding find_tool run_cast reported
execute_tool tools name params runs = elim (find_tool name tools) [
  | none ↦ (ok (text (not_found name tools)), runs)
  | some t ↦ let ran = run_cast t name (t.cast_params params) runs in (reported name ran.0, ran.1)
]
