-- ===== src/Tools/Calls.antt =====
-- Which parameters reach a tool (nanobot/agent/tools/registry.py).
use eeebot_self_evolving.Prelude.{
  ℕ, some, String, List, [], ◌∷◌, ◌++◌, ◌≡◌, ◌⊎◌, inl, inr, refl, Option-cases,
}
use eeebot_self_evolving.Prelude.Json.{Fields}
use eeebot_self_evolving.Prelude.Effects.{Result, ok, raise, exception, cancelled}
use eeebot_self_evolving.Tools.{
  Output, Tool, Registry, Runs, find_tool, reported, run_tool, run_valid, run_cast, execute_tool,
}

-- No tool ran, or the one of that name did, with parameters that its cast gave and its validation
-- found without an error.
abbrev pub RanValid : Registry → String → Fields → Runs → Runs → Type 0
RanValid tools name params runs runs' =
    (runs' ≡ runs)
    ⊎ ((t : Tool) × (cast : Fields) × (find_tool name tools ≡ some t)
        × (t.cast_params params ≡ ok cast)
        × (t.validate_params cast ≡ ok [])
        × (runs' ≡ runs ++ (name, cast) ∷ []))

run_valid-RanValid :
    (tools : Registry) (t : Tool) (name : String) (params cast : Fields)
    (v : Result (List (List ℕ))) (runs : Runs)
    → find_tool name tools ≡ some t
    → t.cast_params params ≡ ok cast
    → t.validate_params cast ≡ v
    → RanValid tools name params runs (run_valid t name cast v runs).1
unfolding run_valid run_tool
run_valid-RanValid tools t name params cast (raise e) runs f c h = inl refl
run_valid-RanValid tools t name params cast (ok (e ∷ es)) runs f c h = inl refl
run_valid-RanValid tools t name params cast (ok []) runs f c h = inr (t, cast, f, c, h, refl)

run_cast-RanValid :
    (tools : Registry) (t : Tool) (name : String) (params : Fields) (c : Result Fields)
    (runs : Runs)
    → find_tool name tools ≡ some t
    → t.cast_params params ≡ c
    → RanValid tools name params runs (run_cast t name c runs).1
unfolding run_cast
run_cast-RanValid tools t name params (raise e) runs f h = inl refl
run_cast-RanValid tools t name params (ok cast) runs f h =
    run_valid-RanValid tools t name params cast (t.validate_params cast) runs f h refl

reported-ok :
    (name : String) (r : Result Output)
    → ((out : Output) × (reported name r ≡ ok out)) ⊎ (reported name r ≡ raise cancelled)
unfolding reported
reported-ok name (ok out) = inl (out, refl)
reported-ok name (raise (exception e)) = inl (_, refl)
reported-ok name (raise cancelled) = inr refl

-- Executing a tool by its name returns an output or is cancelled, and no other exception of the
-- tool leaves the registry. At most one tool runs, the one of that name, and only with parameters
-- that its cast gave and in which its validation found no error.
pub execute_tool-RanValid :
    (tools : Registry) (name : String) (params : Fields) (runs : Runs)
    → let (r, runs') = execute_tool tools name params runs in
      (((out : Output) × (r ≡ ok out)) ⊎ (r ≡ raise cancelled))
      × RanValid tools name params runs runs'
unfolding execute_tool
execute_tool-RanValid tools name params runs = elim (Option-cases (find_tool name tools)) [
  | inl e ↦ simp (e, execute_tool) (inl (_, refl), inl refl)
  | inr (t, e) ↦
      let valid = run_cast-RanValid tools t name params (t.cast_params params) runs e refl in
      simp (e, execute_tool)
        (reported-ok name (run_cast t name (t.cast_params params) runs).0, rw e at valid)
]
