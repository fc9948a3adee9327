-- ===== src/Runtime/Release/Health.antt =====
-- `health_check_release` and `write_failure_learning_artifact` of nanobot/runtime/autoevolve.py.
use Prim.Native.String.{◌++◌ as concat}
use eeebot_self_evolving.Prelude.{
  ℕ, ◌+◌, Bool, true, false, not, Option, none, some, String, List, [], ◌∷◌, ◌++◌, ltb, leb,
  if◌then◌else◌,
}
use eeebot_self_evolving.Prelude.Json.{Json, Items, Fields}
use eeebot_self_evolving.Prelude.Effects.{Method, pure, ◌>>=◌}
use eeebot_self_evolving.Runtime.Dict.{lookup, dict}
use eeebot_self_evolving.Runtime.Release.{Site, World, write_json, text_at}

-- A report file and the time of its last change.
pub record Report : Type 0 where
  pub path : String
  pub mtime : ℕ

pub record Health : Type 0 where
  pub ok : Bool
  pub reasons : List String
  pub latest_report_path : Option String

-- The last report in the order of the times, and the last of several with the same time.
unfoldable pub latest_report : List Report → Option Report
latest_report [] = none
latest_report (r ∷ rs) = elim (latest_report rs) [
  | none ↦ some r
  | some l ↦ if leb r.mtime l.mtime then some l else some r
]

abbrev pub reason_if : Bool → String → List String
reason_if true reason = reason ∷ []
reason_if false reason = []

abbrev pub report_reasons : ℕ → ℕ → Option Report → List String
report_reasons max_age now none = "missing_report" ∷ []
report_reasons max_age now (some l) = reason_if (ltb (l.mtime + max_age) now) "stale_report"

-- `health_check_release`, where `summary` and `current` say which files are there.
unfoldable pub health_check_release : List Report → Bool → Bool → ℕ → ℕ → Health
unfolding latest_report
health_check_release reports summary current max_age now =
    let latest = latest_report reports in
    let reasons =
      report_reasons max_age now latest
      ++ reason_if (not summary) "missing_control_plane_summary"
      ++ reason_if (not current) "missing_current_plan" in
    record {
      ok = elim reasons [ [] ↦ true | _ ↦ false ];
      reasons = reasons;
      latest_report_path = elim latest [ none ↦ none | some l ↦ some l.path ];
    }

abbrev items_of : List String → Items
items_of [] = Items.nil
items_of (t ∷ ts) = Items.cons (Json.str t) (items_of ts)

abbrev joined : List String → String
joined [] = "unknown"
joined (t ∷ []) = t
joined (t ∷ u ∷ us) = concat t (concat ", " (joined (u ∷ us)))

abbrev learning_summary : String
learning_summary =
    "Candidate failed health gate; next cycle should avoid the same failure pattern and inspect rollback evidence first."

abbrev pub learning : World → String → Fields → Health → Fields → Fields
learning w id failed health rollback = dict (
    ("schema_version", Json.str "autoevolve-failure-learning-v1")
    ∷ ("candidate_id", Json.str id)
    ∷ ("failed_commit", lookup "commit" failed)
    ∷ ("health_reasons", Json.arr (items_of health.reasons))
    ∷ ("rollback_target", lookup "rolled_back_to_release_dir" rollback)
    ∷ ("learning_summary", Json.str learning_summary)
    ∷ ("learning_classification", Json.str "learning_only_progress")
    ∷ ("failure_classification", Json.str "reported_failure")
    ∷ (
      "key_learnings",
      Json.arr (
          items_of (
            learning_summary
            ∷ concat "health gate failed for reasons: " (joined health.reasons)
            ∷ [])),
    )
    ∷ ("path", Json.str (w.path_text (concat "failure_learning/" (concat id ".json"))))
    ∷ [])

unfoldable pub write_failure_learning_artifact :
    World → Fields → Health → Fields → Method Site Fields
unfolding write_json
write_failure_learning_artifact w failed health rollback = text_at "candidate_id" failed >>= λ id.
    write_json w (concat "failure_learning/" (concat id ".json"))
      (Json.obj (learning w id failed health rollback))
    >>= λ _.
        write_json w "failure_learning/latest.json"
          (Json.obj (learning w id failed health rollback))
        >>= λ _. pure (learning w id failed health rollback)
