-- ===== src/Runtime/Release.antt =====
-- The releases of nanobot/runtime/autoevolve.py: the files below "self_evolution", the blocked
-- candidates, the application of a release and its rollback.
pub mod Moves
pub mod Health
pub mod Installed
mod Tests
use Prim.Native.String.{◌++◌ as concat}
use eeebot_self_evolving.Prelude.{
  ℕ, suc, Bool, true, false, not, Option, none, some, String, List, [], ◌∷◌, str_eq, if◌then◌else◌,
}
use eeebot_self_evolving.Prelude.Json.{Json, Items, Fields}
use eeebot_self_evolving.Prelude.Effects.{ok, raise, exception, Method, pure, throw, ◌>>=◌}
use eeebot_self_evolving.Runtime.Dict.{lookup, assign_all, dict, as_dict, is_true}
use eeebot_self_evolving.Runtime.Promotion.{Content, unparsable, parsed}

-- Files by their paths below "self_evolution". `current` is where the link "runtime/current"
-- points to, and `releases` is what the folder of a release was extracted from, null for an empty folder.
pub record Site : Type 0 where
  pub files : String → Option Content
  pub current : Option String
  pub releases : String → Option Json
  -- the numbers of the next write and of the next link
  pub writes : ℕ
  pub links : ℕ

-- Whether the n-th write and the n-th link succeed, whether an archive can be extracted, the text
-- of the path of a file or folder, and the result of `_observed_product_head`.
pub record World : Type 0 where
  pub write_ok : ℕ → Bool
  pub link_ok : ℕ → Bool
  pub archive_ok : Json → Bool
  pub path_text : String → String
  pub product_head : Json

abbrev pub put : {V : Type 0} → (String → V) → String → V → String → V
put d k v j = if str_eq j k then v else d j

-- `_write_json`
unfoldable pub write_json : World → String → Json → Method Site Unit
write_json w path v s =
    let n = s.writes in
    if w.write_ok n
    then (ok tt, record s { files = put s.files path (some (parsed v)); writes = suc n })
    else (raise (exception "write"), record s { writes = suc n })

-- `_load`, where `None` is null.
abbrev pub load : Site → String → Json
load s path = elim (s.files path) [
  | none ↦ Json.null
  | some c ↦ elim c [ unparsable ↦ Json.null | parsed v ↦ v ]
]

abbrev pub latest_request : Site → Fields
latest_request s = as_dict (load s "requests/latest.json")

-- The state that `write_guarded_evolution_state` collects.
abbrev pub guarded_state : World → Site → Fields
guarded_state w s = dict (
    ("schema_version", Json.str "autoevolve-state-v1")
    ∷ ("current_candidate", load s "candidates/latest.json")
    ∷ ("latest_request", load s "requests/latest.json")
    ∷ ("selfevo_issue", lookup "selfevo_issue" (latest_request s))
    ∷ ("selfevo_branch", lookup "selfevo_branch" (latest_request s))
    ∷ ("observed_product_head", w.product_head)
    ∷ ("product_head", lookup "commit" (as_dict w.product_head))
    ∷ ("last_apply", load s "runtime/latest_apply.json")
    ∷ ("last_rollback", load s "runtime/latest_rollback.json")
    ∷ ("last_failure_learning", load s "failure_learning/latest.json")
    ∷ ("last_export", load s "runtime/latest_export.json")
    ∷ ("last_pr", load s "runtime/latest_pr.json")
    ∷ ("last_merge", load s "runtime/latest_merge.json")
    ∷ ("last_noop", load s "runtime/latest_noop.json")
    ∷ ("last_issue_lifecycle", load s "runtime/latest_issue_lifecycle.json")
    ∷ [])

unfoldable pub write_guarded_evolution_state : World → Method Site Fields
unfolding write_json
write_guarded_evolution_state w s =
    let state = guarded_state w s in
    (write_json w "current_state.json" (Json.obj state) >>= λ _. pure state) s

abbrev pub next_action : Bool → Json
next_action true =
    Json.str "regenerate candidate from current remote-visible branch head before apply"
next_action false = Json.str "clean tracked worktree before creating/applying candidate"

abbrev pub blocked_payload : Fields → String → Fields
blocked_payload candidate reason =
    let stale = str_eq reason "remote_commit_not_visible" in
    dict (
      ("schema_version", Json.str "autoevolve-blocked-v1")
      ∷ ("ok", Json.bool false)
      ∷ ("status", Json.str "blocked")
      ∷ ("reason", Json.str reason)
      ∷ ("candidate_id", lookup "candidate_id" candidate)
      ∷ ("commit", lookup "commit" candidate)
      ∷ ("remote_name", lookup "remote_name" candidate)
      ∷ ("branch", lookup "branch" candidate)
      ∷ ("remote_head", lookup "remote_head" candidate)
      ∷ ("remote_commit_visible", Json.bool (is_true (lookup "remote_commit_visible" candidate)))
      ∷ ("clean_worktree", Json.bool (is_true (lookup "clean_worktree" candidate)))
      ∷ ("stale_candidate", Json.bool stale)
      ∷ ("recommended_next_action", next_action stale)
      ∷ [])

abbrev pub marked_stale : Fields → String → Fields
marked_stale candidate reason =
    assign_all
      (("status", Json.str "stale")
        ∷ ("stale_reason", Json.str reason)
        ∷ ("recommended_next_action", next_action true)
        ∷ [])
      candidate

unfoldable pub write_candidate_blocked_status : World → Fields → String → Method Site Fields
unfolding write_json write_guarded_evolution_state
write_candidate_blocked_status w candidate reason =
    let payload = blocked_payload candidate reason in
    write_json w "runtime/latest_blocked.json" (Json.obj payload) >>= λ _.
    (if str_eq reason "remote_commit_not_visible"
      then write_json w "candidates/latest.json" (Json.obj (marked_stale candidate reason))
      else pure tt)
    >>= λ _. write_guarded_evolution_state w >>= λ _. pure payload

-- `candidate_record[key]`, used as a part of a path.
abbrev pub path_part : String → Json → Method Site String
path_part key (Json.str t) = pure t
path_part key _ = throw (exception key)

abbrev pub text_at : String → Fields → Method Site String
text_at key candidate = path_part key (lookup key candidate)

abbrev pub release_dir : World → String → String
release_dir w id = w.path_text (concat "runtime/releases/" id)

-- The folder of the release, emptied and then extracted to.
unfoldable pub extract : World → String → Json → Method Site Unit
extract w id archive s =
    let emptied = record s { releases = put s.releases id (some Json.null) } in
    if w.archive_ok archive
    then (ok tt, record s { releases = put s.releases id (some archive) })
    else (raise (exception "tarfile"), emptied)

-- The link is removed, and then it is made anew.
unfoldable pub relink : World → String → Method Site Unit
relink w target s =
    let n = s.links in
    if w.link_ok n
    then (ok tt, record s { current = some target; links = suc n })
    else (raise (exception "symlink"), record s { current = none; links = suc n })

abbrev pub option_text : Option String → Json
option_text none = Json.null
option_text (some t) = Json.str t

abbrev pub apply_record : World → String → Option String → Fields
apply_record w id previous = dict (
    ("schema_version", Json.str "autoevolve-apply-v1")
    ∷ ("candidate_id", Json.str id)
    ∷ ("release_dir", Json.str (release_dir w id))
    ∷ ("previous_release_dir", option_text previous)
    ∷ ("current_link", Json.str (w.path_text "runtime/current"))
    ∷ [])

-- Behind the two guards, for a candidate with an id; `previous` is where the link pointed to.
unfoldable pub install_as : World → Fields → String → Option String → Method Site Fields
unfolding extract relink write_json
install_as w candidate id previous = extract w id (lookup "archive_path" candidate) >>= λ _.
    relink w (release_dir w id) >>= λ _.
    write_json w "runtime/latest_apply.json" (Json.obj (apply_record w id previous)) >>= λ _.
    pure (apply_record w id previous)

unfoldable pub install : World → Fields → Method Site Fields
unfolding install_as
install w candidate s =
    (text_at "candidate_id" candidate >>= λ id. install_as w candidate id s.current) s

-- The status of the block is written, and then the guard raises.
unfoldable pub refuse : World → Fields → String → String → Method Site Fields
unfolding write_candidate_blocked_status
refuse w candidate reason message =
    write_candidate_blocked_status w candidate reason >>= λ _. throw (exception message)

unfoldable pub apply_candidate_release : World → Fields → Method Site Fields
unfolding refuse install
apply_candidate_release w candidate =
    if not (is_true (lookup "clean_worktree" candidate))
    then refuse w candidate "dirty_worktree"
        "candidate release must come from a clean tracked worktree"
    else if not (is_true (lookup "remote_commit_visible" candidate))
    then refuse w candidate "remote_commit_not_visible"
        "candidate release commit must be visible on remote before apply"
    else install w candidate

abbrev pub rollback_record : String → String → Fields
rollback_record id target = dict (
    ("schema_version", Json.str "autoevolve-rollback-v1")
    ∷ ("candidate_id", Json.str id)
    ∷ ("rolled_back_to_release_dir", Json.str target)
    ∷ [])

-- The link is made before the record reads the candidate's id.
unfoldable pub restore : World → Fields → String → Method Site Fields
unfolding relink write_json
restore w failed target = relink w target >>= λ _. text_at "candidate_id" failed >>= λ id.
    write_json w "runtime/latest_rollback.json" (Json.obj (rollback_record id target)) >>= λ _.
    pure (rollback_record id target)

unfoldable pub rollback_release : World → Fields → Option String → Method Site Fields
unfolding restore
rollback_release w failed none = throw (exception "previous_release_dir is required for rollback")
rollback_release w failed (some target) = restore w failed target
