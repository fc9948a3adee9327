-- ===== src/Runtime/Release/Tests.antt =====
-- A release that is applied and rolled back, and the theorems at it.
use eeebot_self_evolving.Prelude.{true, none, some, List, [], ◌∷◌, ◌≡◌, refl}
use eeebot_self_evolving.Prelude.Json.{Json, Fields}
use eeebot_self_evolving.Prelude.Effects.{ok}
use eeebot_self_evolving.Runtime.Dict.{dict, lookup}
use eeebot_self_evolving.Runtime.Release.{
  Site, World, write_json, extract, relink, install_as, install, apply_candidate_release,
  rollback_release,
}
use eeebot_self_evolving.Runtime.Release.Moves.{Operation, apply, roll_back, Moves, is_ok}
use eeebot_self_evolving.Runtime.Release.Installed.{
  IsInstalled, apply_candidate_release-IsInstalled, rollback_release-apply_candidate_release,
}

abbrev world : World
world = record {
  write_ok = λ _. true;
  link_ok = λ _. true;
  archive_ok = λ _. true;
  path_text = λ p. p;
  product_head = Json.null;
}

abbrev candidate : Fields
candidate = dict (
    ("candidate_id", Json.str "candidate-1")
    ∷ ("clean_worktree", Json.bool true)
    ∷ ("remote_commit_visible", Json.bool true)
    ∷ ("archive_path", Json.str "artifacts/candidate-1.tar.gz")
    ∷ [])

abbrev site : Site
site = record {
  files = λ _. none;
  current = some "runtime/releases/candidate-0";
  releases = λ _. none;
  writes = 0;
  links = 0;
}

applies : is_ok (apply_candidate_release world candidate site).0 ≡ true
unfolding apply_candidate_release install install_as extract relink write_json
applies = refl

links : world.link_ok (apply_candidate_release world candidate site).1.links ≡ true
links = refl

apply_candidate_release-IsInstalled_example :
    IsInstalled world candidate site (apply_candidate_release world candidate site)
apply_candidate_release-IsInstalled_example =
    apply_candidate_release-IsInstalled world candidate site applies

rollback_release-apply_candidate_release_example :
    let (r, s') = apply_candidate_release world candidate site in
    ((record_of : Fields) × (r ≡ ok record_of)
      × (lookup "previous_release_dir" record_of ≡ Json.str "runtime/releases/candidate-0"))
    × ((rollback_release world candidate (some "runtime/releases/candidate-0") s').1.current
        ≡ site.current)
rollback_release-apply_candidate_release_example =
    rollback_release-apply_candidate_release world candidate site "runtime/releases/candidate-0"
      refl applies links

abbrev operations : List Operation
operations = apply candidate ∷ roll_back candidate (some "runtime/releases/candidate-0") ∷ []
