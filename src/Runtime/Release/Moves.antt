-- ===== src/Runtime/Release/Moves.antt =====
-- What `apply_candidate_release` and `rollback_release` of nanobot/runtime/autoevolve.py do to the
-- link, as steps of a small machine.
use eeebot_self_evolving.Prelude.{
  Bool, true, false, Option, none, some, String, List, [], ◌∷◌, ◌≡◌, ◌⊎◌, refl, inl, inr,
}
use eeebot_self_evolving.Prelude.Json.{Json, Fields}
use eeebot_self_evolving.Prelude.Effects.{
  Result, ok, raise, exception, Method, and_then, pure, throw,
}
use eeebot_self_evolving.Runtime.Dict.{lookup, is_true}
use eeebot_self_evolving.Runtime.Release.{
  Site, World, path_part, release_dir, apply_candidate_release, rollback_release,
}

pub data Operation : Type 0 where
  apply : Fields → Operation
  roll_back : Fields → Option String → Operation

unfoldable pub perform : World → Operation → Method Site Fields
unfolding apply_candidate_release rollback_release
perform w (apply candidate) = apply_candidate_release w candidate
perform w (roll_back failed target) = rollback_release w failed target

-- Operations one after the other; one that raises does not stop the others.
unfoldable pub perform_all : World → List Operation → Site → Site
unfolding perform
perform_all w [] s = s
perform_all w (op ∷ ops) s = perform_all w ops (perform w op s).1

-- The candidate comes from a clean worktree, and its commit is visible on the remote.
abbrev pub IsVetted : Fields → Type 0
IsVetted candidate =
    (is_true (lookup "clean_worktree" candidate) ≡ true)
    × (is_true (lookup "remote_commit_visible" candidate) ≡ true)

abbrev pub is_ok : {A : Type 0} → Result A → Bool
is_ok (ok a) = true
is_ok (raise e) = false

-- How an operation moves the link; the test says whether it returned.
pub data Move (w : World) : Operation → Bool → Option String → Option String → Type 0 where
  -- it raised, and the link is as it was
  refused : {op : Operation} {a : Option String} → Move w op false a a
  -- the link was removed and could not be made anew
  unlinked :
      {candidate : Fields} {a : Option String}
      → IsVetted candidate
      → Move w (apply candidate) false a none
  lost :
      {failed : Fields} {t : String} {a : Option String}
      → Move w (roll_back failed (some t)) false a none
  deployed :
      {candidate : Fields} {a : Option String} {done : Bool} (id : String)
      → IsVetted candidate
      → lookup "candidate_id" candidate ≡ Json.str id
      → Move w (apply candidate) done a (some (release_dir w id))
  restored :
      {failed : Fields} {t : String} {a : Option String} {done : Bool}
      → Move w (roll_back failed (some t)) done a (some t)

-- The moves of a list of operations.
pub data Moves (w : World) : List Operation → Option String → Option String → Type 0 where
  finished : {a : Option String} → Moves w [] a a
  moved :
      {op : Operation} {ops : List Operation} {a b c : Option String} {done : Bool}
      → Move w op done a b
      → Moves w ops b c
      → Moves w (op ∷ ops) a c

module _ (w : World) where
  module _ (a : Option String) where
    abbrev Linked : Site → Type 0
    Linked s = s.current ≡ a

  -- A text, or no text.
  pub path_part-cases :
      (key : String) (v : Json)
      → ((id : String) × (v ≡ Json.str id) × (path_part key v ≡ pure id))
        ⊎ (path_part key v ≡ throw (exception key))
  path_part-cases key (Json.str t) = inl (t, refl, refl)
  path_part-cases key v = inr refl

  pub throws :
      (r : Result Fields) (message : String) (s : Site)
      → is_ok (and_then r (λ _. throw {A = Fields} (exception message)) s).0 ≡ false
  throws (ok a) message s = refl
  throws (raise e) message s = refl
