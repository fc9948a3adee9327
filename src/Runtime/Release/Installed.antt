-- ===== src/Runtime/Release/Installed.antt =====
-- A release that is applied, and the way back (nanobot/runtime/autoevolve.py).
use eeebot_self_evolving.Prelude.{
  Bool, true, false, not, some, String, ◌≡◌, refl, sym, ap, ◌∙◌, inl, inr, Bool-cases, str_eq,
  eq_iff, if◌then◌else◌,
}
use eeebot_self_evolving.Prelude.Json.{Json, Fields}
use eeebot_self_evolving.Prelude.Effects.{Result, ok, Method}
use eeebot_self_evolving.Runtime.Dict.{lookup, is_true}
use eeebot_self_evolving.Runtime.Promotion.{parsed}
use eeebot_self_evolving.Runtime.Release.{
  Site, World, write_json, write_candidate_blocked_status, extract, relink, release_dir,
  option_text, apply_record, install_as, install, refuse, apply_candidate_release, restore,
  rollback_release,
}
use eeebot_self_evolving.Runtime.Release.Moves.{IsVetted, is_ok, path_part-cases, throws}

-- The release of the candidate is there, linked and recorded.
pub record IsInstalled (w : World) (candidate : Fields) (s : Site) (q : Result Fields × Site)
    : Type 0 where
  pub id : String
  pub has_id : lookup "candidate_id" candidate ≡ Json.str id
  pub vetted : IsVetted candidate
  pub returned : q.0 ≡ ok (apply_record w id s.current)
  pub linked : q.1.current ≡ some (release_dir w id)
  pub extracted : q.1.releases id ≡ some (lookup "archive_path" candidate)
  pub recorded :
      q.1.files "runtime/latest_apply.json" ≡ some (parsed (Json.obj (apply_record w id s.current)))

module _ (w : World) (candidate : Fields) (s : Site) where
  abbrev Installs : Method Site Fields → Type 0
  Installs m = is_ok (m s).0 ≡ true → IsInstalled w candidate s (m s)

  install_as-Installs :
      (id : String)
      → IsVetted candidate
      → lookup "candidate_id" candidate ≡ Json.str id
      → Installs (install_as w candidate id s.current)
  unfolding install_as extract relink write_json
  install_as-Installs id vetted e h =
      let self : str_eq id id ≡ true = (eq_iff id id).1 refl in
      elim (Bool-cases (w.archive_ok (lookup "archive_path" candidate))) [
        | inr f ↦ let bad : false ≡ true = rw (f, install_as, extract) at h in absurd cc
        | inl f ↦ elim (Bool-cases (w.link_ok s.links)) [
          | inr g ↦
              let bad : false ≡ true = rw (f, g, install_as, extract, relink) at h in absurd cc
          | inl g ↦ elim (Bool-cases (w.write_ok s.writes)) [
            | inr k ↦
                let bad : false ≡ true =
                  rw (f, g, k, install_as, extract, relink, write_json) at h in
                absurd cc
            | inl k ↦
                rw (f, g, k, install_as, extract, relink, write_json)
                  (record {
                    id = id;
                    has_id = e;
                    vetted = vetted;
                    returned = refl;
                    linked = refl;
                    extracted = rw self refl;
                    recorded = refl;
                  })
          ]
        ]
      ]

  install-Installs : IsVetted candidate → Installs (install w candidate)
  unfolding install
  install-Installs vetted h =
      elim (path_part-cases w "candidate_id" (lookup "candidate_id" candidate)) [
        | inl (id, e, f) ↦ rw (f, install) (install_as-Installs id vetted e (rw (f, install) at h))
        | inr f ↦ let bad : false ≡ true = rw (f, install) at h in absurd cc
      ]

  refuse-Installs : (reason message : String) → Installs (refuse w candidate reason message)
  unfolding refuse
  refuse-Installs reason message h =
      let q = write_candidate_blocked_status w candidate reason s in
      let bad : false ≡ true = sym (throws w q.0 message q.1) ∙ h in absurd cc

  guards-Installs :
      (clean visible : Bool) (m n : String)
      → is_true (lookup "clean_worktree" candidate) ≡ clean
      → is_true (lookup "remote_commit_visible" candidate) ≡ visible
      → Installs (
          if not clean
          then refuse w candidate "dirty_worktree" m
          else if not visible
          then refuse w candidate "remote_commit_not_visible" n
          else install w candidate)
  guards-Installs false visible m n e f = refuse-Installs "dirty_worktree" m
  guards-Installs true false m n e f = refuse-Installs "remote_commit_not_visible" n
  guards-Installs true true m n e f = install-Installs (e, f)

-- When `apply_candidate_release` returns, the candidate has an id and comes from a clean worktree with
-- a commit that the remote has; the folder of its release holds its archive, the link points there, and
-- the record, which is written, names the release that was linked before.
pub apply_candidate_release-IsInstalled :
    (w : World) (candidate : Fields) (s : Site)
    → is_ok (apply_candidate_release w candidate s).0 ≡ true
    → IsInstalled w candidate s (apply_candidate_release w candidate s)
unfolding apply_candidate_release
apply_candidate_release-IsInstalled w candidate s h =
    guards-Installs w candidate s _ _ _ _ refl refl h

restore-current :
    (w : World) (failed : Fields) (t : String) (s : Site)
    → w.link_ok s.links ≡ true
    → (restore w failed t s).1.current ≡ some t
unfolding restore relink write_json
restore-current w failed t s g =
    elim (path_part-cases w "candidate_id" (lookup "candidate_id" failed)) [
      | inr f ↦ rw (g, f, restore, relink) refl
      | inl (id, e, f) ↦ elim (Bool-cases (w.write_ok s.writes)) [
        | inr h ↦ rw (g, f, h, restore, relink, write_json) refl
        | inl h ↦ rw (g, f, h, restore, relink, write_json) refl
      ]
    ]

-- Rolling an applied release back to the release that its record names gives the link that was
-- there before, also where the rollback's own record cannot be written, as long as the link itself can be made.
pub rollback_release-apply_candidate_release :
    (w : World) (candidate : Fields) (s : Site) (old : String)
    → s.current ≡ some old
    → is_ok (apply_candidate_release w candidate s).0 ≡ true
    → w.link_ok (apply_candidate_release w candidate s).1.links ≡ true
    → let (r, s') = apply_candidate_release w candidate s in
      ((record_of : Fields) × (r ≡ ok record_of)
        × (lookup "previous_release_dir" record_of ≡ Json.str old))
      × ((rollback_release w candidate (some old) s').1.current ≡ s.current)
unfolding rollback_release
rollback_release-apply_candidate_release w candidate s old e h g =
    let q = apply_candidate_release w candidate s in
    let done = apply_candidate_release-IsInstalled w candidate s h in
    (
      (apply_record w done.id s.current, done.returned, ap option_text e),
      restore-current w candidate old q.1 g ∙ sym e,
    )
