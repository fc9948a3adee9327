-- ===== src/Runtime/Promotion/Review.antt =====
-- `review_promotion_candidate` of nanobot/runtime/promotion.py.
use eeebot_self_evolving.Prelude.{Bool, ◌||◌, not, String, [], ◌∷◌, str_eq, if◌then◌else◌}
use eeebot_self_evolving.Prelude.Json.{Json, Fields}
use eeebot_self_evolving.Prelude.Effects.{exception, Method, pure, throw, ◌>>=◌}
use eeebot_self_evolving.Runtime.Dict.{lookup, assign_all, dict, either}
use eeebot_self_evolving.Runtime.Promotion.{
  Place, Folder, decisions, patches, accepted, Promotions, World, candidate_place, latest_place,
  is_valid_id, write_json, read_json, texts,
}
use eeebot_self_evolving.Runtime.Promotion.Inputs.{is_blank}

-- `_VALID_DECISIONS`
unfoldable pub is_valid_decision : String → Bool
is_valid_decision d =
    str_eq d "accept" || (str_eq d "reject" || (str_eq d "defer" || str_eq d "needs_more_evidence"))

module _ (w : World) (id decision decision_reason : String) (reviewed_at : String) where
  abbrev pub place : Folder → Place
  place folder = record { folder = folder; name = id }

  unfoldable pub reviewed : Fields → Fields
  reviewed candidate =
      assign_all
        (("review_status", Json.str "reviewed")
          ∷ ("decision", Json.str decision)
          ∷ ("decision_reason", Json.str decision_reason)
          ∷ ("reviewed_at_utc", Json.str reviewed_at)
          ∷ [])
        candidate

  abbrev pub path_text : Json
  path_text = Json.str (w.path_text (candidate_place id))

  abbrev pub decision_record : Fields → Fields
  decision_record updated = dict (
      ("schema_version", Json.str "promotion-record-v1")
      ∷ ("promotion_candidate_id", Json.str id)
      ∷ ("origin_cycle_id", lookup "origin_cycle_id" updated)
      ∷ ("decision", Json.str decision)
      ∷ ("decision_reason", Json.str decision_reason)
      ∷ ("review_status", Json.str "reviewed")
      ∷ ("reviewed_at_utc", Json.str reviewed_at)
      ∷ ("candidate_path", path_text)
      ∷ [])

  abbrev pub latest_payload : Fields → Fields
  latest_payload updated = assign_all (("candidate_path", path_text) ∷ []) updated

  abbrev pub branch_of : Fields → Json
  branch_of updated = either (lookup "target_branch" updated) (Json.str "promote/self-evolving")

  abbrev pub patch_bundle : Fields → Fields
  patch_bundle updated = dict (
      ("schema_version", Json.str "promotion-patch-v1")
      ∷ ("promotion_candidate_id", Json.str id)
      ∷ ("origin_cycle_id", lookup "origin_cycle_id" updated)
      ∷ ("target_repo", lookup "target_repo" updated)
      ∷ ("target_branch", branch_of updated)
      ∷ ("source_paths", either (lookup "source_paths" updated) (texts []))
      ∷ ("evidence_refs", either (lookup "evidence_refs" updated) (texts []))
      ∷ ("review_status", Json.str "reviewed")
      ∷ ("decision", Json.str "accept")
      ∷ ("decision_reason", Json.str decision_reason)
      ∷ ("generated_at_utc", Json.str reviewed_at)
      ∷ [])

  unfoldable pub accepted_record : Fields → Fields
  accepted_record updated =
      assign_all
        (("schema_version", Json.str "promotion-record-v1")
          ∷ ("accepted_at_utc", Json.str reviewed_at)
          ∷ ("accepted_branch", branch_of updated)
          ∷ ("patch_bundle_path", Json.str (w.path_text (place patches)))
          ∷ [])
        updated

  -- The patch bundle and the accepted record, on "accept" alone.
  unfoldable pub write_accepted : Fields → Method Promotions Unit
  unfolding write_json accepted_record
  write_accepted updated =
      if str_eq decision "accept"
      then (write_json w (place patches) (Json.obj (patch_bundle updated)) >>= λ _.
          write_json w (place accepted) (Json.obj (accepted_record updated)))
      else pure tt

  unfoldable pub write_review : Fields → Method Promotions Fields
  unfolding write_json write_accepted
  write_review updated = write_json w (candidate_place id) (Json.obj updated) >>= λ _.
      write_json w (place decisions) (Json.obj (decision_record updated)) >>= λ _.
      write_json w latest_place (Json.obj (latest_payload updated)) >>= λ _.
      write_accepted updated >>= λ _. pure (latest_payload updated)

  unfoldable pub review_promotion_candidate : Method Promotions Fields
  unfolding is_valid_decision is_valid_id is_blank read_json write_review reviewed
  review_promotion_candidate =
      if not (is_valid_decision decision)
      then throw (exception "unsupported decision")
      else if is_blank decision_reason
      then throw (exception "decision_reason is required")
      else if not (is_valid_id id)
      then throw (exception "candidate_id is invalid")
      else read_json (candidate_place id) >>= λ candidate. write_review (reviewed candidate)
