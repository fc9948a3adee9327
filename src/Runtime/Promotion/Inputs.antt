-- ===== src/Runtime/Promotion/Inputs.antt =====
-- `_missing_provenance_inputs` and `supply_missing_promotion_readiness_inputs` of
-- nanobot/runtime/promotion.py.
use Prim.Native.String.{◌++◌ as concat}
use eeebot_self_evolving.Prelude.{
  Bool, true, false, ◌&&◌, not, none, some, String, List, [], ◌∷◌, ◌++◌, map, if◌then◌else◌, codes,
  lstrip, rstrip,
}
use eeebot_self_evolving.Prelude.Json.{Json, Items, Fields}
use eeebot_self_evolving.Prelude.Effects.{ok, exception, Method, pure, throw, ◌>>=◌}
use eeebot_self_evolving.Runtime.Dict.{lookup, assign_all, dict, as_dict, either, is_true, is_text}
use eeebot_self_evolving.Runtime.Promotion.{
  Promotions, World, candidate_place, packet_place, is_valid_id, write_json, read_json, texts,
}
use eeebot_self_evolving.Runtime.Promotion.Readiness.{governance_of, write_candidate, packet_text}

-- `not value.strip()`
unfoldable pub is_blank : String → Bool
is_blank t = elim (lstrip (rstrip (codes t))) [ [] ↦ true | _ ∷ _ ↦ false ]

-- `None`, a blank text, or an empty list or dict.
unfoldable pub is_missing : Json → Bool
unfolding is_blank
is_missing Json.null = true
is_missing (Json.str t) = is_blank t
is_missing (Json.arr Items.nil) = true
is_missing (Json.obj Fields.end) = true
is_missing _ = false

unfoldable pub missing_of : List (String × Json) → List String
unfolding is_missing
missing_of [] = []
missing_of ((k, v) ∷ rest) =
    let later = missing_of rest in if is_missing v then k ∷ later else later

abbrev pub provenance_values : Fields → List (String × Json)
provenance_values candidate =
    let provenance = as_dict (lookup "promotion_provenance" candidate) in
    let fingerprint = as_dict (lookup "deployment_fingerprint" provenance) in
    ("source_commit", either (lookup "source_commit" provenance) (lookup "source_commit" candidate))
    ∷ (
      "build_recipe_hash",
      either (lookup "build_recipe_hash" provenance) (lookup "build_recipe_hash" candidate),
    )
    ∷ (
      "artifact_id",
      either (lookup "artifact_id" provenance) (lookup "promotion_candidate_id" candidate),
    )
    ∷ (
      "artifact_version",
      either (lookup "artifact_version" provenance) (lookup "origin_cycle_id" candidate),
    )
    ∷ ("release_channel", lookup "release_channel" provenance)
    ∷ ("target_host_profile", lookup "target_host_profile" provenance)
    ∷ ("target_authority", lookup "target_authority" provenance)
    ∷ (
      "deployment_fingerprint_id",
      either (lookup "deployment_fingerprint_id" fingerprint)
          (lookup "deployment_fingerprint_id" provenance),
    )
    ∷ (
      "rollback_evidence",
      either (lookup "rollback_evidence" provenance) (lookup "rollback_plan" candidate),
    )
    ∷ []

unfoldable pub missing_provenance_inputs : Fields → List String
unfolding missing_of
missing_provenance_inputs candidate = missing_of (provenance_values candidate)

-- `candidate.get("evidence_refs")` if it is a list that is not empty.
abbrev pub has_evidence : Fields → Bool
has_evidence candidate = elim (lookup "evidence_refs" candidate) [
  | Json.arr (Items.cons _ _) ↦ true
  | _ ↦ false
]

abbrev pub is_blocked : Fields → Bool
is_blocked candidate =
    is_text "blocked_not_ready" (lookup "decision_record" candidate)
    && is_text "not_created_not_ready" (lookup "accepted_record" candidate)

module _ (w : World) (id : String) (completed_at : String) where
  abbrev pub artifact_present : Fields → Bool
  artifact_present candidate =
      let artifact_path = lookup "artifact_path" candidate in
      is_true artifact_path && w.artifact_exists artifact_path

  -- All that is missing, without the ending "_missing" of the reasons.
  unfoldable pub all_missing : Fields → List String
  unfolding missing_provenance_inputs
  all_missing candidate =
      missing_provenance_inputs candidate
      ++ (if artifact_present candidate then [] else "artifact" ∷ [])
      ++ (if has_evidence candidate then [] else "evidence_refs" ∷ [])

  abbrev pub next_action : List String → String
  next_action [] = "ready_for_policy_review"
  next_action (field ∷ _) = concat "supply_" (concat field "_or_policy_override")

  -- One text where nothing is missing, another where something is.
  abbrev pub by_missing : List String → String → String → Json
  by_missing [] ready blocked = Json.str ready
  by_missing (_ ∷ _) ready blocked = Json.str blocked

  abbrev pub readiness_checks : Fields → Json
  readiness_checks candidate =
      let missing_inputs = missing_provenance_inputs candidate in
      Json.obj (
        dict (
          ("schema_version", Json.str "promotion-readiness-inputs-v1")
          ∷ ("artifact_present", Json.bool (artifact_present candidate))
          ∷ ("evidence_refs_present", Json.bool (has_evidence candidate))
          ∷ ("provenance_complete", Json.bool (elim missing_inputs [ [] ↦ true | _ ∷ _ ↦ false ]))
          ∷ ("missing_inputs", texts missing_inputs)
          ∷ []))

  abbrev pub reasons_of : List String → Json
  reasons_of missing = texts (map (λ field. concat field "_missing") missing)

  unfoldable pub blocker_of : Fields → List String → Fields
  blocker_of candidate missing = dict (
      ("schema_version", Json.str "promotion-readiness-inputs-blocker-v1")
      ∷ ("state", by_missing missing "ready_for_policy_review" "blocked")
      ∷ (
        "reason",
        by_missing missing "promotion_readiness_inputs_supplied"
            "promotion_readiness_inputs_missing",
      )
      ∷ ("promotion_candidate_id", Json.str id)
      ∷ ("missing_inputs", texts missing)
      ∷ ("readiness_checks", readiness_checks candidate)
      ∷ ("readiness_reasons", reasons_of missing)
      ∷ ("recommended_next_action", Json.str (next_action missing))
      ∷ ("completed_at_utc", Json.str completed_at)
      ∷ [])

  abbrev pub updated_packet : Fields → List String → Fields → Fields
  updated_packet candidate missing packet =
      let blocker = blocker_of candidate missing in
      assign_all
        (("schema_version", Json.str "promotion-readiness-packet-v1")
          ∷ ("promotion_candidate_id", Json.str id)
          ∷ ("state", lookup "state" blocker)
          ∷ ("reason", lookup "reason" blocker)
          ∷ ("readiness_checks", readiness_checks candidate)
          ∷ ("readiness_reasons", reasons_of missing)
          ∷ ("readiness_blocker", Json.obj blocker)
          ∷ ("recommended_next_action", Json.str (next_action missing))
          ∷ ("readiness_inputs_completed_at_utc", Json.str completed_at)
          ∷ [])
        packet

  unfoldable pub supplied_candidate : Fields → List String → Fields
  unfolding blocker_of
  supplied_candidate candidate missing =
      let status = by_missing missing "ready_for_policy_review" "not_ready_for_policy_review" in
      let blocker = Json.obj (blocker_of candidate missing) in
      assign_all
        (("review_status", status)
          ∷ ("decision", status)
          ∷ ("decision_record", Json.str "blocked_not_ready")
          ∷ ("accepted_record", Json.str "not_created_not_ready")
          ∷ ("readiness_packet_path", packet_text w id completed_at)
          ∷ ("readiness_checks", readiness_checks candidate)
          ∷ ("readiness_reasons", reasons_of missing)
          ∷ ("readiness_blocker", blocker)
          ∷ ("recommended_next_action", Json.str (next_action missing))
          ∷ (
            "governance_packet",
            Json.obj (
                assign_all
                  ((
                    "review_packet_status",
                    by_missing missing "pending_operator_review" "blocked_not_ready",
                  )
                    ∷ ("readiness_packet_path", packet_text w id completed_at)
                    ∷ ("readiness_blocker", blocker)
                    ∷ [])
                  (governance_of candidate)),
          )
          ∷ [])
        candidate

  -- The packet, or an empty dict if there is none.
  unfoldable pub read_packet : Method Promotions Fields
  unfolding read_json
  read_packet s = elim (s.files (packet_place id)) [
    | none ↦ (ok Fields.end, s)
    | some _ ↦ read_json (packet_place id) s
  ]

  unfoldable pub write_inputs : Fields → List String → Fields → Method Promotions Fields
  unfolding write_json write_candidate blocker_of supplied_candidate
  write_inputs candidate missing packet =
      write_json w (packet_place id) (Json.obj (updated_packet candidate missing packet)) >>= λ _.
      write_candidate w id completed_at (supplied_candidate candidate missing) >>= λ _.
      pure (blocker_of candidate missing)

  unfoldable pub supply_missing_promotion_readiness_inputs : Method Promotions Fields
  unfolding read_json read_packet write_inputs all_missing is_valid_id
  supply_missing_promotion_readiness_inputs =
      if not (is_valid_id id)
      then throw (exception "candidate_id is invalid")
      else read_json (candidate_place id) >>= λ candidate.
          if is_blocked candidate
          then read_packet >>= write_inputs candidate (all_missing candidate)
          else throw (exception "promotion candidate is not a blocked not-ready readiness packet")
