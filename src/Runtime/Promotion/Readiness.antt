-- ===== src/Runtime/Promotion/Readiness.antt =====
-- `complete_promotion_readiness_packet` of nanobot/runtime/promotion.py. The time is the text of `_utc_iso(now)`.
use eeebot_self_evolving.Prelude.{
  Bool, true, false, ◌||◌, not, Option, none, some, String, List, [], ◌∷◌, ◌++◌, str_eq,
  if◌then◌else◌,
}
use eeebot_self_evolving.Prelude.Json.{Json, Fields}
use eeebot_self_evolving.Prelude.Effects.{exception, Method, pure, throw, ◌>>=◌}
use eeebot_self_evolving.Runtime.Dict.{lookup, assign_all, dict, as_dict, either, is_text}
use eeebot_self_evolving.Runtime.Promotion.{
  Promotions, World, candidate_place, latest_place, packet_place, is_valid_id, write_json,
  read_json, texts,
}

-- `value in {None, "", "missing"}`; `none` is the `TypeError` of a value that has no hash.
unfoldable pub is_unrecorded : Json → Option Bool
is_unrecorded Json.null = some true
is_unrecorded (Json.str s) = some (str_eq s "" || str_eq s "missing")
is_unrecorded (Json.arr _) = none
is_unrecorded (Json.obj _) = none
is_unrecorded _ = some false

-- The names of the two records that are missing.
unfoldable pub missing_records : Fields → Option (List String)
unfolding is_unrecorded
missing_records candidate = elim (is_unrecorded (lookup "decision_record" candidate)) [
  | none ↦ none
  | some decision ↦ elim (is_unrecorded (lookup "accepted_record" candidate)) [
    | none ↦ none
    | some accepted ↦ some (
        (if decision then "decision_record" ∷ [] else [])
        ++ (if accepted then "accepted_record" ∷ [] else []))
  ]
]

abbrev pub governance_of : Fields → Fields
governance_of candidate = as_dict (lookup "governance_packet" candidate)

-- One of the three marks says that the candidate is not ready.
unfoldable pub is_not_ready : Fields → Bool
is_not_ready candidate =
    let governance = governance_of candidate in
    is_text "not_ready_for_policy_review" (lookup "review_status" candidate)
    || (is_text "not_ready_for_policy_review" (lookup "decision" candidate)
        || is_text "not_ready" (
            either (lookup "review_packet_status" governance)
              (lookup "review_packet_status" candidate)))

module _ (w : World) (id : String) (completed_at : String) where
  abbrev pub readiness_packet : Fields → List String → Fields
  readiness_packet candidate missing =
      let governance = governance_of candidate in
      dict (
        ("schema_version", Json.str "promotion-readiness-packet-v1")
        ∷ ("promotion_candidate_id", Json.str id)
        ∷ ("origin_cycle_id", lookup "origin_cycle_id" candidate)
        ∷ ("state", Json.str "blocked")
        ∷ ("reason", Json.str "promotion_candidate_not_ready_for_policy_review")
        ∷ ("review_status", Json.str "not_ready_for_policy_review")
        ∷ ("decision", Json.str "not_ready_for_policy_review")
        ∷ ("decision_record", Json.str "blocked_not_ready")
        ∷ ("accepted_record", Json.str "not_created_not_ready")
        ∷ ("missing_records", texts missing)
        ∷ (
          "readiness_checks",
          either (lookup "readiness_checks" candidate) (lookup "readiness_checks" governance),
        )
        ∷ (
          "readiness_reasons",
          either
              (either (lookup "readiness_reasons" candidate)
                (lookup "readiness_reasons" governance))
              (texts []),
        )
        ∷ ("candidate_path", Json.str (w.path_text (candidate_place id)))
        ∷ ("artifact_path", lookup "artifact_path" candidate)
        ∷ ("completed_at_utc", Json.str completed_at)
        ∷ ("recommended_next_action", Json.str "supply_missing_promotion_readiness_inputs")
        ∷ [])

  abbrev pub packet_text : Json
  packet_text = Json.str (w.path_text (packet_place id))

  -- The candidate with its packet.
  abbrev pub blocked_candidate : Fields → Fields
  blocked_candidate candidate =
      assign_all
        (("review_status", Json.str "not_ready_for_policy_review")
          ∷ ("decision", Json.str "not_ready_for_policy_review")
          ∷ ("decision_record", Json.str "blocked_not_ready")
          ∷ ("accepted_record", Json.str "not_created_not_ready")
          ∷ ("readiness_packet_path", packet_text)
          ∷ ("readiness_packet_completed_at_utc", Json.str completed_at)
          ∷ ("recommended_next_action", Json.str "supply_missing_promotion_readiness_inputs")
          ∷ (
            "governance_packet",
            Json.obj (
                assign_all
                  (("review_packet_status", Json.str "blocked_not_ready")
                    ∷ ("readiness_packet_path", packet_text)
                    ∷ ("readiness_packet_schema_version", Json.str "promotion-readiness-packet-v1")
                    ∷ [])
                  (governance_of candidate)),
          )
          ∷ [])
        candidate

  -- The candidate's file and "latest.json".
  unfoldable pub write_candidate : Fields → Method Promotions Unit
  unfolding write_json
  write_candidate updated = write_json w (candidate_place id) (Json.obj updated) >>= λ _.
      write_json w latest_place (
        Json.obj (
          assign_all (("candidate_path", Json.str (w.path_text (candidate_place id))) ∷ [])
            updated))

  unfoldable pub write_packet : Fields → Option (List String) → Method Promotions Fields
  unfolding write_json write_candidate
  write_packet candidate none = throw (exception "TypeError")
  write_packet candidate (some missing) =
      let packet = readiness_packet candidate missing in
      write_json w (packet_place id) (Json.obj packet) >>= λ _.
      write_candidate (blocked_candidate candidate) >>= λ _.
      pure (assign_all (("readiness_packet_path", packet_text) ∷ []) packet)

  unfoldable pub complete_promotion_readiness_packet : Method Promotions Fields
  unfolding read_json write_packet is_not_ready missing_records is_valid_id
  complete_promotion_readiness_packet =
      if not (is_valid_id id)
      then throw (exception "candidate_id is invalid")
      else read_json (candidate_place id) >>= λ candidate.
          if is_not_ready candidate
          then write_packet candidate (missing_records candidate)
          else throw (exception "promotion candidate is not in not-ready policy-review state")
