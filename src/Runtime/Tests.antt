-- ===== src/Runtime/Tests.antt =====
-- A small promotion, and the theorems at it.
use eeebot_self_evolving.Prelude.{ℕ, true, none, some, [], ◌∷◌, ◌≡◌, refl, if◌then◌else◌}
use eeebot_self_evolving.Prelude.Json.{Json, Fields}
use eeebot_self_evolving.Runtime.Dict.{dict}
use eeebot_self_evolving.Runtime.Promotion.{
  Promotions, World, parsed, same_place, candidate_place, is_valid_id, write_json, read_json,
}
use eeebot_self_evolving.Runtime.Promotion.Readiness.{
  complete_promotion_readiness_packet, write_packet, write_candidate, missing_records,
  is_unrecorded, is_not_ready,
}
use eeebot_self_evolving.Runtime.Promotion.Inputs.{
  all_missing, missing_provenance_inputs, missing_of, is_missing, is_blank,
}
use eeebot_self_evolving.Runtime.Promotion.Review.{review_promotion_candidate, is_valid_decision}
use eeebot_self_evolving.Runtime.Promotion.Verdict.{IsReviewed, review_promotion_candidate_lem}

abbrev world : World
world = record { write_ok = λ _. true; path_text = λ p. p.name; artifact_exists = λ _. true }

abbrev candidate : Fields
candidate = dict (("review_status", Json.str "not_ready_for_policy_review") ∷ [])

abbrev start : Promotions
start = record {
  files =
      λ p. if same_place p (candidate_place "c1") then some (parsed (Json.obj candidate)) else none;
  writes = 0;
}

program : Unit {0}
unfolding complete_promotion_readiness_packet is_valid_id read_json write_packet write_candidate
    write_json missing_records is_unrecorded is_not_ready all_missing missing_provenance_inputs
    missing_of is_missing is_blank is_valid_decision
program = tt

writes_always : (n : ℕ) → world.write_ok n ≡ true
writes_always n = refl

review_promotion_candidate_lem_example :
    IsReviewed world "c1" "reject" "weak" "v" candidate start
      (review_promotion_candidate world "c1" "reject" "weak" "v" start)
unfolding program
review_promotion_candidate_lem_example =
    review_promotion_candidate_lem world writes_always "c1" "reject" "weak" "v" start candidate refl
      refl refl refl
