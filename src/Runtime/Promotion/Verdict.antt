-- ===== src/Runtime/Promotion/Verdict.antt =====
-- What a review writes (`review_promotion_candidate` of nanobot/runtime/promotion.py).
use eeebot_self_evolving.Prelude.{
  ℕ, true, false, some, String, ◌≡◌, inl, inr, refl, Bool-cases, str_eq, eq_iff, if◌then◌else◌,
}
use eeebot_self_evolving.Prelude.Json.{Json, Fields}
use eeebot_self_evolving.Prelude.Effects.{Result, ok}
use eeebot_self_evolving.Runtime.Promotion.{
  decisions, patches, accepted, parsed, Promotions, World, candidate_place, latest_place,
  is_valid_id,
}
use eeebot_self_evolving.Runtime.Promotion.Inputs.{is_blank}
use eeebot_self_evolving.Runtime.Promotion.Review.{
  place, reviewed, decision_record, latest_payload, patch_bundle, accepted_record, write_accepted,
  write_review, review_promotion_candidate, is_valid_decision,
}
use eeebot_self_evolving.Runtime.Promotion.Workflow.{Holds, write_json-ok, read_json-ok, wrote}

module _ (w : World) (id decision reason time : String) where
  -- The files before the accepted record.
  abbrev decided : Fields → Promotions → Promotions
  decided d s = wrote latest_place (Json.obj (latest_payload w id decision reason time d)) (
      wrote (place w id decision reason time decisions)
        (Json.obj (decision_record w id decision reason time d))
        (wrote (candidate_place id) (Json.obj d) s))

  abbrev accepted_too : Fields → Promotions → Promotions
  accepted_too d s =
      if str_eq decision "accept"
      then wrote (place w id decision reason time accepted)
          (Json.obj (accepted_record w id decision reason time d))
          (wrote (place w id decision reason time patches)
            (Json.obj (patch_bundle w id decision reason time d)) s)
      else s

  -- The files after a review.
  pub record IsReviewed (candidate : Fields) (s : Promotions) (p : Result Fields × Promotions)
      : Type 0 where
    pub returned :
        p.0
        ≡ ok (
            latest_payload w id decision reason time (reviewed w id decision reason time candidate))
    pub decided :
        Holds p.1
          (place w id decision reason time decisions)
          (decision_record w id decision reason time (reviewed w id decision reason time candidate))
    pub latest :
        Holds p.1 latest_place
          (latest_payload w id decision reason time (reviewed w id decision reason time candidate))
    pub accepted : p.1.files (place w id decision reason time accepted) ≡ (
        if str_eq decision "accept"
        then some (
            parsed (
              Json.obj (
                accepted_record w id decision reason time
                  (reviewed w id decision reason time candidate))))
        else s.files (place w id decision reason time accepted))

  module _ (disk : (n : ℕ) → w.write_ok n ≡ true) where
    write_accepted-ok :
        (d : Fields) (s : Promotions)
        → write_accepted w id decision reason time d s ≡ (ok tt, accepted_too d s)
    unfolding write_accepted
    write_accepted-ok d s = elim (Bool-cases (str_eq decision "accept")) [
      | inl e ↦ rw (e, write_json-ok w disk, write_json-ok w disk) refl
      | inr e ↦ rw e refl
    ]

    write_review-ok :
        (d : Fields) (s : Promotions)
        → write_review w id decision reason time d s
          ≡ (ok (latest_payload w id decision reason time d), accepted_too d (decided d s))
    unfolding write_review
    write_review-ok d s =
        let s1 = wrote (candidate_place id) (Json.obj d) s in
        let record_of = Json.obj (decision_record w id decision reason time d) in
        let s2 = wrote (place w id decision reason time decisions) record_of s1 in
        let payload = Json.obj (latest_payload w id decision reason time d) in
        rw
          (
            write_json-ok w disk (candidate_place id) (Json.obj d) s,
            write_json-ok w disk (place w id decision reason time decisions) record_of s1,
            write_json-ok w disk latest_place payload s2,
            write_accepted-ok d (decided d s),
          )
          refl

    accepted_too-files :
        (candidate : Fields) (s : Promotions)
        → IsReviewed candidate s (
          ok (
              latest_payload w id decision reason time
                (reviewed w id decision reason time candidate)),
          accepted_too
              (reviewed w id decision reason time candidate)
              (decided (reviewed w id decision reason time candidate) s),
        )
    accepted_too-files candidate s = elim (Bool-cases (str_eq decision "accept")) [
      | inl e ↦
          let self = (eq_iff id id).1 refl in
          record {
            returned = refl;
            decided = rw (e, self) refl;
            latest = rw e refl;
            accepted = rw (e, self) refl;
          }
      | inr e ↦
          let self = (eq_iff id id).1 refl in
          record {
            returned = refl;
            decided = rw (e, self) refl;
            latest = rw e refl;
            accepted = rw e refl;
          }
    ]

-- When all writes succeed, a review with a valid decision, a reason and a valid candidate's name,
-- of a candidate whose file holds a dict, returns. It writes the decision's record and the latest
-- payload, which it returns, and it writes an accepted record exactly when the decision is "accept":
-- with any other decision the accepted record of the candidate, if there is one, stays as it was.
pub review_promotion_candidate_lem :
    (w : World)
    → ((n : ℕ) → w.write_ok n ≡ true)
    → (id decision reason time : String) (s : Promotions) (candidate : Fields)
    → is_valid_decision decision ≡ true
    → is_blank reason ≡ false
    → is_valid_id id ≡ true
    → Holds s (candidate_place id) candidate
    → IsReviewed w id decision reason time candidate s
        (review_promotion_candidate w id decision reason time s)
unfolding review_promotion_candidate
review_promotion_candidate_lem w disk id decision reason time s candidate hd hr hi hc =
    rw
      (
        hd,
        hr,
        hi,
        read_json-ok (candidate_place id) candidate s hc,
        write_review-ok w id decision reason time disk,
      )
      (accepted_too-files w id decision reason time disk candidate s)
