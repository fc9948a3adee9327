-- ===== src/Runtime/Promotion/Workflow.antt =====
-- How the steps of a promotion follow each other (nanobot/runtime/promotion.py).
use eeebot_self_evolving.Prelude.{
  ℕ, suc, true, some, String, List, [], ◌∷◌, ◌≡◌, refl, if◌then◌else◌,
}
use eeebot_self_evolving.Prelude.Json.{Json, Fields}
use eeebot_self_evolving.Prelude.Effects.{ok, exception, Method, throw, ◌>>=◌}
use eeebot_self_evolving.Runtime.Dict.{assign_all}
use eeebot_self_evolving.Runtime.Promotion.{
  Place, parsed, Promotions, World, put, candidate_place, latest_place, packet_place, write_json,
  read_json,
}
use eeebot_self_evolving.Runtime.Promotion.Readiness.{write_packet, missing_records, is_not_ready}
use eeebot_self_evolving.Runtime.Promotion.Inputs.{is_blocked}

-- The file holds a dict.
abbrev pub Holds : Promotions → Place → Fields → Type 0
Holds s p d = s.files p ≡ some (parsed (Json.obj d))

-- The state after the write of `v`.
abbrev pub wrote : Place → Json → Promotions → Promotions
wrote p v s = record s { files = put s.files p v; writes = suc s.writes }

pub read_json-ok :
    (p : Place) (d : Fields) (s : Promotions) → Holds s p d → read_json p s ≡ (ok d, s)
unfolding read_json
read_json-ok p d s h = rw (h, read_json) refl

module _ (w : World) (disk : (n : ℕ) → w.write_ok n ≡ true) where
  pub write_json-ok :
      (p : Place) (v : Json) (s : Promotions)
      → write_json w p v s ≡ (ok tt, record s { files = put s.files p v; writes = suc s.writes })
  unfolding write_json
  write_json-ok p v s = rw (disk s.writes) refl

  module _ (id time : String) where
    abbrev latest_of : Fields → Fields
    latest_of d =
        assign_all (("candidate_path", Json.str (w.path_text (candidate_place id))) ∷ []) d

    abbrev candidate_written : Fields → Promotions → Promotions
    candidate_written d s =
        wrote latest_place (Json.obj (latest_of d)) (wrote (candidate_place id) (Json.obj d) s)

    -- What `complete_promotion_readiness_packet` leaves: a blocked candidate and its packet.
    abbrev IsBlockedAt : Promotions → Type 0
    IsBlockedAt s =
        (d : Fields) × (packet : Fields) × Holds s (candidate_place id) d
        × (is_blocked d ≡ true)
        × Holds s (packet_place id) packet

    abbrev after_read : Fields → Method Promotions Fields
    after_read candidate =
        if is_not_ready candidate
        then write_packet w id time candidate (missing_records candidate)
        else throw (exception "promotion candidate is not in not-ready policy-review state")

    abbrev checked : Method Promotions Fields
    checked = read_json (candidate_place id) >>= after_read

-- The state of a blocker.
abbrev pub state_for : List String → Json
state_for [] = Json.str "ready_for_policy_review"
state_for (_ ∷ _) = Json.str "blocked"
