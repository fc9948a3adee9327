-- ===== src/Runtime/Promotion/Gate.antt =====
-- The accepted records (nanobot/runtime/promotion.py).
use eeebot_self_evolving.Prelude.{Bool, true, false, some, String, List, [], ◌∷◌, ◌≡◌}
use eeebot_self_evolving.Prelude.Json.{Json, Fields}
use eeebot_self_evolving.Runtime.Dict.{lookup}
use eeebot_self_evolving.Runtime.Promotion.{Folder, accepted, Content, parsed, Promotions, World}
use eeebot_self_evolving.Runtime.Promotion.Readiness.{complete_promotion_readiness_packet}
use eeebot_self_evolving.Runtime.Promotion.Inputs.{supply_missing_promotion_readiness_inputs}
use eeebot_self_evolving.Runtime.Promotion.Review.{review_promotion_candidate}

-- A record that says that a review accepted it.
abbrev pub IsAcceptance : Fields → Type 0
IsAcceptance d =
    (lookup "decision" d ≡ Json.str "accept") × (lookup "review_status" d ≡ Json.str "reviewed")

-- Every file in the folder of the accepted records is the record of an acceptance.
pub record IsSound (s : Promotions) : Type 0 where
  pub at :
      (name : String) (c : Content)
      → s.files (record { folder = accepted; name = name }) ≡ some c
      → (d : Fields) × (c ≡ parsed (Json.obj d)) × IsAcceptance d

abbrev is_accepted : Folder → Bool
is_accepted accepted = true
is_accepted _ = false

-- A call of one of the three functions.
pub data Call : Type 0 where
  complete supply : (id time : String) → Call
  review : (id decision reason time : String) → Call

unfoldable pub perform : World → Call → Promotions → Promotions
unfolding complete_promotion_readiness_packet supply_missing_promotion_readiness_inputs
    review_promotion_candidate
perform w (complete id time) s = (complete_promotion_readiness_packet w id time s).1
perform w (supply id time) s = (supply_missing_promotion_readiness_inputs w id time s).1
perform w (review id decision reason time) s =
    (review_promotion_candidate w id decision reason time s).1

unfoldable pub perform_all : World → List Call → Promotions → Promotions
unfolding perform
perform_all w [] s = s
perform_all w (c ∷ cs) s = perform_all w cs (perform w c s)
