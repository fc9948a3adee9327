-- ===== src/Text/Tests.antt =====
-- A message that is split at a line break, and the theorem at it.
use eeebot_self_evolving.Prelude.{ℕ, some, List, [], ◌∷◌, ◌≡◌, refl, All, arith}
use eeebot_self_evolving.Text.{split_message, split_loop, break_at, rfind}
use eeebot_self_evolving.Text.Chunks.{Fits, joined, visible, split_message_total}

abbrev message : List ℕ
message = b'a' ∷ b'b' ∷ 10 ∷ b'c' ∷ b'd' ∷ []

split_at_line : split_message 4 message ≡ some ((b'a' ∷ b'b' ∷ []) ∷ (b'c' ∷ b'd' ∷ []) ∷ [])
unfolding split_message split_loop break_at rfind
split_at_line = refl

split_message_total_example :
    (chunks : List (List ℕ)) × (split_message 4 message ≡ some chunks)
    × All (Fits 4) chunks
    × (visible (joined chunks) ≡ visible message)
split_message_total_example = split_message_total 4 message (omega arith)
