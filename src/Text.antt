-- ===== src/Text.antt =====
-- The splitting of long messages (nanobot/utils/helpers.py). Texts are lists of code points.
use eeebot_self_evolving.Prelude.{
  ℕ, zero, suc, Option, none, some, List, [], ◌∷◌, ◌==◌, leb, if◌then◌else◌, take, drop, length,
  lstrip,
}
pub mod Chunks
mod Tests

-- `text.rfind(c)`; `none` is -1.
unfoldable pub rfind : ℕ → List ℕ → Option ℕ
rfind c [] = none
rfind c (x ∷ xs) = elim (rfind c xs) [
  | some p ↦ some (suc p)
  | none ↦ if x == c then some 0 else none
]

-- `pos` of the loop, where a position that is not positive is passed over.
unfoldable pub break_at : ℕ → List ℕ → ℕ
unfolding rfind
break_at max_len content =
    let cut = take max_len content in
    elim (rfind 10 cut) [
      | some (suc p) ↦ suc p
      | _ ↦ elim (rfind 32 cut) [ some (suc p) ↦ suc p | _ ↦ max_len ]
    ]

-- The loop of `split_message`; `none` says that the fuel is used up.
unfoldable pub split_loop : ℕ → ℕ → List ℕ → Option (List (List ℕ))
unfolding break_at
split_loop fuel max_len [] = some []
split_loop zero max_len (x ∷ xs) = none
split_loop (suc fuel) max_len (x ∷ xs) =
    let pos = break_at max_len (x ∷ xs) in
    let rest = split_loop fuel max_len (lstrip (drop pos (x ∷ xs))) in
    if leb (length (x ∷ xs)) max_len
    then some ((x ∷ xs) ∷ [])
    else elim rest [ none ↦ none | some chunks ↦ some (take pos (x ∷ xs) ∷ chunks) ]

-- A round of the loop removes a character, so that the length is enough fuel.
unfoldable pub split_message : ℕ → List ℕ → Option (List (List ℕ))
unfolding split_loop
split_message max_len [] = some []
split_message max_len (x ∷ xs) =
    if leb (length (x ∷ xs)) max_len
    then some ((x ∷ xs) ∷ [])
    else split_loop (length (x ∷ xs)) max_len (x ∷ xs)
