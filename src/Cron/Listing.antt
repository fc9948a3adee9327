-- ===== src/Cron/Listing.antt =====
-- `list_jobs`: the jobs that are shown, sorted by their next run.
use mathlib.Core.List.Perm
use mathlib.Core.List.{Perm}
use eeebot_self_evolving.Prelude.{
  ℕ, ◌≡◌, Bool, false, Option, List, [], ◌∷◌, or_else, All, keep, if◌then◌else◌,
}
use eeebot_self_evolving.Prelude.Int.{ℤ}
use eeebot_self_evolving.Cron.Store.{Service}
use eeebot_self_evolving.Cron.Jobs.{key_lt}

module _ (key : ℕ → Option ℤ) where
  -- No item is above a later one.
  abbrev pub IsSorted : List ℕ → Type 0
  IsSorted [] = Unit
  IsSorted (r ∷ rs) = All (λ q. key_lt (key q) (key r) ≡ false) rs × IsSorted rs

abbrev pick : Bool → Service → List ℕ → List ℕ
pick all t refs = if all then refs else keep (λ r. (t.heap r).enabled) refs

-- The jobs that `list_jobs` is to show.
abbrev pub shown : Bool → Service → List ℕ
shown all t = pick all t (or_else t.store [])
