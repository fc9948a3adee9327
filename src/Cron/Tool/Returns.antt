-- ===== src/Cron/Tool/Returns.antt =====
-- The calls that the cron tool makes return.
use eeebot_self_evolving.Prelude.{
  ℕ, ◌≡◌, refl, ap, ◌∙◌, Bool, true, false, not, inl, inr, some, String, List, eq_iff, ltb, length,
  keep, str_eq, Bool-cases,
}
use eeebot_self_evolving.Prelude.Effects.{Result, ok, and_then, ◌>>=◌}
use eeebot_self_evolving.Cron.World.{World}
use eeebot_self_evolving.Cron.Store.{Service, Cron, load_store}
use eeebot_self_evolving.Cron.Jobs.{list_loaded, list_jobs, remove_from, remove_job}
use eeebot_self_evolving.Cron.RoundTrip.{load_store_inv}
use eeebot_self_evolving.Cron.Saving.{then_pure}

-- What is answered of a result changes nothing.
pub answer_of :
    {A : Type 0} (m : Cron A) (f : A → Service → String) (v : A) (s : Service)
    → (m s).0 ≡ ok v
    → (m >>= λ x. λ u. (ok (f x u), u)) s ≡ (ok (f v (m s).1), (m s).1)
answer_of m f v s e = rw e refl

pub list_jobs_returns : (s : Service) → (refs : List ℕ) × ((list_jobs false s).0 ≡ ok refs)
unfolding list_jobs list_loaded
list_jobs_returns s =
    let (refs, loaded, stored) = load_store_inv s in
    (_, ap (λ (p : Result (List ℕ) × Service). (and_then p.0 (list_loaded false) p.1).0) loaded)

remove_from_returns :
    (w : World) (id : String) (refs : List ℕ) (s : Service)
    → (removed : Bool) × ((remove_from w id refs s).0 ≡ ok removed)
unfolding remove_from
remove_from_returns w id refs s =
    let kept = keep (λ r. not (str_eq (s.heap r).id id)) refs in
    elim (Bool-cases (ltb (length kept) (length refs))) [
      | inl e ↦ rw e (
        true,
        ap (λ (p : Result Bool × Service). p.0) (then_pure w true (record s { store = some kept })),
      )
      | inr e ↦ rw e (false, refl)
    ]

pub remove_job_returns :
    (w : World) (id : String) (s : Service)
    → (removed : Bool) × ((remove_job w id s).0 ≡ ok removed)
unfolding remove_job
remove_job_returns w id s =
    let (refs, loaded, stored) = load_store_inv s in
    let (removed, e) = remove_from_returns w id refs (load_store s).1 in
    (
      removed,
      ap (λ (p : Result (List ℕ) × Service). (and_then p.0 (remove_from w id) p.1).0) loaded ∙ e,
    )

-- A text is equal to one word at most.
pub other_word : (a x y : String) → str_eq a x ≡ true → str_eq x y ≡ false → str_eq a y ≡ false
other_word a x y e h = rw ((eq_iff a x).0 e) h
