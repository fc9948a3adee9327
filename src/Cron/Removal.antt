-- ===== src/Cron/Removal.antt =====
-- `remove_job` on the list of jobs and on the store file.
use mathlib.Core.Path.{subst}
use eeebot_self_evolving.Prelude.{
  ℕ, ◌≤◌, ◌≡◌, refl, sym, ap, ◌∙◌, Bool, true, false, ◌||◌, ◌⊎◌, inl, inr, Option, some, String,
  List, [], ◌∷◌, map, arith, or_else, keep, length, ltb, str_eq, not, Bool-cases,
}
use eeebot_self_evolving.Prelude.Effects.{Result, ok, and_then}
use eeebot_self_evolving.Cron.Types.{CronJob}
use eeebot_self_evolving.Cron.World.{World}
use eeebot_self_evolving.Cron.Store.{Service, jobs_of, load_store}
use eeebot_self_evolving.Cron.Jobs.{remove_from, remove_job}
use eeebot_self_evolving.Cron.RoundTrip.{load_store_inv}
use eeebot_self_evolving.Cron.Saving.{
  IsPersisted, map-keep, then_pure, jobs_of-saved, saved-IsPersisted,
}

-- Whether a job of the list has the id, and the jobs that have another.
pub contains : String → List CronJob → Bool
contains id [] = false
contains id (j ∷ js) = str_eq j.id id || contains id js

abbrev pub other_id : String → CronJob → Bool
other_id id j = not (str_eq j.id id)

length-keep-le {ℓ} : {A : Type ℓ} (p : A → Bool) (xs : List A) → length (keep p xs) ≤ length xs
length-keep-le p [] = omega arith
length-keep-le p (x ∷ xs) = ground (arith, length-keep-le p xs)

shorter-eq-contains :
    (heap : ℕ → CronJob) (id : String) (refs : List ℕ)
    → ltb (length (keep (λ r. other_id id (heap r)) refs)) (length refs)
      ≡ contains id (map heap refs)
unfolding contains
shorter-eq-contains heap id [] = refl
shorter-eq-contains heap id (r ∷ rs) =
    ground
      (arith, shorter-eq-contains heap id rs, length-keep-le (λ (q : ℕ). other_id id (heap q)) rs)

module _ (w : World) (id : String) where
  -- What `remove_job` promises of the jobs that it found.
  abbrev Removes : List CronJob → Result Bool × Service → Type 0
  Removes js u =
      (u.0 ≡ ok (contains id js))
      × (jobs_of u.1 ≡ keep (other_id id) js)
      × ((contains id js ≡ false) ⊎ IsPersisted u.1)

  remove_from-Removes :
      (refs : List ℕ) (s : Service) → Removes (map s.heap refs) (remove_from w id refs s)
  unfolding remove_from
  remove_from-Removes refs s =
      let t : Service = record s { store = some (keep (λ r. other_id id (s.heap r)) refs) } in
      let same = map-keep s.heap (other_id id) refs in
      let counted = shorter-eq-contains s.heap id refs in
      elim (Bool-cases (contains id (map s.heap refs))) [
        | inl e ↦
            rw (counted, e)
              (rw (then_pure w true t)
                (refl, jobs_of-saved w t ∙ same, inr (saved-IsPersisted w t _ refl)))
        | inr e ↦ rw (counted, e) (refl, same, inl refl)
      ]

-- `remove_job` removes exactly the jobs with the id and keeps the order of the rest. It returns
-- whether there was one, and then the file holds the jobs that are left.
pub remove_job_lem :
    (w : World) (id : String) (s : Service)
    → let jobs = jobs_of (load_store s).1 in
      ((remove_job w id s).0 ≡ ok (contains id jobs))
      × (jobs_of (remove_job w id s).1 ≡ keep (other_id id) jobs)
      × ((contains id jobs ≡ false) ⊎ IsPersisted (remove_job w id s).1)
unfolding remove_job
remove_job_lem w id s =
    let (refs, loaded, stored) = load_store_inv s in
    let t = (load_store s).1 in
    let run = ap (λ (p : Result (List ℕ) × Service). and_then p.0 (remove_from w id) p.1) loaded in
    let found = ap (λ (o : Option (List ℕ)). map t.heap (or_else o [])) stored in
    subst (Removes w id (jobs_of t)) (sym run) (
      subst (λ js. Removes w id js (remove_from w id refs t)) (sym found)
        (remove_from-Removes w id refs t))
