-- ===== src/Cron/Adding.antt =====
-- `add_job` on the list of jobs and on the store file.
use Prim.Native.String.{◌++◌ as append}
use mathlib.Core.Path.{subst}
use eeebot_self_evolving.Prelude.{
  ℕ, suc, ◌<◌, ◌≡◌, refl, sym, ap, ◌∙◌, Bool, true, false, ◌&&◌, ◌||◌, List, [], ◌∷◌, ◌++◌, map,
  arith, or_else, All, not, if◌then◌else◌, truthy,
}
use eeebot_self_evolving.Prelude.Effects.{
  Error, Result, ok, raise, pure, and_then, exception, ◌>>=◌,
}
use eeebot_self_evolving.Cron.Types.{CronJob, CronSchedule}
use eeebot_self_evolving.Cron.World.{World}
use eeebot_self_evolving.Cron.Store.{Service, Cron, jobs_of, update, load_store, now_ms}
use eeebot_self_evolving.Cron.Jobs.{
  NewJob, is_cron, new_job, new_id, append_job, validate_schedule_for_add, saved, add_job,
}
use eeebot_self_evolving.Cron.RoundTrip.{load_store_inv}
use eeebot_self_evolving.Cron.Shape.{IsWellFormed, load_store-IsWellFormed}
use eeebot_self_evolving.Cron.Saving.{IsPersisted, then_pure, jobs_of-saved, saved-IsPersisted}

module _ (w : World) where
  -- When `_validate_schedule_for_add` accepts: no time zone, or a known one for a cron schedule.
  unfoldable pub accepts : CronSchedule → Bool
  accepts schedule =
      not (truthy schedule.tz) || (is_cron schedule.kind && w.zone_known (or_else schedule.tz ""))

  validate_accepts :
      (schedule : CronSchedule) (s : Service)
      → accepts schedule ≡ true
      → validate_schedule_for_add w schedule s ≡ (ok tt, s)
  unfolding accepts validate_schedule_for_add
  validate_accepts schedule s h = ground arith

  unfoldable pub rejection : CronSchedule → Error
  rejection schedule =
      if is_cron schedule.kind
      then exception (append "unknown timezone '" (append (or_else schedule.tz "") "'"))
      else exception "tz can only be used with cron schedules"

  validate_rejects :
      (schedule : CronSchedule) (s : Service)
      → accepts schedule ≡ false
      → validate_schedule_for_add w schedule s ≡ (raise (rejection schedule), s)
  unfolding accepts rejection validate_schedule_for_add
  validate_rejects schedule s h = ground arith

-- The rest of `add_job` when the schedule is accepted.
module _ (w : World) (a : NewJob) where
  map-update :
      (heap : ℕ → CronJob) (n : ℕ) (j : CronJob) (refs : List ℕ)
      → All (λ r. r < n) refs
      → map (update heap n j) (refs ++ n ∷ []) ≡ map heap refs ++ j ∷ []
  map-update heap n j [] h = ground arith
  map-update heap n j (r ∷ rs) h = ground (arith, map-update heap n j rs h.1)

  -- The job that `add_job` makes in the service `t`.
  abbrev pub job_added : Service → CronJob
  job_added t = new_job w a (w.new_id t.ids) (w.now_ms t.reads)

  -- The service when the job is in the store.
  abbrev appended : Service → Service
  appended t = (append_job (job_added t) (record t { reads = suc t.reads; ids = suc t.ids })).1

  -- `add_job` behind the validation.
  abbrev add_valid : Cron ℕ
  add_valid = now_ms w >>= λ now.
      new_id w >>= λ id. append_job (new_job w a id now) >>= λ r. saved w >>= λ _. pure r

  add_accepted : (t : Service) → add_valid t ≡ (ok t.next_ref, (saved w (appended t)).1)
  unfolding now_ms new_id append_job
  add_accepted t = then_pure w t.next_ref (appended t)

  -- What an accepted `add_job` promises, from the loaded service `t`.
  abbrev Adds : Service → Result ℕ × Service → Type 0
  Adds t u = (u.0 ≡ ok t.next_ref) × (jobs_of u.1 ≡ jobs_of t ++ job_added t ∷ []) × IsPersisted u.1

  saved-Adds : (t : Service) → IsWellFormed t → Adds t (ok t.next_ref, (saved w (appended t)).1)
  unfolding append_job
  saved-Adds t h = (
    refl,
    jobs_of-saved w (appended t)
        ∙ map-update t.heap t.next_ref (job_added t) (or_else t.store []) h.below,
    saved-IsPersisted w (appended t) _ refl,
  )

  -- `add_job` behind the load.
  abbrev add_rest : Cron ℕ
  add_rest = validate_schedule_for_add w a.schedule >>= λ _. add_valid

  add_job_run : (s : Service) → add_job w a s ≡ add_rest (load_store s).1
  unfolding add_job
  add_job_run s =
      let (refs, loaded, stored) = load_store_inv s in
      ap (λ (p : Result (List ℕ) × Service). and_then p.0 (λ _. add_rest) p.1) loaded

-- In a service whose store is well-formed, `add_job` with a schedule that the validation accepts puts
-- the new job behind the others, returns its new reference, and the file holds them all.
pub add_job_lem :
    (w : World) (a : NewJob) (s : Service)
    → IsWellFormed s
    → accepts w a.schedule ≡ true
    → let t = (load_store s).1 in
      ((add_job w a s).0 ≡ ok t.next_ref)
      × (jobs_of (add_job w a s).1 ≡ jobs_of t ++ job_added w a t ∷ [])
      × IsPersisted (add_job w a s).1
add_job_lem w a s h e =
    let t = (load_store s).1 in
    let run =
      add_job_run w a s
      ∙ ap (λ (p : Result Unit × Service). and_then p.0 (λ _. add_valid w a) p.1)
          (validate_accepts w a.schedule t e)
      ∙ add_accepted w a t in
    subst (Adds w a t) (sym run) (saved-Adds w a t (load_store-IsWellFormed.at s h))

-- `add_job` with a schedule that the validation rejects raises the validation's error, and leaves the
-- service as loading the store left it.
pub add_job_rejects :
    (w : World) (a : NewJob) (s : Service)
    → accepts w a.schedule ≡ false
    → add_job w a s ≡ (raise (rejection w a.schedule), (load_store s).1)
add_job_rejects w a s e = add_job_run w a s ∙ rw (validate_rejects w a.schedule (load_store s).1 e)
