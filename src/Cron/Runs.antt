-- ===== src/Cron/Runs.antt =====
-- `_compute_next_run` and what one run of `_execute_job` leaves in its job.
use mathlib.Core.Path.{subst}
use eeebot_self_evolving.Prelude.{
  ℕ, zero, suc, ◌-◌, ◌≤◌, ◌≡◌, refl, sym, ap, ◌∙◌, true, false, ◌⊎◌, inl, inr, Option, none, some,
  String, List, [], ◌∷◌, ◌++◌, arith, Bool-cases, Option-cases, length, All, str_eq,
  length-last_items-le, length-append, drop, last_items, or_else, truthy, not, keep-All,
}
use eeebot_self_evolving.Prelude.Int.{ℤ, ◌<ℤ◌, +ℤ_parts}
use eeebot_self_evolving.Prelude.Effects.{Result, ok, bind_inv}
use eeebot_self_evolving.Cron.Types.{CronJob, CronSchedule, CronRunRecord, ScheduleKind}
use eeebot_self_evolving.Cron.World.{World}
use eeebot_self_evolving.Cron.Store.{Service, Cron, update}
use eeebot_self_evolving.Cron.Timer.{
  max_run_history, compute_next_run, at_after, every_after, cron_after, filled, is_due, run_record,
  record_run, reschedule, reschedule_kind, finish_job, await_job, execute_job, with_next_run,
  drop_id,
}

-- croniter's documented behaviour: `get_next` lies behind its base.
abbrev pub IsForward : World → Type 0
IsForward w =
    (expr : String) (tz : Option String) (now next : ℤ)
    → w.cron_next expr tz now ≡ some next
    → now <ℤ next

cron_later :
    (w : World) (expr tz : Option String) (now next : ℤ)
    → IsForward w
    → cron_after w expr tz now ≡ some next
    → now <ℤ next
unfolding cron_after
cron_later w none tz now next forward h = cc
cron_later w (some expr) tz now next forward h = elim (Bool-cases (truthy (some expr))) [
  | inl e ↦ forward expr (filled tz) now next (rw e at h)
  | inr e ↦ let h' : none ≡ some next = rw e at h in cc
]

at_later : (at : Option ℤ) (now next : ℤ) → at_after at now ≡ some next → now <ℤ next
unfolding at_after
at_later none now next h = cc
at_later (some t) now next h = ground arith

every_later : (every : Option ℤ) (now next : ℤ) → every_after every now ≡ some next → now <ℤ next
unfolding every_after
every_later none now next h = cc
every_later (some step) now next h = ground (arith, +ℤ_parts now step)

-- When croniter answers with a time after the one it is asked from, a computed next run, of any
-- kind of schedule, is later than the time that it is computed at.
pub compute_next_run_later :
    (w : World) (schedule : CronSchedule) (now next : ℤ)
    → IsForward w
    → compute_next_run w schedule now ≡ some next
    → now <ℤ next
unfolding compute_next_run
compute_next_run_later w schedule now next forward h = ground (
  arith,
  at_later schedule.at_ms now next,
  every_later schedule.every_ms now next,
  cron_later w schedule.expr schedule.tz now next forward,
)

is_due_next :
    (w : World) (j : CronJob) (now : ℤ)
    → IsForward w
    → is_due now (with_next_run j (compute_next_run w j.schedule now)) ≡ false
is_due_next w j now forward = elim (Option-cases (compute_next_run w j.schedule now)) [
  | inl e ↦ rw e refl
  | inr (t, e) ↦ rw e (ground (arith, compute_next_run_later w j.schedule now t forward))
]

-- The job `r` is not due at the last reading of the clock, or no job in the store has its id.
abbrev pub IsDone : World → ℕ → Service → Type 0
IsDone w r s =
    (is_due (w.now_ms (s.reads - 1)) (s.heap r) ≡ false)
    ⊎ All (λ q. not (str_eq (s.heap q).id (s.heap r).id) ≡ true) (or_else s.store [])

update_self : (heap : ℕ → CronJob) (r : ℕ) (j : CronJob) → update heap r j r ≡ j
update_self heap r j = ground arith

module _ (w : World) (r : ℕ) where
  -- The service when `_execute_job` has recorded the run.
  abbrev pub recorded : ℤ → Option String → Service → Service
  recorded start error s = record s {
    reads = suc s.reads;
    heap = update s.heap r (record_run start (w.now_ms s.reads) error (s.heap r));
  }

  history-reschedule :
      (s : Service) → ((reschedule w r s).1.heap r).state.run_history ≡ (s.heap r).state.run_history
  unfolding reschedule drop_id
  history-reschedule s = ground arith

  history-finish_job :
      (start : ℤ) (error : Option String) (s : Service)
      → ((finish_job w r start error s).1.heap r).state.run_history
        ≡ (record_run start (w.now_ms s.reads) error (s.heap r)).state.run_history
  unfolding finish_job
  history-finish_job start error s =
      history-reschedule (recorded start error s)
      ∙ ap (λ (j : CronJob). j.state.run_history)
          (update_self s.heap r (record_run start (w.now_ms s.reads) error (s.heap r)))

  drop_id-All :
      (id : String) (s : Service)
      → All
          (λ q. not (str_eq ((drop_id id s).1.heap q).id id) ≡ true)
          (or_else (drop_id id s).1.store [])
  unfolding drop_id
  drop_id-All id s = elim (Option-cases s.store) [
    | inl e ↦ rw (e, drop_id) (rw e tt)
    | inr (refs, e) ↦ rw (e, drop_id) (keep-All (λ q. not (str_eq (s.heap q).id id)) refs)
  ]

  heap-drop_id : (id : String) (s : Service) → (drop_id id s).1.heap ≡ s.heap
  unfolding drop_id
  heap-drop_id id s = ground arith

  deleted :
      (s : Service)
      → All
          (λ q.
            not (
              str_eq
                ((drop_id (s.heap r).id s).1.heap q).id
                ((drop_id (s.heap r).id s).1.heap r).id)
            ≡ true)
          (or_else (drop_id (s.heap r).id s).1.store [])
  deleted s =
      let s' = (drop_id (s.heap r).id s).1 in
      let p = ap (λ (h : ℕ → CronJob). (h r).id) (heap-drop_id (s.heap r).id s) in
      subst (λ id. All (λ q. not (str_eq (s'.heap q).id id) ≡ true) (or_else s'.store [])) (sym p)
        (drop_id-All (s.heap r).id s)

  next_not_due :
      (s : Service)
      → IsForward w
      → is_due (w.now_ms (suc s.reads - 1)) (
          update s.heap r
            (with_next_run (s.heap r) (compute_next_run w (s.heap r).schedule (w.now_ms s.reads)))
            r)
        ≡ false
  next_not_due s forward =
      let p : suc s.reads - 1 ≡ s.reads = omega arith in
      rw (update_self s.heap r _, p) (is_due_next w (s.heap r) (w.now_ms s.reads) forward)

  reschedule-IsDone :
      (kind : ScheduleKind) (s : Service) → IsForward w → IsDone w r (reschedule_kind w kind r s).1
  unfolding reschedule_kind
  reschedule-IsDone ScheduleKind.at s forward = elim (Bool-cases (s.heap r).delete_after_run) [
    | inl e ↦ rw e (inr (deleted s))
    | inr e ↦ rw e (inl (ground arith))
  ]
  reschedule-IsDone ScheduleKind.every s forward = inl (next_not_due s forward)
  reschedule-IsDone ScheduleKind.cron s forward = inl (next_not_due s forward)

-- What was awaited, and that the rest is `finish_job`.
pub execute_job_inv :
    (w : World) (on_job : Option (ℕ → Cron Unit)) (r : ℕ) (s : Service)
    → (execute_job w on_job r s).0 ≡ ok tt
    → (error : Option String) × (m : Service) × (await_job on_job r
          (record s { reads = suc s.reads })
        ≡ (ok error, m))
      × (execute_job w on_job r s ≡ finish_job w r (w.now_ms s.reads) error m)
unfolding execute_job
execute_job_inv w on_job r s h =
    bind_inv (await_job on_job r) (finish_job w r (w.now_ms s.reads))
      (record s { reads = suc s.reads }) h

-- When croniter answers with a time after the one it is asked from, a run that returns, its callback
-- having returned or raised an exception and done whatever it may to the service, ends with a job that is not due at the last clock reading, or whose id is gone from the store.
pub execute_job-IsDone :
    (w : World) (on_job : Option (ℕ → Cron Unit)) (r : ℕ) (s : Service)
    → IsForward w
    → (execute_job w on_job r s).0 ≡ ok tt
    → IsDone w r (execute_job w on_job r s).1
unfolding finish_job reschedule
execute_job-IsDone w on_job r s forward h =
    let (error, m, _, same) = execute_job_inv w on_job r s h in
    subst (λ (p : Result Unit × Service). IsDone w r p.1) (sym same)
      (reschedule-IsDone w r _ (recorded w r (w.now_ms s.reads) error m) forward)

-- The newest record of a history, and how long the history is.
pub last_run : List CronRunRecord → Option CronRunRecord
last_run [] = none
last_run (x ∷ []) = some x
last_run (x ∷ y ∷ xs) = last_run (y ∷ xs)

last_run_snoc : (xs : List CronRunRecord) (x : CronRunRecord) → last_run (xs ++ x ∷ []) ≡ some x
unfolding last_run
last_run_snoc [] x = refl
last_run_snoc (y ∷ []) x = refl
last_run_snoc (y ∷ z ∷ xs) x = last_run_snoc (z ∷ xs) x

drop_snoc {ℓ} :
    {A : Type ℓ} (n : ℕ) (xs : List A) (x : A)
    → n ≤ length xs
    → drop n (xs ++ x ∷ []) ≡ drop n xs ++ x ∷ []
drop_snoc zero xs x h = refl
drop_snoc (suc n) [] x h = absurd (omega arith)
drop_snoc (suc n) (y ∷ xs) x h = drop_snoc n xs x (omega arith)

last_run-last_items :
    (n : ℕ) (xs : List CronRunRecord) (x : CronRunRecord)
    → last_run (last_items (suc n) (xs ++ x ∷ [])) ≡ some x
last_run-last_items n xs x =
    let k = length (xs ++ x ∷ []) - suc n in
    let fits : k ≤ length xs = omega (arith, length-append xs (x ∷ [])) in
    rw (drop_snoc k xs x fits) (last_run_snoc (drop k xs) x)

-- The newest record of the history is of a run that began at `start`, and the history is bounded.
abbrev pub IsRecent : ℤ → List CronRunRecord → Type 0
IsRecent start history =
    (run : CronRunRecord) × (last_run history ≡ some run)
    × (run.run_at_ms ≡ start)
    × (length history ≤ max_run_history)

record_run-IsRecent :
    (start end : ℤ) (error : Option String) (j : CronJob)
    → IsRecent start (record_run start end error j).state.run_history
unfolding record_run
record_run-IsRecent start end error j =
    let run = run_record start end error in
    (
      run,
      last_run-last_items 19 j.state.run_history run,
      refl,
      length-last_items-le 19 (j.state.run_history ++ run ∷ []),
    )

-- After a run that returns, the newest record of the job's history is of this run, started when
-- the run began, and the history holds at most twenty records, however long it was before.
pub execute_job-history :
    (w : World) (on_job : Option (ℕ → Cron Unit)) (r : ℕ) (s : Service)
    → (execute_job w on_job r s).0 ≡ ok tt
    → IsRecent (w.now_ms s.reads) ((execute_job w on_job r s).1.heap r).state.run_history
execute_job-history w on_job r s h =
    let (error, m, _, same) = execute_job_inv w on_job r s h in
    subst
      (λ (p : Result Unit × Service). IsRecent (w.now_ms s.reads) (p.1.heap r).state.run_history)
      (sym same)
      (subst (IsRecent (w.now_ms s.reads)) (sym (history-finish_job w r (w.now_ms s.reads) error m))
        (record_run-IsRecent (w.now_ms s.reads) (w.now_ms m.reads) error (m.heap r)))
