-- ===== src/Cron/Timer.antt =====
-- Scheduling, the timer and the execution of jobs: `_compute_next_run` to `_execute_job`.
use eeebot_self_evolving.Prelude.{
  ℕ, Bool, true, false, ◌&&◌, Option, none, some, String, List, [], ◌∷◌, ◌++◌, str_eq,
  if◌then◌else◌, or_else, truthy, keep, not, last_items,
}
use eeebot_self_evolving.Prelude.Int.{ℤ, pos, ◌+ℤ◌, ◌-ℤ◌, ltb_ℤ, leb_ℤ, nonzero}
use eeebot_self_evolving.Prelude.Effects.{
  exception, cancelled, Result, ok, raise, pure, ◌>>=◌, ◌>>◌,
}
use eeebot_self_evolving.Cron.Types.{ScheduleKind, CronSchedule, RunStatus, CronRunRecord, CronJob}
use eeebot_self_evolving.Cron.World.{World}
use eeebot_self_evolving.Cron.Store.{Service, Cron, update, jobs_of, load_store, save_store, now_ms}

-- `_MAX_RUN_HISTORY`
abbrev pub max_run_history : ℕ
max_run_history = 20

abbrev pub filled : Option String → Option String
filled tz = if truthy tz then tz else none

unfoldable pub at_after : Option ℤ → ℤ → Option ℤ
at_after none now = none
at_after (some t) now = if nonzero t && ltb_ℤ now t then some t else none

unfoldable pub every_after : Option ℤ → ℤ → Option ℤ
every_after none now = none
every_after (some step) now = if ltb_ℤ (pos 0) step then some (now +ℤ step) else none

unfoldable pub cron_after : World → Option String → Option String → ℤ → Option ℤ
cron_after w none tz now = none
cron_after w (some expr) tz now =
    if truthy (some expr) then w.cron_next expr (filled tz) now else none

unfoldable pub compute_next_run : World → CronSchedule → ℤ → Option ℤ
unfolding at_after every_after cron_after
compute_next_run w schedule now = elim schedule.kind [
  | ScheduleKind.at ↦ at_after schedule.at_ms now
  | ScheduleKind.every ↦ every_after schedule.every_ms now
  | ScheduleKind.cron ↦ cron_after w schedule.expr schedule.tz now
]

abbrev pub with_next_run : CronJob → Option ℤ → CronJob
with_next_run j next = record j { state = record j.state { next_run_at_ms = next } }

abbrev pub is_due : ℤ → CronJob → Bool
is_due now j = elim j.state.next_run_at_ms [
  | none ↦ false
  | some t ↦ j.enabled && (nonzero t && leb_ℤ t now)
]

-- The next run times that `_get_next_wake_ms` collects, and Python's `min`.
unfoldable pub wake_times : List CronJob → List ℤ
wake_times [] = []
wake_times (j ∷ js) =
    let rest = wake_times js in
    elim j.state.next_run_at_ms [
      | none ↦ rest
      | some t ↦ if j.enabled && nonzero t then t ∷ rest else rest
    ]

unfoldable pub smallest : ℤ → List ℤ → ℤ
smallest t [] = t
smallest t (u ∷ us) = smallest (if ltb_ℤ u t then u else t) us

-- `min(times) if times else None`
unfoldable pub least : List ℤ → Option ℤ
unfolding smallest
least [] = none
least (t ∷ ts) = some (smallest t ts)

unfoldable pub get_next_wake_ms : Service → Option ℤ
get_next_wake_ms s = least (wake_times (jobs_of s))

-- The record of a run from `start` to `end` that failed with `error`, or did not fail.
abbrev pub run_record : ℤ → ℤ → Option String → CronRunRecord
run_record start end error = record {
  run_at_ms = start;
  status = elim error [ none ↦ RunStatus.ok | some _ ↦ RunStatus.error ];
  duration_ms = end -ℤ start;
  error = error;
}

-- The job after such a run.
unfoldable pub record_run : ℤ → ℤ → Option String → CronJob → CronJob
record_run start end error j =
    let run = run_record start end error in
    record j {
      state = record j.state {
        last_run_at_ms = some start;
        last_status = some run.status;
        last_error = error;
        run_history = last_items max_run_history (j.state.run_history ++ run ∷ []);
      };
      updated_at_ms = end;
    }

-- `self._store.jobs = [j for j in self._store.jobs if j.id != id]`
unfoldable pub drop_id : String → Cron Unit
drop_id id s = elim s.store [
  | none ↦ (raise (exception "'NoneType' object has no attribute 'jobs'"), s)
  | some refs ↦ (ok tt, record s { store = some (keep (λ r. not (str_eq (s.heap r).id id)) refs) })
]

abbrev pub assign : ℕ → (CronJob → CronJob) → Cron Unit
assign r f s = (ok tt, record s { heap = update s.heap r (f (s.heap r)) })

recompute_all : World → ℤ → List ℕ → (ℕ → CronJob) → ℕ → CronJob
recompute_all w now [] heap = heap
recompute_all w now (r ∷ rs) heap =
    let j = heap r in
    recompute_all w now rs (
      if j.enabled
      then update heap r (with_next_run j (compute_next_run w j.schedule now))
      else heap)

unfoldable pub due_jobs : Service → ℤ → List ℕ
due_jobs s now = keep (λ r. is_due now (s.heap r)) (or_else s.store [])

module _ (w : World) where
  unfoldable pub recompute_next_runs : Cron Unit
  unfolding recompute_all now_ms
  recompute_next_runs s = elim s.store [
    | none ↦ (ok tt, s)
    | some refs ↦
        (do now ← now_ms w; λ s'. (ok tt, record s' { heap = recompute_all w now refs s'.heap })) s
  ]

  start_timer : Option ℤ → Cron Unit
  start_timer none s = (ok tt, s)
  start_timer (some wake) s =
      if s.running
      then (do
        now ← now_ms w
        λ s'. (ok tt, record s' { timer = some (if ltb_ℤ now wake then wake -ℤ now else pos 0) }))
          s
      else (ok tt, s)

  unfoldable pub arm_timer : Cron Unit
  unfolding start_timer now_ms
  arm_timer s = start_timer (get_next_wake_ms s) (record s { timer = none })

  unfoldable pub reschedule_kind : ScheduleKind → ℕ → Cron Unit
  unfolding drop_id now_ms
  reschedule_kind ScheduleKind.at r s =
      if (s.heap r).delete_after_run
      then drop_id (s.heap r).id s
      else assign r (λ j. record (with_next_run j none) { enabled = false }) s
  reschedule_kind _ r s =
      (do now ← now_ms w; assign r (λ j. with_next_run j (compute_next_run w j.schedule now))) s

  -- A one-shot job is deleted or disabled; any other gets its next run.
  unfoldable pub reschedule : ℕ → Cron Unit
  unfolding reschedule_kind
  reschedule r s = reschedule_kind (s.heap r).schedule.kind r s

  -- The part of `_execute_job` behind the await.
  unfoldable pub finish_job : ℕ → ℤ → Option String → Cron Unit
  unfolding now_ms
  finish_job r start error = do end ← now_ms w; assign r (record_run start end error); reschedule r

  unfoldable pub start : Cron Unit
  start = do
    λ s. (ok tt, record s { running = true })
    load_store
    recompute_next_runs
    save_store w
    arm_timer

abbrev pub caught : Result Unit × Service → Result (Option String) × Service
caught (ok _, s) = (ok none, s)
caught (raise (exception e), s) = (ok (some e), s)
caught (raise cancelled, s) = (raise cancelled, s)

-- The awaited callback `on_job`, given the reference of its job, under `except Exception`: the
-- error's text, if there is one. The callback may use and change the service.
unfoldable pub await_job : Option (ℕ → Cron Unit) → ℕ → Cron (Option String)
await_job on_job r s = elim on_job [ none ↦ (ok none, s) | some f ↦ caught (f r s) ]

module _ (w : World) (on_job : Option (ℕ → Cron Unit)) where
  unfoldable pub execute_job : ℕ → Cron Unit
  unfolding await_job now_ms
  execute_job r = do start ← now_ms w; error ← await_job on_job r; finish_job w r start error

  unfoldable pub execute_all : List ℕ → Cron Unit
  execute_all [] = pure tt
  execute_all (r ∷ rs) = execute_job r >> execute_all rs

  unfoldable pub on_timer : Cron Unit
  unfolding due_jobs
  on_timer = do
    load_store
    now ← now_ms w
    λ s. execute_all (due_jobs s now) s
    save_store w
    arm_timer w

  -- What the timer task does when its sleep is over.
  unfoldable pub tick : Cron Unit
  unfolding on_timer
  tick s = if s.running then on_timer s else (ok tt, s)

unfoldable pub stop : Cron Unit
stop s = (ok tt, record s { running = false; timer = none })
