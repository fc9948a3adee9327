-- ===== src/Cron/Tests.antt =====
-- Small runs of the cron service, and the theorems at them.
use mathlib.Core.List.{Memᴰ}
use eeebot_self_evolving.Prelude.{
  ℕ, suc, ◌+◌, ◌≡◌, refl, true, false, ◌⊎◌, none, some, String, List, [], ◌∷◌, ◌++◌, arith, str_eq,
  keep,
}
use eeebot_self_evolving.Prelude.Int.{ℤ, pos, ◌+ℤ◌, +ℤ_parts, ◌-ℤ◌, ◌≤ℤ◌}
use eeebot_self_evolving.Prelude.Effects.{ok}
use eeebot_self_evolving.Cron.Types.{CronJob, CronSchedule, ScheduleKind, PayloadKind, no_state}
use eeebot_self_evolving.Cron.World.{World}
use eeebot_self_evolving.Cron.Store.{
  Service, jobs, unreadable, jobs_of, load_store, save_store, cached, read_jobs, allocate, now_ms,
}
use eeebot_self_evolving.Cron.Doc.{encode_job, decode_job}
use eeebot_self_evolving.Cron.Timer
use eeebot_self_evolving.Cron.Timer.{compute_next_run, execute_job, arm_timer, get_next_wake_ms}
use eeebot_self_evolving.Cron.Jobs.{NewJob, add_job, remove_job}
use eeebot_self_evolving.Cron.Events.{Event}
use eeebot_self_evolving.Cron.RoundTrip.{load_store-save_store, restarted}
use eeebot_self_evolving.Cron.Wake.{Waits, arm_timer_in_time}
use eeebot_self_evolving.Cron.Runs.{IsForward, IsDone, execute_job-IsDone}
use eeebot_self_evolving.Cron.Shape.{IsWellFormed}
use eeebot_self_evolving.Cron.Saving.{IsPersisted}
use eeebot_self_evolving.Cron.Removal.{contains, other_id, remove_job_lem}
use eeebot_self_evolving.Cron.Adding.{accepts, job_added, add_job_lem}
use eeebot_self_evolving.Cron.Tool.{CronTool, Moments, Arguments}
use eeebot_self_evolving.Cron.Reload.{IsStale, lists_jobs, execute_job_lost}

abbrev world : World
world = record {
  now_ms = λ n. pos (1000 + n);
  new_id = λ n. if_first n;
  zone_known = λ z. str_eq z "UTC";
  cron_next = λ expr tz now. some (now +ℤ pos 60000);
  mtime = λ n. suc n;
}
  where
    if_first : ℕ → String
    if_first n = "a1b2c3d4"

world-IsForward : IsForward world
world-IsForward expr tz now next h = ground (arith, +ℤ_parts now (pos 60000))

abbrev hourly : CronSchedule
hourly = record {
  kind = ScheduleKind.every;
  at_ms = none;
  every_ms = some (pos 3600000);
  expr = none;
  tz = none;
}

abbrev digest : NewJob
digest = record {
  name = "digest";
  schedule = hourly;
  message = "summarise";
  deliver = false;
  channel = none;
  to = none;
  delete_after_run = false;
}

abbrev digest_job : CronJob
digest_job = record {
  id = "d1";
  name = "digest";
  enabled = true;
  schedule = hourly;
  payload = record {
    kind = PayloadKind.agent_turn;
    message = "summarise";
    deliver = false;
    channel = none;
    to = none;
  };
  state = record no_state { next_run_at_ms = some (pos 900) };
  created_at_ms = pos 0;
  updated_at_ms = pos 0;
  delete_after_run = false;
}

-- A running service with one job, which is due.
abbrev one_job : Service
one_job = record {
  store = some (0 ∷ []);
  heap = λ r. digest_job;
  next_ref = 1;
  file = some (record { content = jobs (encode_job digest_job ∷ []); mtime = 7 });
  last_mtime = 0;
  running = true;
  timer = none;
  reads = 0;
  ids = 0;
  writes = 0;
}

one_job-IsWellFormed : IsWellFormed one_job
one_job-IsWellFormed = record { below = (omega arith, tt); distinct = (tt, tt) }

digest-Waits : Waits digest_job (pos 900)
digest-Waits = record { enabled = refl; next_run = refl; nonzero_time = refl }

program : Unit {0}
unfolding Timer.execute_job Timer.finish_job Timer.reschedule Timer.await_job Timer.record_run
    Timer.arm_timer Timer.get_next_wake_ms Timer.compute_next_run Timer.wake_times Timer.least
    load_store cached save_store now_ms allocate read_jobs encode_job decode_job add_job remove_job
    ◌+ℤ◌ ◌-ℤ◌
program = tt

wakes_at_900 : get_next_wake_ms one_job ≡ some (pos 900)
unfolding program
wakes_at_900 = refl

runs_once : (execute_job world none 0 one_job).0 ≡ ok tt
unfolding program
runs_once = refl

next_run_after :
    ((execute_job world none 0 one_job).1.heap 0).state.next_run_at_ms ≡ some (pos 3601002)
unfolding program
next_run_after = refl

load_store-save_store_example :
    jobs_of (load_store (restarted (save_store world one_job).1)).1 ≡ digest_job ∷ []
load_store-save_store_example = load_store-save_store world one_job refl

arm_timer_in_time_example :
    (d : ℤ) × ((arm_timer world one_job).1.timer ≡ some d)
    × (pos 0 ≤ℤ d)
    × ((pos 1000 +ℤ d ≤ℤ pos 900) ⊎ (d ≡ pos 0))
arm_timer_in_time_example =
    arm_timer_in_time world one_job (pos 900) digest_job refl (Memᴰ.head refl) digest-Waits

hourly_next : compute_next_run world hourly (pos 5) ≡ some (pos 3600005)
unfolding program
hourly_next = refl

execute_job-IsDone_example : IsDone world 0 (execute_job world none 0 one_job).1
execute_job-IsDone_example = execute_job-IsDone world none 0 one_job world-IsForward runs_once

abbrev day : List Event
day =
    Event.timer
    ∷ Event.add digest
    ∷ Event.edit (some (record { content = unreadable; mtime = 9 }))
    ∷ Event.remove "d1"
    ∷ Event.run "a1b2c3d4" true
    ∷ []

remove_job_lem_example :
    let found = jobs_of (load_store one_job).1 in
    ((remove_job world "d1" one_job).0 ≡ ok (contains "d1" found))
    × (jobs_of (remove_job world "d1" one_job).1 ≡ keep (other_id "d1") found)
    × ((contains "d1" found ≡ false) ⊎ IsPersisted (remove_job world "d1" one_job).1)
remove_job_lem_example = remove_job_lem world "d1" one_job

hourly_accepted : accepts world hourly ≡ true
unfolding accepts
hourly_accepted = refl

add_job_lem_example :
    let t = (load_store one_job).1 in
    ((add_job world digest one_job).0 ≡ ok t.next_ref)
    × (jobs_of (add_job world digest one_job).1 ≡ jobs_of t ++ job_added world digest t ∷ [])
    × IsPersisted (add_job world digest one_job).1
add_job_lem_example = add_job_lem world digest one_job one_job-IsWellFormed hourly_accepted

abbrev zoned : NewJob
zoned = record digest { schedule = record hourly { tz = some "Mars" } }

zoned_rejected : accepts world zoned.schedule ≡ false
unfolding accepts
zoned_rejected = refl

one_job-IsStale :
    IsStale one_job (record { content = jobs (encode_job digest_job ∷ []); mtime = 7 })
one_job-IsStale = record { exists = refl; changed = omega arith }

execute_job_lost_example :
    jobs_of (execute_job world (lists_jobs false) 0 one_job).1 ≡ digest_job ∷ []
unfolding read_jobs decode_job encode_job
execute_job_lost_example =
    execute_job_lost world false 0 one_job
      (record { content = jobs (encode_job digest_job ∷ []); mtime = 7 }) one_job-IsStale
      (omega arith) refl

abbrev moments : Moments
moments = record { from_isoformat = λ t. none; isoformat = λ ms. "then"; decimal = λ n. "1" }

abbrev cron_tool : CronTool
cron_tool = record { channel = "cli"; chat_id = "direct"; in_cron_context = false }

abbrev hourly_call : Arguments
hourly_call = record {
  action = "add";
  message = "drink";
  every_seconds = some (pos 3600);
  cron_expr = none;
  tz = none;
  at = none;
  job_id = none;
}
