-- ===== src/Cron/Tool.antt =====
-- nanobot/agent/tools/cron.py: the agent's tool over the cron service. Its texts are native strings.
pub mod Plans
pub mod Returns
pub mod Calls
use Prim.Native.String.{◌++◌}
use eeebot_self_evolving.Prelude.{
  ℕ, suc, ◌+◌, ◌-◌, ◌*◌, ◌/◌, ◌%◌, Bool, true, false, ◌&&◌, not, Option, none, some, String, List,
  [], ◌∷◌, str_eq, ◌==◌, if◌then◌else◌, or_else, truthy, take, codes, text_of, map,
}
use mathlib.Core.List.{◌++◌ as append}
use eeebot_self_evolving.Prelude.Int.{ℤ, pos, negsuc, nonzero}
use eeebot_self_evolving.Prelude.Effects.{ok, pure, ◌>>=◌}
use eeebot_self_evolving.Cron.Types.{ScheduleKind, CronSchedule, CronJob, CronJobState, RunStatus}
use eeebot_self_evolving.Cron.World.{World}
use eeebot_self_evolving.Cron.Store.{Service, Cron}
use eeebot_self_evolving.Cron.Jobs.{NewJob, list_jobs, add_job, remove_job}

-- `CronTool`, beside its service: the session it delivers to, and whether a job's callback runs.
pub record CronTool : Type 0 where
  pub channel : String
  pub chat_id : String
  pub in_cron_context : Bool

-- `datetime` and the texts of integers. `from_isoformat` is the moment in milliseconds.
pub record Moments : Type 0 where
  pub from_isoformat : String → Option ℤ
  pub isoformat : ℤ → String
  pub decimal : ℤ → String

-- The arguments of `execute`.
pub record Arguments : Type 0 where
  pub action : String
  pub message : String
  pub every_seconds : Option ℤ
  pub cron_expr : Option String
  pub tz : Option String
  pub at : Option String
  pub job_id : Option String

-- The schedule that the arguments ask for with `delete_after`, or the text of an error.
pub data Plan : Type 0 where
  refused : String → Plan
  planned : CronSchedule → Bool → Plan

-- An optional number that is present and not zero.
abbrev pub is_given : Option ℤ → Bool
is_given none = false
is_given (some n) = nonzero n

-- `n * 1000`
abbrev pub thousandfold : ℤ → ℤ
thousandfold (pos n) = pos (n * 1000)
thousandfold (negsuc n) = negsuc (n * 1000 + 999)

abbrev pub every_schedule : Option ℤ → CronSchedule
every_schedule every_seconds = record {
  kind = ScheduleKind.every;
  at_ms = none;
  every_ms = some (thousandfold (or_else every_seconds (pos 0)));
  expr = none;
  tz = none;
}

abbrev pub cron_schedule : Option String → Option String → CronSchedule
cron_schedule cron_expr tz = record {
  kind = ScheduleKind.cron;
  at_ms = none;
  every_ms = none;
  expr = cron_expr;
  tz = tz;
}

abbrev pub at_schedule : ℤ → CronSchedule
at_schedule at_ms = record {
  kind = ScheduleKind.at;
  at_ms = some at_ms;
  every_ms = none;
  expr = none;
  tz = none;
}

abbrev pub once_at : String → Option ℤ → Plan
once_at at none =
    refused
      ("Error: invalid ISO datetime format '" ++ (at ++ "'. Expected format: YYYY-MM-DDTHH:MM:SS"))
once_at at (some at_ms) = planned (at_schedule at_ms) true

unfoldable pub plan_of : Moments → Arguments → Plan
plan_of k a =
    if is_given a.every_seconds
    then planned (every_schedule a.every_seconds) false
    else if truthy a.cron_expr
    then planned (cron_schedule a.cron_expr a.tz) false
    else if truthy a.at
    then once_at (or_else a.at "") (k.from_isoformat (or_else a.at ""))
    else refused "Error: either every_seconds, cron_expr, or at is required"

-- The guards of `_add_job`.
unfoldable pub guard_add : World → CronTool → Arguments → Option String
guard_add w t a =
    if not (truthy (some a.message))
    then some "Error: message is required for add"
    else if not (truthy (some t.channel) && truthy (some t.chat_id))
    then some "Error: no session context (channel/chat_id)"
    else if truthy a.tz && not (truthy a.cron_expr)
    then some "Error: tz can only be used with cron_expr"
    else if truthy a.tz && not (w.zone_known (or_else a.tz ""))
    then some ("Error: unknown timezone '" ++ (or_else a.tz "" ++ "'"))
    else none

-- The call of `add_job`.
abbrev pub reminder : CronTool → Arguments → CronSchedule → Bool → NewJob
reminder t a schedule delete_after = record {
  name = text_of (take 30 (codes a.message));
  schedule = schedule;
  message = a.message;
  deliver = true;
  channel = some t.channel;
  to = some t.chat_id;
  delete_after_run = delete_after;
}

abbrev pub created : CronJob → String
created j = "Created job '" ++ (j.name ++ ("' (id: " ++ (j.id ++ ")")))

unfoldable pub add_planned : World → CronTool → Arguments → Plan → Cron String
add_planned w t a (refused e) = pure e
add_planned w t a (planned schedule delete_after) =
    add_job w (reminder t a schedule delete_after) >>= λ r. λ s. (ok (created (s.heap r)), s)

unfoldable pub add_reminder : World → Moments → CronTool → Arguments → Cron String
unfolding guard_add plan_of add_planned
add_reminder w k t a = elim (guard_add w t a) [
  | some e ↦ pure e
  | none ↦ add_planned w t a (plan_of k a)
]

-- Whether `m` is a multiple of `unit`, and the quotient then.
abbrev pub is_multiple : ℕ → ℤ → Bool
is_multiple unit (pos n) = (n % unit) == 0
is_multiple unit (negsuc n) = (suc n % unit) == 0

abbrev pub quotient : ℕ → ℤ → ℤ
quotient unit (pos n) = pos (n / unit)
quotient unit (negsuc n) = negsuc (suc n / unit - 1)

abbrev pub interval_text : Moments → ℤ → String
interval_text k ms =
    if is_multiple 3600000 ms
    then "every " ++ (k.decimal (quotient 3600000 ms) ++ "h")
    else if is_multiple 60000 ms
    then "every " ++ (k.decimal (quotient 60000 ms) ++ "m")
    else if is_multiple 1000 ms
    then "every " ++ (k.decimal (quotient 1000 ms) ++ "s")
    else "every " ++ (k.decimal ms ++ "ms")

abbrev pub optional_text : Option String → String
optional_text none = "None"
optional_text (some t) = t

unfoldable pub format_timing : Moments → CronSchedule → String
format_timing k schedule = elim schedule.kind [
  | ScheduleKind.cron ↦
      "cron: "
      ++ (optional_text schedule.expr
          ++ (if truthy schedule.tz then " (" ++ (or_else schedule.tz "" ++ ")") else ""))
  | ScheduleKind.every ↦
      if is_given schedule.every_ms
      then interval_text k (or_else schedule.every_ms (pos 0))
      else "every"
  | ScheduleKind.at ↦
      if is_given schedule.at_ms
      then "at " ++ k.isoformat (or_else schedule.at_ms (pos 0))
      else "at"
]

abbrev pub status_text : Option RunStatus → String
status_text none = "unknown"
status_text (some RunStatus.ok) = "ok"
status_text (some RunStatus.error) = "error"
status_text (some RunStatus.skipped) = "skipped"

abbrev pub last_run_lines : Moments → CronJobState → List String
last_run_lines k state =
    if is_given state.last_run_at_ms
    then ("  Last run: "
        ++ (k.isoformat (or_else state.last_run_at_ms (pos 0))
            ++ (" — "
                ++ (status_text state.last_status
                    ++ (if truthy state.last_error
                        then " (" ++ (or_else state.last_error "" ++ ")")
                        else "")))))
      ∷ []
    else []

abbrev pub next_run_lines : Moments → CronJobState → List String
next_run_lines k state =
    if is_given state.next_run_at_ms
    then ("  Next run: " ++ k.isoformat (or_else state.next_run_at_ms (pos 0))) ∷ []
    else []

abbrev pub format_state : Moments → CronJobState → List String
format_state k state = append (last_run_lines k state) (next_run_lines k state)

-- `"\n".join(lines)`
unfoldable pub join_lines : List String → String
join_lines [] = ""
join_lines (l ∷ []) = l
join_lines (l ∷ m ∷ ms) = l ++ ("\n" ++ join_lines (m ∷ ms))

unfoldable pub job_text : Moments → CronJob → String
unfolding format_timing join_lines
job_text k j = join_lines (
    ("- " ++ (j.name ++ (" (id: " ++ (j.id ++ (", " ++ (format_timing k j.schedule ++ ")"))))))
    ∷ format_state k j.state)

unfoldable pub listing : Moments → List CronJob → String
unfolding job_text join_lines
listing k [] = "No scheduled jobs."
listing k (j ∷ js) = "Scheduled jobs:\n" ++ join_lines (map (job_text k) (j ∷ js))

unfoldable pub list_reminders : Moments → Cron String
unfolding listing list_jobs
list_reminders k = list_jobs false >>= λ refs. λ s. (ok (listing k (map s.heap refs)), s)

abbrev pub removal_text : String → Bool → String
removal_text id true = "Removed job " ++ id
removal_text id false = "Job " ++ (id ++ " not found")

unfoldable pub remove_reminder : World → Option String → Cron String
unfolding remove_job
remove_reminder w job_id =
    if truthy job_id
    then (remove_job w (or_else job_id "") >>= λ removed.
        λ s. (ok (removal_text (or_else job_id "") removed), s))
    else pure "Error: job_id is required for remove"

unfoldable pub execute_cron : World → Moments → CronTool → Arguments → Cron String
unfolding add_reminder list_reminders remove_reminder
execute_cron w k t a =
    if str_eq a.action "add"
    then (if t.in_cron_context
        then pure "Error: cannot schedule new jobs from within a cron job execution"
        else add_reminder w k t a)
    else if str_eq a.action "list"
    then list_reminders k
    else if str_eq a.action "remove"
    then remove_reminder w a.job_id
    else pure ("Unknown action: " ++ a.action)
