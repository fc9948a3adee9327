-- ===== src/Cron/Types.antt =====
-- nanobot/cron/types.py: the data of the cron service. Times are in milliseconds.
use eeebot_self_evolving.Prelude.{Bool, Option, none, String, List, []}
use eeebot_self_evolving.Prelude.Int.{ℤ}

-- The literal kinds of a schedule.
pub data ScheduleKind : Type 0 where
  at every cron : ScheduleKind

pub record CronSchedule : Type 0 where
  pub kind : ScheduleKind
  pub at_ms : Option ℤ
  pub every_ms : Option ℤ
  pub expr : Option String
  pub tz : Option String

pub data PayloadKind : Type 0 where
  system_event agent_turn : PayloadKind

pub record CronPayload : Type 0 where
  pub kind : PayloadKind
  pub message : String
  pub deliver : Bool
  pub channel : Option String
  pub to : Option String

pub data RunStatus : Type 0 where
  ok error skipped : RunStatus

pub record CronRunRecord : Type 0 where
  pub run_at_ms : ℤ
  pub status : RunStatus
  pub duration_ms : ℤ
  pub error : Option String

pub record CronJobState : Type 0 where
  pub next_run_at_ms : Option ℤ
  pub last_run_at_ms : Option ℤ
  pub last_status : Option RunStatus
  pub last_error : Option String
  pub run_history : List CronRunRecord

pub record CronJob : Type 0 where
  pub id : String
  pub name : String
  pub enabled : Bool
  pub schedule : CronSchedule
  pub payload : CronPayload
  pub state : CronJobState
  pub created_at_ms : ℤ
  pub updated_at_ms : ℤ
  pub delete_after_run : Bool

abbrev pub no_state : CronJobState
no_state = record {
  next_run_at_ms = none;
  last_run_at_ms = none;
  last_status = none;
  last_error = none;
  run_history = [];
}
