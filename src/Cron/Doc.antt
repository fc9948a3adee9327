-- ===== src/Cron/Doc.antt =====
-- The JSON document that `_save_store` writes and `_load_store` reads, with its keys as optional
-- fields: `none` is a missing key, and for a nullable key also `null`.
use eeebot_self_evolving.Prelude.{
  Bool, true, false, Option, none, some, String, List, [], ◌∷◌, map, or_else,
}
use eeebot_self_evolving.Prelude.Int.{ℤ, pos}
use eeebot_self_evolving.Cron.Types.{
  ScheduleKind, CronSchedule, PayloadKind, agent_turn, CronPayload, RunStatus, CronRunRecord,
  CronJobState, CronJob,
}

pub record ScheduleDoc : Type 0 where
  pub kind : Option ScheduleKind
  pub at_ms : Option ℤ
  pub every_ms : Option ℤ
  pub expr : Option String
  pub tz : Option String

pub record PayloadDoc : Type 0 where
  pub kind : Option PayloadKind
  pub message : Option String
  pub deliver : Option Bool
  pub channel : Option String
  pub to : Option String

pub record RunDoc : Type 0 where
  pub run_at_ms : Option ℤ
  pub status : Option RunStatus
  pub duration_ms : Option ℤ
  pub error : Option String

pub record StateDoc : Type 0 where
  pub next_run_at_ms : Option ℤ
  pub last_run_at_ms : Option ℤ
  pub last_status : Option RunStatus
  pub last_error : Option String
  pub run_history : Option (List RunDoc)

pub record JobDoc : Type 0 where
  pub id : Option String
  pub name : Option String
  pub enabled : Option Bool
  pub schedule : Option ScheduleDoc
  pub payload : Option PayloadDoc
  pub state : Option StateDoc
  pub created_at_ms : Option ℤ
  pub updated_at_ms : Option ℤ
  pub delete_after_run : Option Bool

infixl 5 ◌>>=◌
abbrev pub ◌>>=◌ {ℓ κ} : {A : Type ℓ} {B : Type κ} → Option A → (A → Option B) → Option B
none >>= f = none
some a >>= f = f a

-- `[f(x) for x in xs]`, where `f` may raise.
abbrev pub each {ℓ κ} : {A : Type ℓ} {B : Type κ} → (A → Option B) → List A → Option (List B)
each f [] = some []
each f (x ∷ xs) = do y ← f x; ys ← each f xs; some (y ∷ ys)

unfoldable pub decode_schedule : ScheduleDoc → Option CronSchedule
decode_schedule d = do
  kind ← d.kind
  some (record { kind = kind; at_ms = d.at_ms; every_ms = d.every_ms; expr = d.expr; tz = d.tz })

unfoldable pub decode_payload : PayloadDoc → CronPayload
decode_payload d = record {
  kind = or_else d.kind agent_turn;
  message = or_else d.message "";
  deliver = or_else d.deliver false;
  channel = d.channel;
  to = d.to;
}

unfoldable pub decode_run : RunDoc → Option CronRunRecord
decode_run d = do
  at ← d.run_at_ms
  status ← d.status
  some (record {
    run_at_ms = at;
    status = status;
    duration_ms = or_else d.duration_ms (pos 0);
    error = d.error;
  })

abbrev pub no_state_doc : StateDoc
no_state_doc = record {
  next_run_at_ms = none;
  last_run_at_ms = none;
  last_status = none;
  last_error = none;
  run_history = none;
}

unfoldable pub decode_state : StateDoc → Option CronJobState
unfolding decode_run
decode_state d = do
  history ← each decode_run (or_else d.run_history [])
  some (record {
    next_run_at_ms = d.next_run_at_ms;
    last_run_at_ms = d.last_run_at_ms;
    last_status = d.last_status;
    last_error = d.last_error;
    run_history = history;
  })

-- One job of the document; `none` is the `KeyError` of a missing key.
unfoldable pub decode_job : JobDoc → Option CronJob
unfolding decode_schedule decode_payload decode_state
decode_job d = do
  id ← d.id
  name ← d.name
  schedule_doc ← d.schedule
  schedule ← decode_schedule schedule_doc
  payload_doc ← d.payload
  state ← decode_state (or_else d.state no_state_doc)
  some (record {
    id = id;
    name = name;
    enabled = or_else d.enabled true;
    schedule = schedule;
    payload = decode_payload payload_doc;
    state = state;
    created_at_ms = or_else d.created_at_ms (pos 0);
    updated_at_ms = or_else d.updated_at_ms (pos 0);
    delete_after_run = or_else d.delete_after_run false;
  })

unfoldable pub encode_run : CronRunRecord → RunDoc
encode_run r = record {
  run_at_ms = some r.run_at_ms;
  status = some r.status;
  duration_ms = some r.duration_ms;
  error = r.error;
}

unfoldable pub encode_job : CronJob → JobDoc
unfolding encode_run
encode_job j = record {
  id = some j.id;
  name = some j.name;
  enabled = some j.enabled;
  schedule = some (record {
    kind = some j.schedule.kind;
    at_ms = j.schedule.at_ms;
    every_ms = j.schedule.every_ms;
    expr = j.schedule.expr;
    tz = j.schedule.tz;
  });
  payload = some (record {
    kind = some j.payload.kind;
    message = some j.payload.message;
    deliver = some j.payload.deliver;
    channel = j.payload.channel;
    to = j.payload.to;
  });
  state = some (record {
    next_run_at_ms = j.state.next_run_at_ms;
    last_run_at_ms = j.state.last_run_at_ms;
    last_status = j.state.last_status;
    last_error = j.state.last_error;
    run_history = some (map encode_run j.state.run_history);
  });
  created_at_ms = some j.created_at_ms;
  updated_at_ms = some j.updated_at_ms;
  delete_after_run = some j.delete_after_run;
}
