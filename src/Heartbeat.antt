-- ===== src/Heartbeat.antt =====
-- The heartbeat service (nanobot/heartbeat/service.py): the decision, the tick, the loop, `start`,
-- `stop` and `trigger_now`. The file, the provider, the evaluation and the callbacks are parameters.
use eeebot_self_evolving.Prelude.{
  ℕ, suc, Bool, true, false, not, Option, none, some, String, List, [], ◌∷◌, ◌++◌, str_eq,
  if◌then◌else◌, ◌-◌,
}
use eeebot_self_evolving.Prelude.Json.{Json, Fields}
use eeebot_self_evolving.Prelude.Effects.{
  Result, ok, raise, exception, cancelled, Method, pure, throw, ◌>>=◌,
}
use eeebot_self_evolving.Runtime.Dict.{is_text}
pub mod Ticks
pub mod Tasks
mod Tests

pub record Service : Type 0 where
  -- the text of HEARTBEAT.md; `none` if it is missing or reading it raises
  pub heartbeat_file : Option (List ℕ)
  -- the arguments of the tool calls in the provider's answer
  pub chat : List ℕ → Result (List Json)
  pub on_execute : Option (Json → Result (List ℕ))
  pub evaluate_response : List ℕ → Json → Result Bool
  pub on_notify : Option (List ℕ → Result Unit)
  pub enabled : Bool

pub record Beat : Type 0 where
  pub running : Bool
  -- `_task` is there
  pub has_task : Bool
  -- the tasks of the event loop that run `_run_loop`
  pub alive : ℕ
  -- what the callbacks were called with, the newest last
  pub executed : List Json
  pub notified : List (List ℕ)

pub record Decision : Type 0 where
  pub action : Json
  pub tasks : Json

-- `d.get(k, default)`
abbrev pub get_or : String → Json → Fields → Json
get_or k default Fields.end = default
get_or k default (Fields.field j v rest) =
    let later = get_or k default rest in if str_eq j k then v else later

-- The decision in the tool calls; the arguments must be a dict.
unfoldable pub decision_of : List Json → Result Decision
decision_of [] = ok (record { action = Json.str "skip"; tasks = Json.str "" })
decision_of (Json.obj args ∷ _) = ok (record {
  action = get_or "action" (Json.str "skip") args;
  tasks = get_or "tasks" (Json.str "") args;
})
decision_of (_ ∷ _) = raise (exception "AttributeError")

module _ (h : Service) where
  abbrev pub call : {A : Type 0} → Result A → Method Beat A
  call r s = (r, s)

  unfoldable pub decide : List ℕ → Method Beat Decision
  unfolding decision_of
  decide content = call (h.chat content) >>= λ calls. call (decision_of calls)

  -- `await self.on_execute(tasks)`
  unfoldable pub execute : (Json → Result (List ℕ)) → Json → Method Beat (List ℕ)
  execute f tasks s = (f tasks, record s { executed = s.executed ++ tasks ∷ [] })

  unfoldable pub notify : Bool → List ℕ → Method Beat Unit
  notify false response s = (ok tt, s)
  notify true response s = elim h.on_notify [
    | none ↦ (ok tt, s)
    | some f ↦ (f response, record s { notified = s.notified ++ response ∷ [] })
  ]

  -- An empty response is not delivered.
  unfoldable pub deliver : Json → List ℕ → Method Beat Unit
  unfolding notify
  deliver tasks [] = pure tt
  deliver tasks (c ∷ cs) =
      call (h.evaluate_response (c ∷ cs) tasks) >>= λ should_notify. notify should_notify (c ∷ cs)

  unfoldable pub run_tasks : Decision → Method Beat Unit
  unfolding execute deliver
  run_tasks d =
      if is_text "run" d.action
      then elim h.on_execute [ none ↦ pure tt | some f ↦ execute f d.tasks >>= deliver d.tasks ]
      else pure tt

  -- `except Exception` around the body of the tick.
  unfoldable pub caught : Result Unit → Result Unit
  caught (ok x) = ok x
  caught (raise (exception _)) = ok tt
  caught (raise cancelled) = raise cancelled

  unfoldable pub checked : List ℕ → Method Beat Unit
  unfolding decide run_tasks caught
  checked content s = let body = (decide content >>= run_tasks) s in (caught body.0, body.1)

  unfoldable pub tick : Method Beat Unit
  unfolding checked
  tick = elim h.heartbeat_file [
    | none ↦ pure tt
    | some content ↦ elim content [ [] ↦ pure tt | c ∷ cs ↦ checked (c ∷ cs) ]
  ]

  -- A sleep of the loop ends, or is cancelled.
  pub data Sleep : Type 0 where
    slept interrupted : Sleep

  -- `_run_loop`, by how its sleeps end; it is left when it is cancelled.
  unfoldable pub run_loop : List Sleep → Beat → Beat
  unfolding tick
  run_loop [] s = s
  run_loop (interrupted ∷ sleeps) s = s
  run_loop (slept ∷ sleeps) s =
      let ticked = tick s in
      let rest = run_loop sleeps ticked.1 in
      if s.running then elim ticked.0 [ ok _ ↦ rest | raise _ ↦ ticked.1 ] else s

  unfoldable pub start : Beat → Beat
  start s =
      if not h.enabled
      then s
      else if s.running
      then s
      else record s { running = true; has_task = true; alive = suc s.alive }

  -- The task is cancelled, if there is one.
  unfoldable pub stop : Beat → Beat
  stop s =
      if s.has_task
      then record s { running = false; has_task = false; alive = s.alive - 1 }
      else record s { running = false }

  -- The response of the tasks, for whoever asks; `none` where nothing ran.
  unfoldable pub run_now : Decision → Method Beat (Option (List ℕ))
  unfolding execute
  run_now d =
      if is_text "run" d.action
      then elim h.on_execute [
        | none ↦ pure none
        | some f ↦ execute f d.tasks >>= λ response. pure (some response)
      ]
      else pure none

  unfoldable pub trigger_now : Method Beat (Option (List ℕ))
  unfolding decide run_now
  trigger_now = elim h.heartbeat_file [
    | none ↦ pure none
    | some content ↦ elim content [ [] ↦ pure none | c ∷ cs ↦ decide (c ∷ cs) >>= run_now ]
  ]
