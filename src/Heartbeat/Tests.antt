-- ===== src/Heartbeat/Tests.antt =====
-- A service whose provider runs one task, and the theorems at it.
use eeebot_self_evolving.Prelude.{true, false, some, [], ◌∷◌, ◌≡◌, refl}
use eeebot_self_evolving.Prelude.Json.{Json}
use eeebot_self_evolving.Prelude.Effects.{ok}
use eeebot_self_evolving.Runtime.Dict.{dict}
use eeebot_self_evolving.Heartbeat.{
  Service, Beat, tick, checked, decide, decision_of, run_tasks, execute, deliver, notify, caught,
}
use eeebot_self_evolving.Heartbeat.Ticks.{IsBeat, tick-IsBeat}

abbrev service : Service
service = record {
  heartbeat_file = some (b't' ∷ []);
  chat = λ _.
      ok (Json.obj (dict (("action", Json.str "run") ∷ ("tasks", Json.str "report") ∷ [])) ∷ []);
  on_execute = some (λ _. ok (b'r' ∷ []));
  evaluate_response = λ _ _. ok true;
  on_notify = some (λ _. ok tt);
  enabled = true;
}

abbrev idle : Beat
idle = record { running = false; has_task = false; alive = 0; executed = []; notified = [] }

ticked : (tick service idle).1.notified ≡ (b'r' ∷ []) ∷ []
unfolding tick checked decide decision_of run_tasks execute deliver notify caught
ticked = refl

tick-IsBeat_example : IsBeat service idle (tick service idle).1
tick-IsBeat_example = tick-IsBeat service idle
