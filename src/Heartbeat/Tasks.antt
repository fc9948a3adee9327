-- ===== src/Heartbeat/Tasks.antt =====
-- The tasks that `start` and `stop` of nanobot/heartbeat/service.py create and cancel.
use eeebot_self_evolving.Prelude.{true, false, List, [], ◌∷◌, ◌≡◌}
use eeebot_self_evolving.Heartbeat.{Service, Beat, start, stop}

-- The service runs with one live task, or it is stopped with none.
pub data IsConsistent (s : Beat) : Type 0 where
  up : s.running ≡ true → s.has_task ≡ true → s.alive ≡ 1 → IsConsistent s
  down : s.running ≡ false → s.has_task ≡ false → s.alive ≡ 0 → IsConsistent s

pub data Command : Type 0 where
  begin halt : Command

unfoldable pub obey : Service → List Command → Beat → Beat
unfolding start stop
obey h [] s = s
obey h (begin ∷ cs) s = obey h cs (start h s)
obey h (halt ∷ cs) s = obey h cs (stop h s)
