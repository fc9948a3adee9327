-- ===== src/Agent/Process/Sessions.antt =====
-- The sessions that `_process_message` and `_dispatch` of nanobot/agent/loop.py leave.
use eeebot_self_evolving.Session.Message.{Message}
use eeebot_self_evolving.Agent.Process.{Core}
