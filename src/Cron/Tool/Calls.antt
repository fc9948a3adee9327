-- ===== src/Cron/Tool/Calls.antt =====
-- What a call of the cron tool is for the service: at most one event.
use eeebot_self_evolving.Prelude.{
  ◌≡◌, Bool, true, false, ◌&&◌, not, none, some, String, List, [], ◌∷◌, str_eq, or_else, truthy,
}
use eeebot_self_evolving.Prelude.Effects.{ok}
use eeebot_self_evolving.Cron.World.{World}
use eeebot_self_evolving.Cron.Store.{Service, Cron}
use eeebot_self_evolving.Cron.Jobs.{NewJob}
use eeebot_self_evolving.Cron.Events.{Event, handle_all}
use eeebot_self_evolving.Cron.Adding.{accepts}
use eeebot_self_evolving.Cron.Tool.{CronTool, Moments, Arguments}
use eeebot_self_evolving.Cron.Tool.Plans.{has_session, has_time, is_at}

module _ (w : World) (k : Moments) (t : CronTool) (a : Arguments) where
  abbrev pub is_addition : Bool
  is_addition =
      str_eq a.action "add" && (not t.in_cron_context && (has_session w k t a && has_time w k t a))

  abbrev pub is_removal : Bool
  is_removal = str_eq a.action "remove" && truthy a.job_id

  -- The job that an addition makes: for the tool's session, with a schedule that the service accepts,
  -- and deleted after its run if it runs at one date.
  pub record IsReminder (j : NewJob) : Type 0 where
    pub message : j.message ≡ a.message
    pub deliver : j.deliver ≡ true
    pub channel : j.channel ≡ some t.channel
    pub to : j.to ≡ some t.chat_id
    pub accepted : accepts w j.schedule ≡ true
    pub once : j.delete_after_run ≡ is_at w k t a j.schedule.kind

  pub data IsCall : List Event → Type 0 where
    nothing : is_addition ≡ false → str_eq a.action "list" ≡ false → is_removal ≡ false → IsCall []
    inquiry : str_eq a.action "list" ≡ true → IsCall (Event.list false ∷ [])
    removal : is_removal ≡ true → IsCall (Event.remove (or_else a.job_id "") ∷ [])
    addition : (j : NewJob) → is_addition ≡ true → IsReminder j → IsCall (Event.add j ∷ [])

  -- The call as the events and the answer.
  abbrev pub Called : Cron String → Service → Type 0
  Called call s =
      (es : List Event) × (text : String) × (IsCall es
        × (call s ≡ (ok text, handle_all w none es s)))
