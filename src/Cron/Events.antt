-- ===== src/Cron/Events.antt =====
-- A run of the service: the calls of its methods, ticks of its timer and edits of its file by
-- others, in any order.
use eeebot_self_evolving.Prelude.{ℕ, ◌≡◌, Bool, Option, String, List, [], ◌∷◌, arith}
use eeebot_self_evolving.Cron.Types.{CronSchedule}
use eeebot_self_evolving.Cron.World.{World}
use eeebot_self_evolving.Cron.Store.{Service, Cron, StoreFile}
use eeebot_self_evolving.Cron.Timer.{tick, start, stop}
use eeebot_self_evolving.Cron.Jobs.{
  NewJob, list_jobs, get_job, status, validate_schedule_for_add, add_job, remove_job, enable_job,
  run_job,
}

-- `edit` is another process that writes, or deletes, the store file.
pub data Event : Type 0 where
  timer : Event
  start_up shut_down : Event
  add : NewJob → Event
  remove : String → Event
  enable : String → Bool → Event
  run : String → Bool → Event
  list : Bool → Event
  get : String → Event
  report : Event
  edit : Option StoreFile → Event

module _ (w : World) (on_job : Option (ℕ → Cron Unit)) where
  unfoldable pub handle : Event → Service → Service
  handle timer s = (tick w on_job s).1
  handle start_up s = (start w s).1
  handle shut_down s = (stop s).1
  handle (add a) s = (add_job w a s).1
  handle (remove id) s = (remove_job w id s).1
  handle (enable id enabled) s = (enable_job w id enabled s).1
  handle (run id force) s = (run_job w on_job id force s).1
  handle (list all) s = (list_jobs all s).1
  handle (get id) s = (get_job id s).1
  handle report s = (status s).1
  handle (edit file) s = record s { file = file }

  unfoldable pub handle_all : List Event → Service → Service
  handle_all [] s = s
  handle_all (e ∷ es) s = handle_all es (handle e s)

module _ (w : World) where
  -- A validation changes nothing.
  pub validate_state :
      (schedule : CronSchedule) (s : Service) → (validate_schedule_for_add w schedule s).1 ≡ s
  unfolding validate_schedule_for_add
  validate_state schedule s = ground arith
