-- ===== src/Cron/Tool/Plans.antt =====
-- The guards and the plan of an addition, against a flat description of both.
use eeebot_self_evolving.Prelude.{
  ◌≡◌, refl, Bool, true, false, ◌&&◌, ◌||◌, not, inl, inr, Option, none, some, String, arith,
  or_else, truthy, Bool-cases,
}
use eeebot_self_evolving.Prelude.Int.{ℤ}
use eeebot_self_evolving.Cron.Types.{ScheduleKind, CronSchedule}
use eeebot_self_evolving.Cron.World.{World}
use eeebot_self_evolving.Cron.Adding.{accepts}
use eeebot_self_evolving.Cron.Tool.{
  CronTool, Moments, Arguments, Plan, is_given, every_schedule, cron_schedule, at_schedule, once_at,
  plan_of, guard_add,
}

module _ (w : World) (k : Moments) (t : CronTool) (a : Arguments) where
  -- The session, the message and the time zone that "add" needs.
  abbrev pub has_session : Bool
  has_session =
      truthy (some a.message)
      && (truthy (some t.channel) && truthy (some t.chat_id))
      && (not (truthy a.tz) || (truthy a.cron_expr && w.zone_known (or_else a.tz "")))

  pub guard_add-none : guard_add w t a ≡ none → has_session ≡ true
  unfolding guard_add
  guard_add-none h = ground arith

  pub guard_add-some : (e : String) → guard_add w t a ≡ some e → has_session ≡ false
  unfolding guard_add
  guard_add-some e h = ground arith

  abbrev pub parses : Option ℤ → Bool
  parses none = false
  parses (some ms) = true

  -- When "add" has a time: an interval, a cron expression, or a date that can be read.
  abbrev pub has_time : Bool
  has_time =
      is_given a.every_seconds
      || (truthy a.cron_expr || (truthy a.at && parses (k.from_isoformat (or_else a.at ""))))

  abbrev pub is_at : ScheduleKind → Bool
  is_at ScheduleKind.at = true
  is_at _ = false

  -- A plan of the arguments agrees with `has_time`; its schedule is accepted, and only a date is
  -- planned once.
  pub data IsPlan : Plan → Type 0 where
    refused : (e : String) → has_time ≡ false → IsPlan (Plan.refused e)
    planned :
        (schedule : CronSchedule)
        → has_time ≡ true
        → accepts w schedule ≡ true
        → IsPlan (Plan.planned schedule (is_at schedule.kind))

  once_at-IsPlan : (ms : Option ℤ) → has_time ≡ parses ms → IsPlan (once_at (or_else a.at "") ms)
  unfolding accepts
  once_at-IsPlan none h = IsPlan.refused _ h
  once_at-IsPlan (some ms) h = IsPlan.planned (at_schedule ms) h refl

  cron-accepts :
      has_session ≡ true
      → truthy a.cron_expr ≡ true
      → accepts w (cron_schedule a.cron_expr a.tz) ≡ true
  unfolding accepts
  cron-accepts h e = ground arith

  pub plan_of-IsPlan : has_session ≡ true → IsPlan (plan_of k a)
  unfolding plan_of accepts
  plan_of-IsPlan h = elim (Bool-cases (is_given a.every_seconds)) [
    | inl every ↦ rw every (IsPlan.planned (every_schedule a.every_seconds) (rw every refl) refl)
    | inr no_interval ↦ rw no_interval (elim (Bool-cases (truthy a.cron_expr)) [
      | inl cron ↦ rw cron (
          IsPlan.planned (cron_schedule a.cron_expr a.tz) (rw no_interval (rw cron refl))
            (cron-accepts h cron))
      | inr no_cron ↦ rw no_cron (elim (Bool-cases (truthy a.at)) [
        | inl at ↦ rw at (
            once_at-IsPlan (k.from_isoformat (or_else a.at ""))
              (rw no_interval (rw no_cron (rw at refl))))
        | inr no_at ↦ rw no_at (IsPlan.refused _ (rw no_interval (rw no_cron (rw no_at refl))))
      ])
    ])
  ]
