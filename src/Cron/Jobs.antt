-- ===== src/Cron/Jobs.antt =====
-- The public methods of `CronService`, `list_jobs` to `status`, and `_validate_schedule_for_add`.
use Prim.Native.String.{◌++◌}
use eeebot_self_evolving.Prelude.{
  ℕ, suc, Bool, true, false, ◌&&◌, not, Option, none, some, String, List, [], ◌∷◌, str_eq, ltb,
  if◌then◌else◌, or_else, truthy, length, keep, find_first,
}
use mathlib.Core.List.{◌++◌ as append}
use eeebot_self_evolving.Prelude.Int.{ℤ, ltb_ℤ, nonzero}
use eeebot_self_evolving.Prelude.Effects.{exception, ok, pure, throw, ◌>>=◌, ◌>>◌}
use eeebot_self_evolving.Cron.Types.{ScheduleKind, CronSchedule, PayloadKind, CronJob, no_state}
use eeebot_self_evolving.Cron.World.{World}
use eeebot_self_evolving.Cron.Store.{Cron, update, load_store, save_store, now_ms}
use eeebot_self_evolving.Cron.Timer.{
  compute_next_run, with_next_run, get_next_wake_ms, assign, arm_timer, execute_job,
}

-- The sort key `next_run_at_ms or inf`, compared by `<`.
abbrev pub sort_key : CronJob → Option ℤ
sort_key j = elim j.state.next_run_at_ms [
  | none ↦ none
  | some t ↦ if nonzero t then some t else none
]

abbrev pub key_lt : Option ℤ → Option ℤ → Bool
key_lt none b = false
key_lt (some a) none = true
key_lt (some a) (some b) = ltb_ℤ a b

-- Python's `sorted` keeps the order of equal keys: an item goes behind those that are not above it.
module _ (key : ℕ → Option ℤ) where
  unfoldable pub insert_sorted : ℕ → List ℕ → List ℕ
  insert_sorted r [] = r ∷ []
  insert_sorted r (q ∷ qs) = if key_lt (key q) (key r) then q ∷ insert_sorted r qs else r ∷ q ∷ qs

  unfoldable pub sort_by : List ℕ → List ℕ
  unfolding insert_sorted
  sort_by [] = []
  sort_by (r ∷ rs) = insert_sorted r (sort_by rs)

-- The part of `list_jobs` behind the load.
unfoldable pub list_loaded : Bool → List ℕ → Cron (List ℕ)
unfolding sort_by
list_loaded include_disabled refs s = (
  ok (
      sort_by (λ r. sort_key (s.heap r))
        (if include_disabled then refs else keep (λ r. (s.heap r).enabled) refs)),
  s,
)

unfoldable pub list_jobs : Bool → Cron (List ℕ)
list_jobs include_disabled = do refs ← load_store; list_loaded include_disabled refs

unfoldable pub get_job : String → Cron (Option ℕ)
get_job id = do refs ← load_store; λ s. (ok (find_first (λ r. str_eq (s.heap r).id id) refs), s)

pub record Status : Type 0 where
  pub enabled : Bool
  pub jobs : ℕ
  pub next_wake_at_ms : Option ℤ

unfoldable pub status : Cron Status
status = do
  refs ← load_store
  λ s. (
    ok (record { enabled = s.running; jobs = length refs; next_wake_at_ms = get_next_wake_ms s }),
    s,
  )

-- The arguments of `add_job`.
pub record NewJob : Type 0 where
  pub name : String
  pub schedule : CronSchedule
  pub message : String
  pub deliver : Bool
  pub channel : Option String
  pub to : Option String
  pub delete_after_run : Bool

abbrev pub is_cron : ScheduleKind → Bool
is_cron ScheduleKind.cron = true
is_cron _ = false

-- `store.jobs.append(job)`, for a new object
unfoldable pub append_job : CronJob → Cron ℕ
append_job job s = (
  ok s.next_ref,
  record s {
    store = some (append (or_else s.store []) (s.next_ref ∷ []));
    heap = update s.heap s.next_ref job;
    next_ref = suc s.next_ref;
  },
)

module _ (w : World) where
  unfoldable pub validate_schedule_for_add : CronSchedule → Cron Unit
  validate_schedule_for_add schedule =
      let zone = or_else schedule.tz "" in
      if truthy schedule.tz && not (is_cron schedule.kind)
      then throw (exception "tz can only be used with cron schedules")
      else if is_cron schedule.kind && (truthy schedule.tz && not (w.zone_known zone))
      then throw (exception ("unknown timezone '" ++ (zone ++ "'")))
      else pure tt

  -- `str(uuid.uuid4())[:8]`
  unfoldable pub new_id : Cron String
  new_id s = (ok (w.new_id s.ids), record s { ids = suc s.ids })

  abbrev pub new_job : NewJob → String → ℤ → CronJob
  new_job a id now = record {
    id = id;
    name = a.name;
    enabled = true;
    schedule = a.schedule;
    payload = record {
      kind = PayloadKind.agent_turn;
      message = a.message;
      deliver = a.deliver;
      channel = a.channel;
      to = a.to;
    };
    state = record no_state { next_run_at_ms = compute_next_run w a.schedule now };
    created_at_ms = now;
    updated_at_ms = now;
    delete_after_run = a.delete_after_run;
  }

  abbrev pub saved : Cron Unit
  saved = do save_store w; arm_timer w

  unfoldable pub add_job : NewJob → Cron ℕ
  add_job a = do
    load_store
    validate_schedule_for_add a.schedule
    now ← now_ms w
    id ← new_id
    r ← append_job (new_job a id now)
    saved
    pure r

  -- The part of `remove_job` behind the load.
  unfoldable pub remove_from : String → List ℕ → Cron Bool
  remove_from id refs s =
      let kept = keep (λ r. not (str_eq (s.heap r).id id)) refs in
      let removed = ltb (length kept) (length refs) in
      (if removed then (do saved; pure true) else pure false) (record s { store = some kept })

  unfoldable pub remove_job : String → Cron Bool
  remove_job id = do refs ← load_store; remove_from id refs

  unfoldable pub set_next_run : Bool → ℕ → Cron Unit
  unfolding now_ms
  set_next_run false r = assign r (λ j. with_next_run j none)
  set_next_run true r = do
    now ← now_ms w
    assign r (λ j. with_next_run j (compute_next_run w j.schedule now))

  unfoldable pub enable_found : Bool → Option ℕ → Cron (Option ℕ)
  unfolding now_ms set_next_run
  enable_found enabled none = pure none
  enable_found enabled (some r) = do
    now ← now_ms w
    assign r (λ j. record j { enabled = enabled; updated_at_ms = now })
    set_next_run enabled r
    saved
    pure (some r)

  unfoldable pub enable_job : String → Bool → Cron (Option ℕ)
  unfolding get_job enable_found
  enable_job id enabled = do found ← get_job id; enable_found enabled found

module _ (w : World) (on_job : Option (ℕ → Cron Unit)) where
  unfoldable pub run_found : Bool → Option ℕ → Cron Bool
  run_found force none s = (ok false, s)
  run_found force (some r) s =
      if not force && not (s.heap r).enabled
      then (ok false, s)
      else (do execute_job w on_job r; saved w; pure true) s

  unfoldable pub run_job : String → Bool → Cron Bool
  unfolding get_job run_found
  run_job id force = do found ← get_job id; run_found force found
