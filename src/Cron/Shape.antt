-- ===== src/Cron/Shape.antt =====
-- The shape of the store, and what the methods and the timer do to it.
use eeebot_self_evolving.Prelude.{
  ℕ, suc, ◌<◌, ◌≤◌, ◌≡◌, ◌≢◌, refl, Bool, inl, inr, Option, none, some, List, [], ◌∷◌, arith,
  or_else, All, All-imp, All-keep, keep, Bool-cases, Option-cases, String,
}
use eeebot_self_evolving.Prelude.Int.{ℤ}
use eeebot_self_evolving.Prelude.Effects.{
  Result, ok, raise, exception, cancelled, ◌>>=◌, Keeps, Keeps-bind, Keeps-pure, Keeps-throw,
}
use eeebot_self_evolving.Cron.Types.{CronJob, ScheduleKind}
use eeebot_self_evolving.Cron.World.{World}
use eeebot_self_evolving.Cron.Store.{
  Service, Cron, allocate, with_object, read_jobs, cached, load_store, save_store, now_ms,
}
use eeebot_self_evolving.Cron.RoundTrip.{allocate-fresh}
use eeebot_self_evolving.Cron.Runs.{recorded}
use eeebot_self_evolving.Cron.Timer.{
  caught, due_jobs, assign, drop_id, recompute_next_runs, arm_timer, reschedule, reschedule_kind,
  finish_job, await_job, execute_job, execute_all, on_timer, tick, start,
}

-- No reference occurs twice.
abbrev pub Distinct : List ℕ → Type 0
Distinct [] = Unit
Distinct (r ∷ rs) = All (λ q. r ≢ q) rs × Distinct rs

pub record IsWellFormed (s : Service) : Type 0 where
  pub below : All (λ r. r < s.next_ref) (or_else s.store [])
  pub distinct : Distinct (or_else s.store [])

pub Distinct-keep : (p : ℕ → Bool) (rs : List ℕ) → Distinct rs → Distinct (keep p rs)
Distinct-keep p [] h = tt
Distinct-keep p (r ∷ rs) h = ground (arith, Distinct-keep p rs h.1, All-keep (λ q. r ≢ q) p rs h.0)

pub next_ref-le-allocate :
    (js : List CronJob) (s : Service) → s.next_ref ≤ (allocate js s).1.next_ref
unfolding allocate
next_ref-le-allocate [] s = omega arith
next_ref-le-allocate (j ∷ js) s = omega (arith, next_ref-le-allocate js (with_object j s))

allocate_below :
    (js : List CronJob) (s : Service) → All (λ r. r < (allocate js s).1.next_ref) (allocate js s).0
unfolding allocate
allocate_below [] s = tt
allocate_below (j ∷ js) s =
    (omega (arith, next_ref-le-allocate js (with_object j s)), allocate_below js (with_object j s))

allocate-Distinct : (js : List CronJob) (s : Service) → Distinct (allocate js s).0
unfolding allocate
allocate-Distinct [] s = tt
allocate-Distinct (j ∷ js) s = (
  All-imp (λ r. suc s.next_ref ≤ r) (λ r. s.next_ref ≢ r) _ (λ r h. omega arith)
      (allocate-fresh js (with_object j s)),
  allocate-Distinct js (with_object j s),
)

pub store-cached : (s : Service) (refs : List ℕ) → cached s ≡ some refs → s.store ≡ some refs
unfolding cached
store-cached s refs h = ground arith

pub load_store-IsWellFormed : Keeps IsWellFormed load_store
unfolding load_store
load_store-IsWellFormed = record {
  at = λ s h. elim (Option-cases (cached s)) [
    | inl e ↦
        rw (e, load_store)
          (record {
            below = allocate_below (read_jobs s.file) s;
            distinct = allocate-Distinct (read_jobs s.file) s;
          })
    | inr (refs, e) ↦
        rw (e, load_store)
          (record {
            below = rw (store-cached s refs e) at h.below;
            distinct = rw (store-cached s refs e) at h.distinct;
          })
  ];
}

-- A method that assigns neither the store nor the counter of objects.
record Leaves {A : Type 0} (m : Cron A) : Type 0 where
  store : (s : Service) → (m s).1.store ≡ s.store
  next_ref : (s : Service) → (m s).1.next_ref ≡ s.next_ref

Leaves-IsWellFormed : {A : Type 0} {m : Cron A} → Leaves m → Keeps IsWellFormed m
Leaves-IsWellFormed {m} l = record {
  at = λ s h. record {
    below = rw (l.store s, l.next_ref s) h.below;
    distinct = rw (l.store s) h.distinct;
  };
}

pub assign-IsWellFormed : (r : ℕ) (f : CronJob → CronJob) → Keeps IsWellFormed (assign r f)
assign-IsWellFormed r f = Leaves-IsWellFormed (record { store = λ s. refl; next_ref = λ s. refl })

drop_id-IsWellFormed : (id : String) → Keeps IsWellFormed (drop_id id)
unfolding drop_id
drop_id-IsWellFormed id = record {
  at = λ s h. elim (Option-cases s.store) [
    | inl e ↦ rw (e, drop_id) h
    | inr (refs, e) ↦
        rw (e, drop_id)
          (record {
            below = All-keep (λ r. r < s.next_ref) _ refs (rw e at h.below);
            distinct = Distinct-keep _ refs (rw e at h.distinct);
          })
  ];
}

module _ (w : World) where
  pub now_ms-IsWellFormed : Keeps IsWellFormed (now_ms w)
  unfolding now_ms
  now_ms-IsWellFormed = Leaves-IsWellFormed (record { store = λ s. refl; next_ref = λ s. refl })

  pub save_store-IsWellFormed : Keeps IsWellFormed (save_store w)
  unfolding save_store
  save_store-IsWellFormed =
      Leaves-IsWellFormed (record { store = λ s. ground arith; next_ref = λ s. ground arith })

  pub arm_timer-IsWellFormed : Keeps IsWellFormed (arm_timer w)
  unfolding arm_timer
  arm_timer-IsWellFormed =
      Leaves-IsWellFormed (record { store = λ s. ground arith; next_ref = λ s. ground arith })

  pub recompute_next_runs-IsWellFormed : Keeps IsWellFormed (recompute_next_runs w)
  unfolding recompute_next_runs
  recompute_next_runs-IsWellFormed =
      Leaves-IsWellFormed (record { store = λ s. ground arith; next_ref = λ s. ground arith })

  reschedule_kind-IsWellFormed :
      (kind : ScheduleKind) (r : ℕ) → Keeps IsWellFormed (reschedule_kind w kind r)
  unfolding reschedule_kind
  reschedule_kind-IsWellFormed ScheduleKind.at r = record {
    at = λ s h. elim (Bool-cases (s.heap r).delete_after_run) [
      | inl e ↦ rw e ((drop_id-IsWellFormed (s.heap r).id).at s h)
      | inr e ↦ rw e (record { below = h.below; distinct = h.distinct })
    ];
  }
  reschedule_kind-IsWellFormed _ r =
      Leaves-IsWellFormed (record { store = λ s. refl; next_ref = λ s. refl })

  pub finish_job-IsWellFormed :
      (r : ℕ) (start : ℤ) (error : Option String) → Keeps IsWellFormed (finish_job w r start error)
  unfolding finish_job reschedule
  finish_job-IsWellFormed r start error = record {
    at = λ s h.
        let t = recorded w r start error s in
        (reschedule_kind-IsWellFormed (t.heap r).schedule.kind r).at t
          (record { below = h.below; distinct = h.distinct });
  }

  pub ruleset shape_rules = (
    Keeps-bind, Keeps-pure, Keeps-throw, now_ms-IsWellFormed, save_store-IsWellFormed,
    arm_timer-IsWellFormed, recompute_next_runs-IsWellFormed, load_store-IsWellFormed,
    finish_job-IsWellFormed, assign-IsWellFormed,
  )

-- The callback keeps the shape, whatever else it does to the service.
abbrev pub CallbackKeeps : (Service → Type 0) → Option (ℕ → Cron Unit) → Type 0
CallbackKeeps P none = Unit
CallbackKeeps P (some f) = (r : ℕ) → Keeps P (f r)

caught_state : (p : Result Unit × Service) → (caught p).1 ≡ p.1
caught_state (ok a, s) = refl
caught_state (raise (exception e), s) = refl
caught_state (raise cancelled, s) = refl

await_job-Keeps :
    (P : Service → Type 0) (on_job : Option (ℕ → Cron Unit)) (r : ℕ)
    → CallbackKeeps P on_job
    → Keeps P (await_job on_job r)
unfolding await_job
await_job-Keeps P none r k = record { at = λ s h. h }
await_job-Keeps P (some f) r k = record { at = λ s h. rw (caught_state (f r s)) ((k r).at s h) }

module _ (w : World) (on_job : Option (ℕ → Cron Unit))
    (keeps : CallbackKeeps IsWellFormed on_job) where
  pub execute_job-IsWellFormed : (r : ℕ) → Keeps IsWellFormed (execute_job w on_job r)
  unfolding execute_job
  execute_job-IsWellFormed r =
      Keeps-bind (now_ms w) (λ start. await_job on_job r >>= finish_job w r start)
        (now_ms-IsWellFormed w)
        λ start.
          Keeps-bind (await_job on_job r) (finish_job w r start)
            (await_job-Keeps IsWellFormed on_job r keeps) (finish_job-IsWellFormed w r start)

  execute_all-IsWellFormed : (rs : List ℕ) → Keeps IsWellFormed (execute_all w on_job rs)
  unfolding execute_all
  execute_all-IsWellFormed [] = Keeps-pure tt
  execute_all-IsWellFormed (r ∷ rs) =
      Keeps-bind (execute_job w on_job r) _ (execute_job-IsWellFormed r)
        (λ _. execute_all-IsWellFormed rs)

  execute_due-IsWellFormed :
      (now : ℤ) → Keeps IsWellFormed (λ s. execute_all w on_job (due_jobs s now) s)
  execute_due-IsWellFormed now = record {
    at = λ s h. (execute_all-IsWellFormed (due_jobs s now)).at s h;
  }

  on_timer-IsWellFormed : Keeps IsWellFormed (on_timer w on_job)
  unfolding on_timer
  on_timer-IsWellFormed = search (shape_rules, execute_due-IsWellFormed)

  pub tick-IsWellFormed : Keeps IsWellFormed (tick w on_job)
  unfolding tick
  tick-IsWellFormed = record {
    at = λ s h. elim (Bool-cases s.running) [
      | inl e ↦ simp e (on_timer-IsWellFormed.at s h)
      | inr e ↦ simp e h
    ];
  }
