-- ===== src/Cron/Wake.antt =====
-- `_get_next_wake_ms` and `_arm_timer`.
use mathlib.Core.Path.{subst}
use mathlib.Core.List.Memᴰ
use mathlib.Core.List.{Memᴰ}
use eeebot_self_evolving.Prelude.{
  ◌≡◌, refl, sym, Bool, true, false, ◌&&◌, ◌⊎◌, inl, inr, some, List, [], ◌∷◌, arith, if◌then◌else◌,
  Bool-cases, Option-cases,
}
use eeebot_self_evolving.Prelude.Int.{ℤ, pos, ◌≤ℤ◌, ◌+ℤ◌, ◌-ℤ◌, ltb_ℤ, nonzero, +ℤ_parts, -ℤ_parts}
use eeebot_self_evolving.Cron.Types.{CronJob}
use eeebot_self_evolving.Cron.World.{World}
use eeebot_self_evolving.Cron.Store.{Service, jobs_of}
use eeebot_self_evolving.Cron.Timer.{wake_times, smallest, least, get_next_wake_ms, arm_timer}

-- An enabled job with a next run, which is not the falsy 0.
pub record Waits (j : CronJob) (t : ℤ) : Type 0 where
  pub enabled : j.enabled ≡ true
  pub next_run : j.state.next_run_at_ms ≡ some t
  pub nonzero_time : nonzero t ≡ true

Memᴰ_if : {t : ℤ} (u : ℤ) (ts : List ℤ) (b : Bool) → Memᴰ t ts → Memᴰ t (if b then u ∷ ts else ts)
Memᴰ_if u ts true m = Memᴰ.tail m
Memᴰ_if u ts false m = m

Memᴰ_second : {t a : ℤ} {ts : List ℤ} (u : ℤ) → Memᴰ a (t ∷ ts) → Memᴰ a (t ∷ u ∷ ts)
Memᴰ_second u (Memᴰ.head e) = Memᴰ.head e
Memᴰ_second u (Memᴰ.tail m) = Memᴰ.tail (Memᴰ.tail m)

Memᴰ-wake_times_cons :
    (i : CronJob) (t : ℤ) (js : List CronJob)
    → Memᴰ t (wake_times js)
    → Memᴰ t (wake_times (i ∷ js))
unfolding wake_times
Memᴰ-wake_times_cons i t js m = elim (Option-cases i.state.next_run_at_ms) [
  | inl e ↦ rw (e, wake_times) m
  | inr (u, e) ↦ rw (e, wake_times) (Memᴰ_if u (wake_times js) (i.enabled && nonzero u) m)
]

Memᴰ-wake_times_head :
    (j : CronJob) (t : ℤ) (js : List CronJob) → Waits j t → Memᴰ t (wake_times (j ∷ js))
unfolding wake_times
Memᴰ-wake_times_head j t js h =
    rw (h.next_run, wake_times) (rw (h.enabled, h.nonzero_time) (Memᴰ.head refl))

Memᴰ-wake_times :
    (j : CronJob) (t : ℤ) → Waits j t → {js : List CronJob} → Memᴰ j js → Memᴰ t (wake_times js)
unfolding wake_times
Memᴰ-wake_times j t h (Memᴰ.head {x = i} {xs = js} e) =
    subst (λ k. Memᴰ t (wake_times (k ∷ js))) e (Memᴰ-wake_times_head j t js h)
Memᴰ-wake_times j t h (Memᴰ.tail {x = i} {xs = js} m) =
    Memᴰ-wake_times_cons i t js (Memᴰ-wake_times j t h m)

smallest-le_head : (t : ℤ) (ts : List ℤ) → smallest t ts ≤ℤ t
unfolding smallest
smallest-le_head t [] = omega arith
smallest-le_head t (u ∷ us) = ground (arith, smallest-le_head u us, smallest-le_head t us)

smallest-le : {u : ℤ} (t : ℤ) {ts : List ℤ} → Memᴰ u ts → smallest t ts ≤ℤ u
unfolding smallest
smallest-le {u} t (Memᴰ.head {x = v} {xs = ts} e) =
    rw e (ground (arith, smallest-le_head v ts, smallest-le_head t ts))
smallest-le {u} t (Memᴰ.tail {x = v} m) = smallest-le (if ltb_ℤ v t then v else t) m

smallest-mem : (t : ℤ) (ts : List ℤ) → Memᴰ (smallest t ts) (t ∷ ts)
unfolding smallest
smallest-mem t [] = Memᴰ.head refl
smallest-mem t (u ∷ us) = elim (Bool-cases (ltb_ℤ u t)) [
  | inl e ↦ rw e (Memᴰ.tail (smallest-mem u us))
  | inr e ↦ rw e (Memᴰ_second u (smallest-mem t us))
]

and-eq-true : (a b : Bool) → (a && b) ≡ true → (a ≡ true) × (b ≡ true)
and-eq-true a b h = ground arith

Memᴰ-wake_times_step :
    (t u : ℤ) (i : CronJob) (js : List CronJob)
    → i.state.next_run_at_ms ≡ some u
    → (Memᴰ t (wake_times js) → (j : CronJob) × Memᴰ j js × Waits j t)
    → Memᴰ t (if i.enabled && nonzero u then u ∷ wake_times js else wake_times js)
    → (j : CronJob) × Memᴰ j (i ∷ js) × Waits j t
Memᴰ-wake_times_step t u i js e ih m = elim (Bool-cases (i.enabled && nonzero u)) [
  | inl on ↦
      let (enabled, nonzero_time) = and-eq-true i.enabled (nonzero u) on in
      elim (Memᴰ.cases_cons (rw on at m)) [
        | inl same ↦ (
          i,
          Memᴰ.head refl,
          subst (Waits i) (sym same)
              (record { enabled = enabled; next_run = e; nonzero_time = nonzero_time }),
        )
        | inr later ↦ let (j, n, w) = ih later in (j, Memᴰ.tail n, w)
      ]
  | inr off ↦ let (j, n, w) = ih (rw off at m) in (j, Memᴰ.tail n, w)
]

Memᴰ-wake_times_inv :
    (t : ℤ) (js : List CronJob) → Memᴰ t (wake_times js) → (j : CronJob) × Memᴰ j js × Waits j t
unfolding wake_times
Memᴰ-wake_times_inv t [] m = elim m [ ]
Memᴰ-wake_times_inv t (i ∷ js) m = elim (Option-cases i.state.next_run_at_ms) [
  | inl e ↦
      let (j, n, w) = Memᴰ-wake_times_inv t js (rw (e, wake_times) at m) in (j, Memᴰ.tail n, w)
  | inr (u, e) ↦
      Memᴰ-wake_times_step t u i js e (Memᴰ-wake_times_inv t js) (rw (e, wake_times) at m)
]

least_le : {u : ℤ} (t : ℤ) {ts : List ℤ} → Memᴰ u ts → least ts ≡ some t → t ≤ℤ u
unfolding least
least_le {u} t (Memᴰ.head {x = v} {xs = ts} e) h =
    let p : smallest v ts ≡ t = ground arith in rw (← p) (rw e (smallest-le_head v ts))
least_le {u} t (Memᴰ.tail {x = v} {xs = ts} m) h =
    let p : smallest v ts ≡ t = ground arith in rw (← p) (smallest-le v m)

-- `_get_next_wake_ms` is the least next run of the jobs that wait: it is not after any of them.
pub get_next_wake_ms-le :
    (s : Service) (t u : ℤ) (j : CronJob)
    → get_next_wake_ms s ≡ some t
    → Memᴰ j (jobs_of s)
    → Waits j u
    → t ≤ℤ u
unfolding get_next_wake_ms
get_next_wake_ms-le s t u j h m wait = least_le t (Memᴰ-wake_times j u wait m) h

least_mem : (t : ℤ) (ts : List ℤ) → least ts ≡ some t → Memᴰ t ts
unfolding least
least_mem t [] h = cc
least_mem t (u ∷ us) h = let p : smallest u us ≡ t = ground arith in rw p at (smallest-mem u us)

-- A next wake is the next run of a job in the store that waits.
pub get_next_wake_ms-attained :
    (s : Service) (t : ℤ)
    → get_next_wake_ms s ≡ some t
    → (j : CronJob) × Memᴰ j (jobs_of s) × Waits j t
unfolding get_next_wake_ms
get_next_wake_ms-attained s t h =
    Memᴰ-wake_times_inv t (jobs_of s) (least_mem t (wake_times (jobs_of s)) h)

least-ne-none : {u : ℤ} {ts : List ℤ} → Memᴰ u ts → (t : ℤ) × (least ts ≡ some t)
unfolding least
least-ne-none (Memᴰ.head {x = v} {xs = ts} e) = (smallest v ts, refl)
least-ne-none (Memᴰ.tail {x = v} {xs = ts} m) = (smallest v ts, refl)

next_wake_exists :
    (s : Service) (u : ℤ) (j : CronJob)
    → Memᴰ j (jobs_of s)
    → Waits j u
    → (t : ℤ) × (get_next_wake_ms s ≡ some t)
unfolding get_next_wake_ms
next_wake_exists s u j m wait = least-ne-none (Memᴰ-wake_times j u wait m)

-- The delay until `wake`, as `_arm_timer` computes it.
abbrev pub delay : ℤ → ℤ → ℤ
delay now wake = if ltb_ℤ now wake then wake -ℤ now else pos 0

arm_timer-timer :
    (w : World) (s : Service) (t : ℤ)
    → s.running ≡ true
    → get_next_wake_ms s ≡ some t
    → (arm_timer w s).1.timer ≡ some (delay (w.now_ms s.reads) t)
unfolding arm_timer
arm_timer-timer w s t on h = rw (h, arm_timer) (rw on refl)

delay_bounds :
    (now t u : ℤ)
    → t ≤ℤ u
    → (pos 0 ≤ℤ delay now t) × ((now +ℤ delay now t ≤ℤ u) ⊎ (delay now t ≡ pos 0))
delay_bounds now t u h = elim (Bool-cases (ltb_ℤ now t)) [
  | inl e ↦
      rw e (
        ground (arith, -ℤ_parts t now),
        inl (omega (arith, -ℤ_parts t now, +ℤ_parts now (t -ℤ now))),
      )
  | inr e ↦ rw e (omega arith, inr refl)
]

-- In a running service with a job that waits for the time `u`, `_arm_timer` starts a timer whose
-- delay is not negative, and which is over at `u` or, where `u` is past, at once.
pub arm_timer_in_time :
    (w : World) (s : Service) (u : ℤ) (j : CronJob)
    → s.running ≡ true
    → Memᴰ j (jobs_of s)
    → Waits j u
    → (d : ℤ) × ((arm_timer w s).1.timer ≡ some d)
      × (pos 0 ≤ℤ d)
      × ((w.now_ms s.reads +ℤ d ≤ℤ u) ⊎ (d ≡ pos 0))
arm_timer_in_time w s u j on m wait =
    let (t, h) = next_wake_exists s u j m wait in
    let (nonneg, in_time) =
      delay_bounds (w.now_ms s.reads) t u (get_next_wake_ms-le s t u j h m wait) in
    (delay (w.now_ms s.reads) t, arm_timer-timer w s t on h, nonneg, in_time)
