-- ===== src/Heartbeat/Ticks.antt =====
-- What a tick executes and delivers (nanobot/heartbeat/service.py).
use eeebot_self_evolving.Prelude.{
  ℕ, Bool, true, false, some, List, [], ◌∷◌, ◌++◌, ◌≡◌, ◌⊎◌, inl, inr, refl, Bool-cases,
  Option-cases,
}
use eeebot_self_evolving.Prelude.Json.{Json}
use eeebot_self_evolving.Prelude.Effects.{Result, ok, raise, Error, Method, pure}
use eeebot_self_evolving.Runtime.Dict.{is_text}
use eeebot_self_evolving.Heartbeat.{
  Service, Beat, Decision, decide, execute, notify, deliver, run_tasks, checked, tick, decision_of,
  decide,
}

module _ (h : Service) where
  -- The provider decided to run `tasks`.
  abbrev pub Decided : Json → Type 0
  Decided tasks =
      (content : List ℕ) × (calls : List Json) × (d : Decision) × (h.heartbeat_file ≡ some content)
      × (h.chat content ≡ ok calls)
      × (decision_of calls ≡ ok d)
      × (is_text "run" d.action ≡ true)
      × (d.tasks ≡ tasks)

  -- The tasks returned `response`, which the evaluation wants to be delivered.
  abbrev pub Wanted : Json → List ℕ → Type 0
  Wanted tasks response = h.evaluate_response response tasks ≡ ok true

  -- At most one run of decided tasks, and at most one notification, which is about that run.
  pub data IsBeat (s s' : Beat) : Type 0 where
    quiet : s' ≡ s → IsBeat s s'
    silent :
        (tasks : Json)
        → Decided tasks
        → s' ≡ record s { executed = s.executed ++ tasks ∷ [] }
        → IsBeat s s'
    delivered :
        (tasks : Json) (response : List ℕ)
        → Decided tasks
        → Wanted tasks response
        → s'
          ≡ record s { executed = s.executed ++ tasks ∷ []; notified = s.notified ++ response ∷ [] }
        → IsBeat s s'

Result-cases : {A : Type 0} (r : Result A) → ((a : A) × (r ≡ ok a)) ⊎ ((e : Error) × (r ≡ raise e))
Result-cases (ok a) = inl (a, refl)
Result-cases (raise e) = inr (e, refl)

module _ (h : Service) where
  abbrev ran : Json → Beat → Beat
  ran tasks s = record s { executed = s.executed ++ tasks ∷ [] }

  notify-IsBeat :
      (tasks : Json) (response : List ℕ) (b : Bool) (s : Beat)
      → Decided h tasks
      → h.evaluate_response response tasks ≡ ok b
      → IsBeat h s (notify h b response (ran tasks s)).1
  unfolding notify
  notify-IsBeat tasks response false s d w = silent tasks d refl
  notify-IsBeat tasks response true s d w = elim (Option-cases h.on_notify) [
    | inl e ↦ rw (e, notify) (silent tasks d refl)
    | inr (f, e) ↦ rw (e, notify) (delivered tasks response d w refl)
  ]

  deliver-IsBeat :
      (tasks : Json) (response : List ℕ) (s : Beat)
      → Decided h tasks
      → IsBeat h s (deliver h tasks response (ran tasks s)).1
  unfolding deliver
  deliver-IsBeat tasks [] s d = silent tasks d refl
  deliver-IsBeat tasks (c ∷ cs) s d = elim (Result-cases (h.evaluate_response (c ∷ cs) tasks)) [
    | inl (b, e) ↦ rw e (notify-IsBeat tasks (c ∷ cs) b s d e)
    | inr (x, e) ↦ rw e (silent tasks d refl)
  ]

  run_tasks-IsBeat :
      (d : Decision) (s : Beat)
      → (is_text "run" d.action ≡ true → Decided h d.tasks)
      → IsBeat h s (run_tasks h d s).1
  unfolding run_tasks execute
  run_tasks-IsBeat d s decided = elim (Bool-cases (is_text "run" d.action)) [
    | inr e ↦ rw e (quiet refl)
    | inl e ↦ elim (Option-cases h.on_execute) [
      | inl f ↦ simp (e, f) (quiet refl)
      | inr (run, f) ↦ elim (Result-cases (run d.tasks)) [
        | inl (response, g) ↦ simp (e, f, g) (deliver-IsBeat d.tasks response s (decided e))
        | inr (x, g) ↦ simp (e, f, g) (silent d.tasks (decided e) refl)
      ]
    ]
  ]

  checked-IsBeat :
      (content : List ℕ) (s : Beat)
      → h.heartbeat_file ≡ some content
      → IsBeat h s (checked h content s).1
  unfolding checked decide
  checked-IsBeat content s file = elim (Result-cases (h.chat content)) [
    | inr (x, e) ↦ rw e (quiet refl)
    | inl (calls, e) ↦ elim (Result-cases (decision_of calls)) [
      | inr (x, f) ↦ simp (e, f) (quiet refl)
      | inl (d, f) ↦
          rw (e, f) (run_tasks-IsBeat d s (λ run. (content, calls, d, file, e, f, run, refl)))
    ]
  ]

-- A tick, whatever the provider, the evaluation and the callbacks return or raise, runs tasks at
-- most once and delivers at most one response: it runs only the tasks that the provider decided to
-- run on the text of HEARTBEAT.md, and delivers only after such a run and when the evaluation of
-- the response wants it.
pub tick-IsBeat : (h : Service) (s : Beat) → IsBeat h s (tick h s).1
unfolding tick
tick-IsBeat h s = elim (Option-cases h.heartbeat_file) [
  | inl e ↦ simp (e, tick) (quiet refl)
  | inr (content, e) ↦ simp (e, tick) (nonempty content e)
]
  where
    nonempty :
        (content : List ℕ)
        → h.heartbeat_file ≡ some content
        → IsBeat h s
            ((elim content as (λ _. Method Beat Unit) [
              | [] ↦ pure tt
              | c ∷ cs ↦ checked h (c ∷ cs)
            ])
              s).1
    nonempty [] e = quiet refl
    nonempty (c ∷ cs) e = checked-IsBeat h (c ∷ cs) s e
