-- ===== src/Cron/RoundTrip.antt =====
-- The store file, as `_save_store` writes and `_load_store` reads it.
use eeebot_self_evolving.Prelude.{
  ℕ, suc, ◌≤◌, ◌<◌, ◌≡◌, refl, sym, ap, ◌∙◌, Option, none, some, List, [], ◌∷◌, map, arith, or_else,
  All, All-imp, Option-cases, inl, inr,
}
use eeebot_self_evolving.Prelude.Effects.{ok}
use eeebot_self_evolving.Cron.Types.{CronRunRecord, CronJob}
use eeebot_self_evolving.Cron.World.{World}
use eeebot_self_evolving.Cron.Doc.{each, encode_run, decode_run, decode_job, encode_job}
use eeebot_self_evolving.Cron.Store.{
  Service, jobs_of, with_object, allocate, read_jobs, cached, load_store, save_store,
}

each-map {ℓ κ} :
    {A : Type ℓ} {B : Type κ} (f : B → Option A) (g : A → B)
    → ((a : A) → f (g a) ≡ some a)
    → (xs : List A) → each f (map g xs) ≡ some xs
each-map f g h [] = refl
each-map f g h (x ∷ xs) = rw (h x, each-map f g h xs)

decode_run-encode_run : (r : CronRunRecord) → decode_run (encode_run r) ≡ some r
unfolding decode_run encode_run
decode_run-encode_run r = refl

-- Decoding the document of a job gives the job.
pub decode_job-encode_job : (j : CronJob) → decode_job (encode_job j) ≡ some j
unfolding decode_job encode_job
decode_job-encode_job j =
    rw (each-map decode_run encode_run decode_run-encode_run j.state.run_history)

-- Allocation gives fresh references, keeps the older objects, and stores the jobs.
pub allocate-heap_old :
    (js : List CronJob) (s : Service) (q : ℕ) → q < s.next_ref → (allocate js s).1.heap q ≡ s.heap q
unfolding allocate
allocate-heap_old [] s q h = refl
allocate-heap_old (j ∷ js) s q h = ground (arith, allocate-heap_old js (with_object j s) q)

pub allocate-fresh : (js : List CronJob) (s : Service) → All (λ r. s.next_ref ≤ r) (allocate js s).0
unfolding allocate
allocate-fresh [] s = tt
allocate-fresh (j ∷ js) s = (
  omega arith,
  All-imp (λ r. suc s.next_ref ≤ r) (λ r. s.next_ref ≤ r) _ (λ r h. omega arith)
      (allocate-fresh js (with_object j s)),
)

allocate-heap_new :
    (j : CronJob) (js : List CronJob) (s : Service)
    → (allocate js (with_object j s)).1.heap s.next_ref ≡ j
allocate-heap_new j js s = ground (arith, allocate-heap_old js (with_object j s) s.next_ref)

pub map-allocate :
    (js : List CronJob) (s : Service) → map (allocate js s).1.heap (allocate js s).0 ≡ js
unfolding allocate
map-allocate [] s = refl
map-allocate (j ∷ js) s = cc (allocate-heap_new j js s, map-allocate js (with_object j s))

-- A new process on the same store file.
abbrev pub restarted : Service → Service
restarted s = record s { store = none }

pub jobs_of-load_store :
    (s : Service) → cached s ≡ none → jobs_of (load_store s).1 ≡ read_jobs s.file
unfolding load_store
jobs_of-load_store s h = rw (h, load_store) (map-allocate (read_jobs s.file) s)

pub read_jobs-save_store :
    (w : World) (s : Service) (refs : List ℕ)
    → s.store ≡ some refs
    → read_jobs (save_store w s).1.file ≡ map s.heap refs
unfolding save_store read_jobs
read_jobs-save_store w s refs h =
    rw (h, save_store)
      (rw (each-map decode_job encode_job decode_job-encode_job (map s.heap refs)) refl)

-- After a save, a new process loads exactly the jobs that were saved, in their order.
pub load_store-save_store :
    (w : World) (s : Service) {refs : List ℕ}
    → s.store ≡ some refs
    → jobs_of (load_store (restarted (save_store w s).1)).1 ≡ jobs_of s
unfolding cached
load_store-save_store w s {refs} h =
    jobs_of-load_store (restarted (save_store w s).1) refl
    ∙ read_jobs-save_store w s refs h
    ∙ sym (ap (λ o. map s.heap (or_else o [])) h)

-- What `_load_store` returns is what the store then holds.
pub load_store_inv :
    (s : Service)
    → (refs : List ℕ) × (load_store s ≡ (ok refs, (load_store s).1))
      × ((load_store s).1.store ≡ some refs)
unfolding load_store
load_store_inv s = elim (Option-cases (cached s)) [
  | inl e ↦ rw (e, load_store) ((allocate (read_jobs s.file) s).0, refl, refl)
  | inr (refs, e) ↦ rw (e, load_store) (refs, refl, refl)
]
