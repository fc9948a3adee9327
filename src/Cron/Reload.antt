-- ===== src/Cron/Reload.antt =====
-- A run of a job while the file has been changed by another process.
use eeebot_self_evolving.Prelude.{
  ℕ, suc, ◌<◌, ◌≤◌, ◌≡◌, ◌≢◌, refl, ap, ◌∙◌, Bool, false, Option, none, some, String, List, [], ◌∷◌,
  map, arith, or_else, All, All-imp,
}
use eeebot_self_evolving.Prelude.Int.{ℤ}
use eeebot_self_evolving.Prelude.Effects.{Result, ok, pure, ◌>>=◌, and_then}
use eeebot_self_evolving.Cron.Types.{CronJob, ScheduleKind}
use eeebot_self_evolving.Cron.World.{World}
use eeebot_self_evolving.Cron.Store.{
  Service, Cron, StoreFile, jobs_of, read_jobs, cached, load_store,
}
use eeebot_self_evolving.Cron.Timer.{
  reschedule, reschedule_kind, finish_job, await_job, execute_job, record_run,
}
use eeebot_self_evolving.Cron.Jobs.{list_jobs, list_loaded}
use eeebot_self_evolving.Cron.RoundTrip.{
  allocate-fresh, allocate-heap_old, jobs_of-load_store, load_store_inv,
}
use eeebot_self_evolving.Cron.Runs.{recorded}

-- The file was changed by another process since the last save.
pub record IsStale (s : Service) (f : StoreFile) : Type 0 where
  pub exists : s.file ≡ some f
  pub changed : f.mtime ≢ s.last_mtime

cached_stale : (s : Service) (f : StoreFile) → IsStale s f → cached s ≡ none
unfolding cached
cached_stale s f h = ground (arith, h.exists, h.changed)

module _ (w : World) (r : ℕ) where
  heap-reschedule_kind :
      (kind : ScheduleKind) (s : Service) (q : ℕ)
      → (s.heap r).delete_after_run ≡ false
      → q ≢ r
      → (reschedule_kind w kind r s).1.heap q ≡ s.heap q
  unfolding reschedule_kind
  heap-reschedule_kind kind s q h k = ground arith

  store-reschedule_kind :
      (kind : ScheduleKind) (s : Service)
      → (s.heap r).delete_after_run ≡ false
      → (reschedule_kind w kind r s).1.store ≡ s.store
  unfolding reschedule_kind
  store-reschedule_kind kind s h = ground arith

  delete-recorded :
      (start : ℤ) (error : Option String) (s : Service)
      → ((recorded w r start error s).heap r).delete_after_run ≡ (s.heap r).delete_after_run
  unfolding record_run
  delete-recorded start error s = ground arith

  heap-finish_job :
      (start : ℤ) (error : Option String) (s : Service) (q : ℕ)
      → (s.heap r).delete_after_run ≡ false
      → q ≢ r
      → (finish_job w r start error s).1.heap q ≡ s.heap q
  unfolding finish_job reschedule
  heap-finish_job start error s q h k =
      let t = recorded w r start error s in
      heap-reschedule_kind (t.heap r).schedule.kind t q (delete-recorded start error s ∙ h) k
      ∙ ground arith

  store-finish_job :
      (start : ℤ) (error : Option String) (s : Service)
      → (s.heap r).delete_after_run ≡ false
      → (finish_job w r start error s).1.store ≡ s.store
  unfolding finish_job reschedule
  store-finish_job start error s h =
      let t = recorded w r start error s in
      store-reschedule_kind (t.heap r).schedule.kind t (delete-recorded start error s ∙ h)

map-agree :
    (f g : ℕ → CronJob) (r : ℕ) (refs : List ℕ)
    → ((q : ℕ) → q ≢ r → f q ≡ g q)
    → All (λ q. q ≢ r) refs
    → map f refs ≡ map g refs
map-agree f g r [] same h = refl
map-agree f g r (q ∷ qs) same h = cc (same q h.0, map-agree f g r qs same h.1)

-- The callback of a job whose agent lists the jobs and does nothing else.
abbrev pub lists_jobs : Bool → Option (ℕ → Cron Unit)
lists_jobs all = some (λ r. list_jobs all >>= λ _. pure tt)

await_lists :
    (all : Bool) (r : ℕ) (s : Service)
    → await_job (lists_jobs all) r s ≡ (ok none, (load_store s).1)
unfolding await_job list_jobs list_loaded
await_lists all r s = let (refs, loaded, stored) = load_store_inv s in rw (loaded, and_then) refl

-- The references of a reload are new.
reload-fresh :
    (s : Service) → cached s ≡ none → All (λ q. s.next_ref ≤ q) (or_else (load_store s).1.store [])
unfolding load_store
reload-fresh s h = rw (h, load_store) (allocate-fresh (read_jobs s.file) s)

reload-heap_old :
    (s : Service) (q : ℕ) → cached s ≡ none → q < s.next_ref → (load_store s).1.heap q ≡ s.heap q
unfolding load_store
reload-heap_old s q h k = rw (h, load_store) (allocate-heap_old (read_jobs s.file) s q k)

module _ (w : World) (all : Bool) (r : ℕ) (s : Service) where
  abbrev clocked : Service
  clocked = record s { reads = suc s.reads }

  abbrev reloaded : Service
  reloaded = (load_store clocked).1

  lists_run : execute_job w (lists_jobs all) r s ≡ finish_job w r (w.now_ms s.reads) none reloaded
  unfolding execute_job
  lists_run =
      ap
        (λ (p : Result (Option String) × Service).
          and_then p.0 (finish_job w r (w.now_ms s.reads)) p.1)
        (await_lists all r clocked)

-- The run of a job that is kept is lost if its callback lists the jobs while the file has a
-- modification time that was not saved: the job's object is no longer in the store, which holds
-- what the file says, so the next run, the status and the history of the job are those of the file.
pub execute_job_lost :
    (w : World) (all : Bool) (r : ℕ) (s : Service) (f : StoreFile)
    → IsStale s f
    → r < s.next_ref
    → (s.heap r).delete_after_run ≡ false
    → jobs_of (execute_job w (lists_jobs all) r s).1 ≡ read_jobs s.file
execute_job_lost w all r s f stale old stays =
    let t = reloaded w all r s in
    let none_cached =
      cached_stale (clocked w all r s) f
        (record { exists = stale.exists; changed = stale.changed }) in
    let kept =
      ap (λ (j : CronJob). j.delete_after_run)
        (reload-heap_old (clocked w all r s) r none_cached old)
      ∙ stays in
    let u = (finish_job w r (w.now_ms s.reads) none t).1 in
    let away =
      All-imp (λ q. s.next_ref ≤ q) (λ q. q ≢ r) _ (λ q h. omega arith)
        (reload-fresh (clocked w all r s) none_cached) in
    ap (λ (p : Result Unit × Service). jobs_of p.1) (lists_run w all r s)
    ∙ ap (λ o. map u.heap (or_else o [])) (store-finish_job w r (w.now_ms s.reads) none t kept)
    ∙ map-agree u.heap t.heap r (or_else t.store [])
        (λ q ne. heap-finish_job w r (w.now_ms s.reads) none t q kept ne) away
    ∙ jobs_of-load_store (clocked w all r s) none_cached
