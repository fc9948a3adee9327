-- ===== src/Cron/Store.antt =====
-- The state of `CronService` and its store file: `_load_store` and `_save_store`.
-- Python's job objects are shared: the store lists references, and `heap` holds what they refer to.
use eeebot_self_evolving.Prelude.{
  ℕ, suc, Bool, Option, none, some, List, [], ◌∷◌, map, ◌==◌, if◌then◌else◌, or_else,
}
use eeebot_self_evolving.Prelude.Int.{ℤ}
use eeebot_self_evolving.Prelude.Effects.{Method, ok}
use eeebot_self_evolving.Cron.Types.{CronJob}
use eeebot_self_evolving.Cron.World.{World}
use eeebot_self_evolving.Cron.Doc.{JobDoc, each, decode_job, encode_job}

-- `unreadable`: reading or parsing the file raises. `jobs` is the list under the key "jobs",
-- empty if the key is missing.
pub data Content : Type 0 where
  unreadable : Content
  jobs : List JobDoc → Content

pub record StoreFile : Type 0 where
  pub content : Content
  pub mtime : ℕ

pub record Service : Type 0 where
  -- `_store`: the references to its jobs
  pub store : Option (List ℕ)
  pub heap : ℕ → CronJob
  pub next_ref : ℕ
  -- what stands at `store_path`
  pub file : Option StoreFile
  pub last_mtime : ℕ
  pub running : Bool
  -- the delay of the live timer task, in milliseconds
  pub timer : Option ℤ
  -- the numbers of the next clock call, the next uuid4 call and the next write
  pub reads : ℕ
  pub ids : ℕ
  pub writes : ℕ

abbrev pub Cron : Type 0 → Type 0
Cron = Method Service

-- `heap[r]` after an assignment through the reference `r`.
abbrev pub update : (ℕ → CronJob) → ℕ → CronJob → ℕ → CronJob
update heap r job q = if q == r then job else heap q

abbrev pub jobs_of : Service → List CronJob
jobs_of s = map s.heap (or_else s.store [])

unfoldable pub read_jobs : Option StoreFile → List CronJob
read_jobs none = []
read_jobs (some f) = elim f.content [
  | unreadable ↦ []
  | jobs docs ↦ or_else (each decode_job docs) []
]

-- One new object.
abbrev pub with_object : CronJob → Service → Service
with_object job s = record s { heap = update s.heap s.next_ref job; next_ref = suc s.next_ref }

-- New objects for a list of jobs.
unfoldable pub allocate : List CronJob → Service → List ℕ × Service
allocate [] s = ([], s)
allocate (job ∷ rest) s =
    let (refs, s') = allocate rest (with_object job s) in (s.next_ref ∷ refs, s')

-- The store in memory, unless the file has another modification time.
unfoldable pub cached : Service → Option (List ℕ)
cached s = elim s.store [
  | none ↦ none
  | some refs ↦ elim s.file [
    | none ↦ some refs
    | some f ↦ if f.mtime == s.last_mtime then some refs else none
  ]
]

reload : Option (List ℕ) → Cron (List ℕ)
reload (some refs) s = (ok refs, record s { store = some refs })
reload none s =
    let (refs, s') = allocate (read_jobs s.file) s in (ok refs, record s' { store = some refs })

unfoldable pub load_store : Cron (List ℕ)
unfolding reload
load_store s = reload (cached s) s

module _ (w : World) where
  write_store : Option (List ℕ) → Cron Unit
  write_store none s = (ok tt, s)
  write_store (some refs) s = (
    ok tt,
    record s {
      file =
          some (record {
            content = jobs (map encode_job (map s.heap refs));
            mtime = w.mtime s.writes;
          });
      last_mtime = w.mtime s.writes;
      writes = suc s.writes;
    },
  )

  unfoldable pub save_store : Cron Unit
  unfolding write_store
  save_store s = write_store s.store s

  -- `_now_ms()`
  unfoldable pub now_ms : Cron ℤ
  now_ms s = (ok (w.now_ms s.reads), record s { reads = suc s.reads })
