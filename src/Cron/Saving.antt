-- ===== src/Cron/Saving.antt =====
-- `_save_store` and `_arm_timer` at the end of a method.
use eeebot_self_evolving.Prelude.{
  ℕ, ◌≡◌, refl, sym, ap, ◌∙◌, Bool, some, List, [], ◌∷◌, map, arith, or_else, keep,
}
use eeebot_self_evolving.Prelude.Effects.{ok, pure, ◌>>=◌}
use eeebot_self_evolving.Cron.World.{World}
use eeebot_self_evolving.Cron.Store.{Service, jobs_of, read_jobs, save_store}
use eeebot_self_evolving.Cron.Timer.{arm_timer}
use eeebot_self_evolving.Cron.Jobs.{saved}
use eeebot_self_evolving.Cron.RoundTrip.{read_jobs-save_store}

-- The file holds the jobs in memory.
abbrev pub IsPersisted : Service → Type 0
IsPersisted s = read_jobs s.file ≡ jobs_of s

pub map-keep {ℓ κ} :
    {A : Type ℓ} {B : Type κ} (f : A → B) (p : B → Bool) (xs : List A)
    → map f (keep (λ x. p (f x)) xs) ≡ keep p (map f xs)
map-keep f p [] = refl
map-keep f p (x ∷ xs) = ground (arith, map-keep f p xs)

module _ (w : World) where
  pub result-saved : (s : Service) → (saved w s).0 ≡ ok tt
  unfolding save_store arm_timer
  result-saved s = ground arith

  pub store-saved : (s : Service) → (saved w s).1.store ≡ s.store
  unfolding save_store arm_timer
  store-saved s = ground arith

  pub heap-saved : (s : Service) → (saved w s).1.heap ≡ s.heap
  unfolding save_store arm_timer
  heap-saved s = ground arith

  file-saved : (s : Service) → (saved w s).1.file ≡ (save_store w s).1.file
  unfolding save_store arm_timer
  file-saved s = ground arith

  pub jobs_of-saved : (s : Service) → jobs_of (saved w s).1 ≡ jobs_of s
  jobs_of-saved s = λ i. map (heap-saved s i) (or_else (store-saved s i) [])

  pub saved-IsPersisted :
      (s : Service) (refs : List ℕ) → s.store ≡ some refs → IsPersisted (saved w s).1
  saved-IsPersisted s refs e =
      ap read_jobs (file-saved s)
      ∙ read_jobs-save_store w s refs e
      ∙ ap (λ o. map s.heap (or_else o [])) (sym e)
      ∙ sym (jobs_of-saved s)

  pub then_pure :
      {A : Type 0} (a : A) (s : Service) → (saved w >>= λ _. pure a) s ≡ (ok a, (saved w s).1)
  then_pure a s = rw (result-saved s)
