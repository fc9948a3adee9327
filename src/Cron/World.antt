-- ===== src/Cron/World.antt =====
-- What the cron service calls outside this repository.
use eeebot_self_evolving.Prelude.{ℕ, Bool, Option, String}
use eeebot_self_evolving.Prelude.Int.{ℤ}

-- The clock, uuid4, zoneinfo, croniter and the file system's modification times. Each call of the
-- clock, of uuid4 and each write of the store file has its own number.
pub record World : Type 0 where
  pub now_ms : ℕ → ℤ
  pub new_id : ℕ → String
  pub zone_known : String → Bool
  -- `croniter(expr, base).get_next()`, with an optional zone name; `none` if anything raises.
  pub cron_next : String → Option String → ℤ → Option ℤ
  pub mtime : ℕ → ℕ
