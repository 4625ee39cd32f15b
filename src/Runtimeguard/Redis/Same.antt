-- ===== src/Runtimeguard/Redis/Same.antt =====
-- The limiter over Redis against the one of runtimeguard/limiter.go.
use synapse_go.Base.{
  ℕ, ◌≤◌, ◌≡◌, false, Option, none, List, [], ◌∷◌, ℤ, pos, nat_eq, lookup, Text, text_eq,
}
use synapse_go.Runtimeguard.Limiter.{Decision, MemoryLimiter, allow}
use synapse_go.Runtimeguard.Windows.{Windows}
use synapse_go.Runtimeguard.Redis.{Err, RedisLimiter, limiter_key, allow_redis}
use synapse_go.Runtimeguard.Redis.Calls.{ms}
use synapse_go.Runtimeguard.Redis.Agreement.{Agrees}

pub record Call : Type 0 where
  pub key : Text
  pub limit : ℤ
  pub at : ℕ

-- The calls are in the order of their times, after `start`.
unfoldable pub Ordered : ℕ → List Call → Type 0
Ordered start [] = Unit
Ordered start (c ∷ cs) = (start ≤ c.at) × Ordered c.at cs

module _ (W : Windows) (parse_int : Text → Option ℤ) (l : RedisLimiter) where
  open W use {Store, cell, incr, pexpire}

  -- Every key agrees.
  Matches : ℕ → ℕ → MemoryLimiter → Store → Type 0
  Matches w now m s = (k : Text) → Agrees w now (lookup k m.buckets) (cell (limiter_key l k) now s)

  abbrev redis_call : ℕ → Call → Store → (Decision × Option Err) × Store
  redis_call w c s = allow_redis parse_int W false c.at c.key c.limit (pos (ms w)) l s

  abbrev memory_call : ℕ → Call → MemoryLimiter → MemoryLimiter × Decision
  memory_call w c m = allow (ms c.at) c.key c.limit (pos (ms w)) m

  Alike : ℕ → Call → MemoryLimiter → Store → Type 0
  Alike w c m s =
      ((redis_call w c s).0 ≡ ((memory_call w c m).1, none))
      × Matches w c.at (memory_call w c m).0 (redis_call w c s).1

  unfoldable pub run_redis : ℕ → List Call → Store → List (Decision × Option Err)
  run_redis w [] s = []
  run_redis w (c ∷ cs) s = let (d, s') = redis_call w c s in d ∷ run_redis w cs s'

  unfoldable pub run_memory : ℕ → List Call → MemoryLimiter → List (Decision × Option Err)
  run_memory w [] m = []
  run_memory w (c ∷ cs) m = let (m', d) = memory_call w c m in (d, none) ∷ run_memory w cs m'
