-- ===== src/Job/Backoff.antt =====
-- job/job.go: BackoffPolicy, and utils/backoff.go: Calculator, over an interface of float64 and
-- package math.
use synapse_go.Base.{
  ℕ, ◌*◌, ◌⊎◌, inl, inr, Bool, ◌||◌, Option, none, some, if◌then◌else◌, ℤ, pos, pos_part, ◌-ℤ◌,
  ltb_ℤ, leb_ℤ, nonpos, eq_ℤ, nat_eq, text_eq, Time, Duration, is_zero, add_time, seconds,
}

-- `of_int` and `truncate` are the conversions from and to an integer, the second of which depends on
-- the machine outside the range of int64, where nothing is assumed of it; `pow m n` is math.Pow with a
-- whole exponent, `geb` and `lt` are `>=` and `<`, `is_nought` compares with 0.
pub record Floats : Type 1 where
  pub Float : Type 0
  pub of_int : ℤ → Float
  pub mul : Float → Float → Float
  pub pow : Float → ℕ → Float
  pub geb : Float → Float → Bool
  pub lt : Float → Float → Bool
  pub is_nought : Float → Bool
  pub truncate : Float → ℤ

pub data Err : Type 0 where
  invalid_backoff_policy negative_retry_count : Err

pub record BackoffPolicy (Float : Type 0) : Type 0 where
  pub base : Duration
  pub maximum : Duration
  pub multiplier : Float

pub record Calculator (Float : Type 0) : Type 0 where
  pub policy : BackoffPolicy Float
  pub max_retry : ℤ

unfoldable pub or_base : Duration → Duration → Duration
or_base d default = if eq_ℤ d (pos 0) then default else d

unfoldable pub not_below : ℤ → ℤ → ℤ
not_below low n = if ltb_ℤ n low then low else n

unfoldable pub unless : Option Err → Duration → Err ⊎ Duration
unless (some e) d = inl e
unless none d = inr d

module _ (F : Floats) where
  open F use {Float, of_int, mul, pow, geb, lt, is_nought, truncate}

  unfoldable pub default_backoff_policy : BackoffPolicy Float
  default_backoff_policy = record {
    base = pos (seconds 1);
    maximum = pos (seconds 300);
    multiplier = of_int (pos 2);
  }

  unfoldable pub with_defaults : BackoffPolicy Float → BackoffPolicy Float
  unfolding default_backoff_policy or_base
  with_defaults p = record {
    base = or_base p.base default_backoff_policy.base;
    maximum = or_base p.maximum default_backoff_policy.maximum;
    multiplier = if is_nought p.multiplier then default_backoff_policy.multiplier else p.multiplier;
  }

  unfoldable pub is_invalid : BackoffPolicy Float → Bool
  is_invalid p =
      nonpos p.base
      || nonpos p.maximum
      || lt p.multiplier (of_int (pos 1))
      || ltb_ℤ p.maximum p.base

  unfoldable pub validate : BackoffPolicy Float → Option Err
  unfolding is_invalid with_defaults
  validate p = if is_invalid (with_defaults p) then some invalid_backoff_policy else none

  unfoldable pub raw_delay : BackoffPolicy Float → ℤ → Float
  raw_delay p attempt =
      if ltb_ℤ (pos 0) attempt
      then mul (of_int p.base) (pow p.multiplier (pos_part attempt))
      else of_int p.base

  unfoldable pub capped : BackoffPolicy Float → Float → Duration
  capped p d = if geb d (of_int p.maximum) then p.maximum else truncate d

  unfoldable pub delay : BackoffPolicy Float → ℤ → Err ⊎ Duration
  unfolding validate with_defaults capped raw_delay not_below unless
  delay given attempt =
      let p = with_defaults given in
      unless (validate p) (capped p (raw_delay p (not_below (pos 0) attempt)))

  unfoldable pub plus_delay : Time → Err ⊎ Duration → Err ⊎ Time
  plus_delay now (inl e) = inl e
  plus_delay now (inr d) = inr (add_time now d)

  unfoldable pub next_run_after : BackoffPolicy Float → Time → ℤ → Err ⊎ Time
  unfolding plus_delay delay
  next_run_after p now attempt = plus_delay now (delay p attempt)

  unfoldable pub default_calculator : Calculator Float
  default_calculator = record {
    policy = record {
      base = pos (seconds 600);
      maximum = pos (seconds (100 * 365 * 24 * 3600));
      multiplier = of_int (pos 2);
    };
    max_retry = pos 5;
  }

  unfoldable pub checked_calculator : Option Err → BackoffPolicy Float → ℤ → Err ⊎ Calculator Float
  checked_calculator (some e) p max_retry = inl e
  checked_calculator none p max_retry = inr (record { policy = p; max_retry = max_retry })

  unfoldable pub new_calculator : Duration → Float → Duration → ℤ → Err ⊎ Calculator Float
  unfolding checked_calculator validate
  new_calculator initial multiplier max_cap max_retry =
      let p : BackoffPolicy Float = record {
        base = initial;
        maximum = max_cap;
        multiplier = multiplier;
      } in
      if ltb_ℤ max_retry (pos 0)
      then inl negative_retry_count
      else checked_calculator (validate p) p max_retry

  unfoldable pub calculate_backoff : Calculator Float → ℤ → Err ⊎ Duration
  unfolding delay not_below
  calculate_backoff c retry_count =
      if ltb_ℤ retry_count (pos 0)
      then inl negative_retry_count
      else delay c.policy (not_below (pos 0) (retry_count -ℤ pos 1))

  -- `now` is read only where the last time is the zero time.
  unfoldable pub calculate_next_retry_time : Calculator Float → Time → Time → ℤ → Err ⊎ Time
  unfolding calculate_backoff plus_delay
  calculate_next_retry_time c now last retry_count =
      plus_delay (if is_zero last then now else last) (calculate_backoff c retry_count)

  unfoldable pub should_retry : Calculator Float → ℤ → Bool
  should_retry c n = ltb_ℤ (not_below (pos 0) n) c.max_retry

  unfoldable pub is_permanent_failure : Calculator Float → ℤ → Bool
  is_permanent_failure c n = leb_ℤ c.max_retry (not_below (pos 0) n)
