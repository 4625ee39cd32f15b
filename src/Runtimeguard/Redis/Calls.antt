-- ===== src/Runtimeguard/Redis/Calls.antt =====
-- A call of the limiter over Redis, as a run of its script.
use synapse_go.Base.{
  ℕ, suc, ◌*◌, ◌<◌, ◌≡◌, refl, ◌≢◌, inr, true, false, Option, List, [], ◌∷◌, ◌++◌, map, arith, ℤ,
  pos, nat_eq, Text, text_eq, codes, is_empty, trim_space,
}
use synapse_go.Runtimeguard.Windows.{Windows, limiter_script}
use synapse_go.Runtimeguard.Redis.{
  integer, duration_millis, decide, RedisLimiter, limiter_key, redis_value_int, with_int,
  values_int, eval_int_slice, decision_of, allow_redis,
}
use mathlib.Core.List.{append_cancel_left}

abbrev pub ms : ℕ → ℕ
ms t = t * 1000000

millis-ms : (w : ℕ) → 0 < w → duration_millis (pos (ms w)) ≡ w
unfolding duration_millis
millis-ms w p = ground arith

values_back :
    (parse_int : Text → Option ℤ) (ns : List ℤ) → values_int parse_int (map integer ns) ≡ inr ns
unfolding values_int redis_value_int with_int
values_back parse_int [] = refl
values_back parse_int (n ∷ ns) = rw (values_back parse_int ns) refl

pub limiter_key_ne : (l : RedisLimiter) (k j : Text) → k ≢ j → limiter_key l k ≢ limiter_key l j
unfolding limiter_key
limiter_key_ne l k j n e = n (
    append_cancel_left (codes "limiter:") k j
      (append_cancel_left l.key_prefix (codes "limiter:" ++ k) (codes "limiter:" ++ j) e))

module _ (W : Windows) (parse_int : Text → Option ℤ) (l : RedisLimiter) where
  open W use {Store, cell, incr, pexpire}

  pub valid_allow :
      (w limit t : ℕ) (raw : Text) (s : Store)
      → l.has_store ≡ true
      → is_empty (trim_space raw) ≡ false
      → 0 < w
      → let r = limiter_script W (limiter_key l (trim_space raw)) w (pos (suc limit)) t s in
        allow_redis parse_int W false t raw (pos (suc limit)) (pos (ms w)) l s
        ≡ (decide r.0 (pos (suc limit)) (pos (ms w)), r.1)
  unfolding allow_redis decision_of eval_int_slice
  valid_allow w limit t raw s has ne p =
      let k = limiter_key l (trim_space raw) in
      let ns = (limiter_script W k w (pos (suc limit)) t s).0 in
      ground (arith, values_back parse_int ns, millis-ms w p)
