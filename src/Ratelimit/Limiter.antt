-- ===== src/Ratelimit/Limiter.antt =====
-- ratelimit/limiter.go and limits.go. Times are nanoseconds since the Unix epoch; whether a call of
-- Redis fails is an argument, and a failed call leaves the counters as they are.
use synapse_go.Base.{
  ℕ, zero, suc, ◌+◌, ◌-◌, ◌*◌, ◌/◌, Bool, true, false, not, Option, none, some, List, [], ◌∷◌, ◌++◌,
  ltb, if◌then◌else◌, ℤ, pos, negsuc, ◌-ℤ◌, ltb_ℤ, nat_eq, Text, text_eq, codes, Time, seconds,
  format_nat, format_int,
}
use synapse_go.Ratelimit.Scripts.{
  Counters, Entry, Reply, check_and_increment, concurrency_acquire, concurrency_release,
}

pub record RateLimits : Type 0 where
  pub rpm : ℤ
  pub tpm : ℤ
  pub concurrency : ℤ

pub record RequestIdentity : Type 0 where
  pub user_id : ℤ
  pub tenant_id : ℤ
  pub api_key_id : ℤ

pub record CheckResult : Type 0 where
  pub allowed : Bool
  pub deny_reason : Text
  pub concurrency_acquired : Bool
  pub remaining_requests : ℤ
  pub remaining_tokens : ℤ
  pub limit_requests : ℤ
  pub limit_tokens : ℤ
  pub reset_at : Time
  pub retry_after_seconds : ℕ
  pub minute_key : ℕ

abbrev pub key_ttl : ℕ
key_ttl = 120

unfoldable pub key_prefix : RequestIdentity → Text
key_prefix i =
    if ltb_ℤ (pos 0) i.api_key_id
    then codes "apikey:" ++ format_int i.api_key_id
    else if ltb_ℤ (pos 0) i.tenant_id
    then codes "tenant:" ++ format_int i.tenant_id
    else codes "user:" ++ format_int i.user_id

unfoldable pub minute_of : Time → ℕ
minute_of now = now / seconds 1 / 60

unfoldable pub rpm_key : RequestIdentity → ℕ → Text
rpm_key i minute = codes "rl:rpm:" ++ (key_prefix i ++ (codes ":" ++ format_nat minute))

unfoldable pub tpm_key : RequestIdentity → ℕ → Text
tpm_key i minute = codes "rl:tpm:" ++ (key_prefix i ++ (codes ":" ++ format_nat minute))

unfoldable pub conc_key : RequestIdentity → Text
conc_key i = codes "rl:conc:" ++ key_prefix i

unfoldable pub reset_time : ℕ → Time
reset_time minute = seconds ((minute + 1) * 60)

-- Whole seconds until the reset, at least one.
unfoldable pub retry_seconds : Time → ℕ → ℕ
unfolding reset_time
retry_seconds later minute =
    let n = (reset_time minute - later) / seconds 1 in if ltb n 1 then 1 else n

unfoldable pub nth_or_zero : ℕ → List ℤ → ℤ
nth_or_zero i [] = pos 0
nth_or_zero zero (x ∷ xs) = x
nth_or_zero (suc i) (x ∷ xs) = nth_or_zero i xs

-- Redis is out of reach: the request is let through.
unfoldable pub degraded : RateLimits → ℕ → CheckResult
degraded l minute = record {
  allowed = true;
  deny_reason = [];
  concurrency_acquired = false;
  remaining_requests = l.rpm;
  remaining_tokens = l.tpm;
  limit_requests = l.rpm;
  limit_tokens = l.tpm;
  reset_at = 0;
  retry_after_seconds = 0;
  minute_key = minute;
}

unfoldable pub reason_of : Option ℕ → Text
reason_of (some (suc zero)) = codes "tpm"
reason_of _ = codes "rpm"

unfoldable pub rate_denied : RateLimits → ℕ → Time → Option ℕ → CheckResult
unfolding reset_time retry_seconds reason_of
rate_denied l minute later index = record {
  allowed = false;
  deny_reason = reason_of index;
  concurrency_acquired = false;
  remaining_requests = pos 0;
  remaining_tokens = pos 0;
  limit_requests = l.rpm;
  limit_tokens = l.tpm;
  reset_at = reset_time minute;
  retry_after_seconds = retry_seconds later minute;
  minute_key = minute;
}

unfoldable pub concurrency_denied : RateLimits → ℕ → List ℤ → CheckResult
unfolding nth_or_zero
concurrency_denied l minute room = record {
  allowed = false;
  deny_reason = codes "concurrency";
  concurrency_acquired = false;
  remaining_requests = nth_or_zero 0 room;
  remaining_tokens = nth_or_zero 1 room;
  limit_requests = l.rpm;
  limit_tokens = l.tpm;
  reset_at = 0;
  retry_after_seconds = 1;
  minute_key = minute;
}

unfoldable pub let_through : RateLimits → ℕ → List ℤ → Bool → CheckResult
unfolding nth_or_zero reset_time
let_through l minute room acquired = record {
  allowed = true;
  deny_reason = [];
  concurrency_acquired = acquired;
  remaining_requests = nth_or_zero 0 room;
  remaining_tokens = nth_or_zero 1 room;
  limit_requests = l.rpm;
  limit_tokens = l.tpm;
  reset_at = reset_time minute;
  retry_after_seconds = 0;
  minute_key = minute;
}

-- Which calls of Redis fail.
pub record Faults : Type 0 where
  pub rate : Bool
  pub slot : Bool
  pub undo_requests : Bool  -- the two commands of the pipeline that rolls back
  pub undo_tokens : Bool

-- Which calls of the report after the response fail.
pub record ReportFaults : Type 0 where
  pub release : Bool
  pub correction : Bool

unfoldable pub negate : ℤ → ℤ
negate n = pos 0 -ℤ n

module _ (C : Counters) where
  open C use {Store, incr_by}

  unfoldable pub entries : RequestIdentity → RateLimits → ℕ → ℤ → List Entry
  entries i l minute estimated =
      record { key = rpm_key i minute; limit = l.rpm; increment = pos 1; ttl = key_ttl }
      ∷ record { key = tpm_key i minute; limit = l.tpm; increment = estimated; ttl = key_ttl }
      ∷ []

  unfoldable pub unless_failed : Bool → (Store → Store) → Store → Store
  unless_failed true f s = s
  unless_failed false f s = f s

  -- The pipeline of two `DECRBY`, whose error is not read: a counter whose command fails stays raised.
  unfoldable pub roll_back : Faults → RequestIdentity → ℕ → ℤ → Store → Store
  unfolding unless_failed
  roll_back f i minute estimated s =
      unless_failed f.undo_tokens (incr_by (tpm_key i minute) (negate estimated))
        (unless_failed f.undo_requests (incr_by (rpm_key i minute) (negate (pos 1))) s)

  unfoldable pub after_slot :
      Bool × Store → Faults → RequestIdentity → RateLimits → ℕ → ℤ → List ℤ → CheckResult × Store
  unfolding let_through concurrency_denied
  after_slot (true, s) f i l minute estimated room = (let_through l minute room true, s)
  after_slot (false, s) f i l minute estimated room =
      (concurrency_denied l minute room, roll_back f i minute estimated s)

  unfoldable pub after_rate :
      Reply × Store → Faults → Time → RequestIdentity → RateLimits → ℕ → ℤ → CheckResult × Store
  unfolding after_slot rate_denied let_through
  after_rate (r, s) f later i l minute estimated =
      if not r.allowed
      then (rate_denied l minute later r.deny_index, s)
      else if f.slot
      then (let_through l minute r.remaining false, s)
      else after_slot (concurrency_acquire C (conc_key i) l.concurrency key_ttl s) f i l minute
          estimated r.remaining

  -- `none` for a limiter that has no Redis client.
  unfoldable pub check_pre_request :
      Option Faults → Time → Time → RequestIdentity → RateLimits → ℤ → Store → CheckResult × Store
  unfolding degraded after_rate
  check_pre_request none now later i l estimated s = (degraded l 0, s)
  check_pre_request (some f) now later i l estimated s =
      let minute = minute_of now in
      if f.rate
      then (degraded l minute, s)
      else after_rate (check_and_increment C (entries i l minute estimated) s) f later i l minute
          estimated

  unfoldable pub correct_tokens : RequestIdentity → ℕ → ℤ → Store → Store
  correct_tokens i minute (pos zero) s = s
  correct_tokens i minute (pos (suc n)) s = incr_by (tpm_key i minute) (pos (suc n)) s
  correct_tokens i minute (negsuc n) s = incr_by (tpm_key i minute) (negsuc n) s

  unfoldable pub release_slot : RequestIdentity → Store → Store
  release_slot i s = concurrency_release C (conc_key i) s

  -- `none` for a limiter that has no Redis client, and else whether the call fails.
  unfoldable pub release_concurrency : Option Bool → RequestIdentity → Store → Store
  unfolding release_slot unless_failed
  release_concurrency none i s = s
  release_concurrency (some fault) i s = unless_failed fault (release_slot i) s

  -- `none` for a limiter that has no Redis client. The errors of the two calls are not read: a
  -- counter whose call fails stays as it is.
  unfoldable pub track_post_response :
      Option ReportFaults → RequestIdentity → ℤ → ℤ → ℕ → Bool → Store → Store
  unfolding correct_tokens unless_failed
  track_post_response none i estimated actual minute release s = s
  track_post_response (some f) i estimated actual minute release s =
      unless_failed f.correction (correct_tokens i minute (actual -ℤ estimated))
        (if release then unless_failed f.release (release_slot i) s else s)
