-- ===== src/Job/Lease.antt =====
-- job/job.go: leases. The zone of a time is not modelled: `UTC` keeps the instant.
use synapse_go.Base.{
  ℕ, ◌+◌, ◌≡◌, ◌⊎◌, inl, inr, Bool, true, false, not, ◌&&◌, ◌||◌, Option, none, some, arith, ltb,
  if◌then◌else◌, pos, nonpos, nat_eq, list_beq, Text, text_eq, is_empty, is_space, trim_space,
  trim_idem, Time, Duration, is_zero, add_time, after,
}

pub data Err : Type 0 where
  invalid_lease : Err

pub record Lease : Type 0 where
  pub job_name : Text
  pub owner : Text
  pub acquired_at : Time
  pub expires_at : Time

unfoldable pub new_lease : Text → Text → Time → Duration → Err ⊎ Lease
new_lease job_name owner now ttl =
    if is_empty (trim_space job_name) || is_empty (trim_space owner) || nonpos ttl || is_zero now
    then inl invalid_lease
    else inr (record {
      job_name = trim_space job_name;
      owner = trim_space owner;
      acquired_at = now;
      expires_at = add_time now ttl;
    })

unfoldable pub expired : Lease → Time → Bool
expired l now = not (after l.expires_at now)

unfoldable pub held_by : Lease → Text → Time → Bool
held_by l owner now = list_beq (trim_space owner) l.owner && not (expired l now)

unfoldable pub can_acquire_existing : Option Lease → Text → Time → Bool
can_acquire_existing none owner now = true
can_acquire_existing (some l) owner now = held_by l owner now || expired l now

unfoldable pub can_acquire : Option Lease → Text → Time → Bool
can_acquire existing raw now =
    let owner = trim_space raw in
    if is_empty owner then false else can_acquire_existing existing owner now

-- While a lease that has been made lasts, a caller may take the job exactly if its name is the
-- owner's, spaces at the ends aside; from the end of its time to live, any caller that has a name
-- may. The caller's name is not blank.
lease_exact :
    (job_name owner caller : Text) (now t : Time) (ttl : ℕ) (l : Lease)
    → new_lease job_name owner now (pos ttl) ≡ inr l
    → is_empty (trim_space caller) ≡ false
    → can_acquire (some l) caller t
      ≡ (if ltb t (now + ttl) then list_beq (trim_space caller) (trim_space owner) else true)
unfolding new_lease can_acquire can_acquire_existing held_by expired
lease_exact job_name owner caller now t ttl l made named = ground (arith, trim_idem is_space caller)
