-- ===== src/Ratelimit/Rollback.antt =====
-- What a check leaves in the counters, and what the report after the response makes of it.
use synapse_go.Base.{
  ℕ, ◌≡◌, refl, ◌≢◌, ◌⊎◌, arith, if◌then◌else◌, ℤ, pos, ◌+ℤ◌, nat_eq, ne_of_beq, list_beq,
  list_beq_iff, Text, text_eq, codes,
}
use synapse_go.Ratelimit.Scripts.{Counters, count, bump, bump_all}
use synapse_go.Ratelimit.Limiter.{
  RateLimits, RequestIdentity, CheckResult, key_ttl, rpm_key, tpm_key, conc_key, Faults, entries,
}
use synapse_go.Ratelimit.Atomic.{Distinct, count-incr_by, count-expire}

-- The three counters of a request have different keys.
pub rpm-ne-tpm : (i : RequestIdentity) (m : ℕ) → rpm_key i m ≢ tpm_key i m
unfolding rpm_key tpm_key list_beq
rpm-ne-tpm i m = ne_of_beq {A = Text} (rpm_key i m) (tpm_key i m) refl

pub rpm-ne-conc : (i : RequestIdentity) (m : ℕ) → rpm_key i m ≢ conc_key i
unfolding rpm_key conc_key list_beq
rpm-ne-conc i m = ne_of_beq {A = Text} (rpm_key i m) (conc_key i) refl

pub tpm-ne-conc : (i : RequestIdentity) (m : ℕ) → tpm_key i m ≢ conc_key i
unfolding tpm_key conc_key list_beq
tpm-ne-conc i m = ne_of_beq {A = Text} (tpm_key i m) (conc_key i) refl

module _ (C : Counters) where
  open C use {Store, get, incr_by, expire}

  pub entries-Distinct :
      (i : RequestIdentity) (l : RateLimits) (m : ℕ) (n : ℤ) → Distinct (entries C i l m n)
  unfolding entries
  entries-Distinct i l m n = ((rpm-ne-tpm i m, tt), (tt, tt))

  -- The effect of an allowed script on every key.
  unfoldable pub bumped_count : Text → Text → ℤ → Text → Store → ℤ
  bumped_count r t n k s =
      if list_beq r k
      then count C k s +ℤ pos 1
      else if list_beq t k
      then count C k s +ℤ n
      else count C k s

  pub count-bump_all :
      (i : RequestIdentity) (l : RateLimits) (m : ℕ) (n : ℤ) (k : Text) (s : Store)
      → count C k (bump_all C (entries C i l m n) s)
        ≡ bumped_count (rpm_key i m) (tpm_key i m) n k s
  unfolding bump_all bump entries bumped_count
  count-bump_all i l m n k s =
      let r = rpm_key i m in
      let t = tpm_key i m in
      let s1 = expire r key_ttl (incr_by r (pos 1) s) in
      ground (
        arith,
        count-expire C t k key_ttl (incr_by t n s1),
        count-incr_by C t k n s1,
        count-expire C r k key_ttl (incr_by r (pos 1) s),
        count-incr_by C r k (pos 1) s,
        count-expire C r t key_ttl (incr_by r (pos 1) s),
        count-incr_by C r t (pos 1) s,
        list_beq_iff r k,
        list_beq_iff t k,
        list_beq_iff r t,
        rpm-ne-tpm i m,
      )

  -- What stays on a counter where commands of the roll-back fail.
  unfoldable pub left_raised : Faults → RequestIdentity → ℕ → ℤ → Text → ℤ
  left_raised f i m n k =
      if list_beq (rpm_key i m) k
      then (if f.undo_requests then pos 1 else pos 0)
      else if list_beq (tpm_key i m) k
      then (if f.undo_tokens then n else pos 0)
      else pos 0

  -- The two ways of a refusal: over a limit of the minute, with the counters as they were, or without
  -- a slot, after a roll-back.
  unfoldable pub Refused :
      Faults → RequestIdentity → ℕ → ℤ → Text → CheckResult × Store → Store → Type 0
  Refused f i m n k o s =
      (count C k o.1 ≡ count C k s)
      ⊎ ((o.0.deny_reason ≡ codes "concurrency")
          × (count C k o.1 ≡ count C k s +ℤ left_raised f i m n k))
