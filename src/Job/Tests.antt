-- ===== src/Job/Tests.antt =====
-- A lease, a policy with whole numbers for float64, and cron lines.
use native.Mathlib.Nat.{mul-suc, one-le-pow}
use synapse_go.Base.{
  ℕ, zero, suc, ◌*◌, ◌^◌, ◌≤◌, ◌≡◌, refl, inl, inr, true, false, List, [], ◌∷◌, ◌++◌, map, arith,
  ◌==◌, ltb, leb, leb→le, length, All, pos, negsuc, pos_part, ◌≤ℤ◌, nat_eq, Text, text_eq, codes,
  is_empty, is_space, trim_left, trim_right, trim, trim_space, has_prefix, trim_prefix, Duration,
  push_word, words, fields,
}
use synapse_go.Job.Lease.{Lease}
use synapse_go.Job.Backoff.{
  Floats, BackoffPolicy, or_base, not_below, unless, with_defaults, is_invalid, validate, raw_delay,
  capped, delay,
}
use synapse_go.Job.Delays.{Laws, delay_within}
use synapse_go.Job.Cron.{
  quartz_char, space, before_space, after_space, contains_rune, contains_any, join, prefix,
  schedule_after, schedule_part, check_schedule, normalize,
}
use synapse_go.Job.Joined.{IsWord}
use synapse_go.Job.Normalized.{normalize_stable}

abbrev sync_lease : Lease
sync_lease = record {
  job_name = codes "sync";
  owner = codes "ann";
  acquired_at = 5;
  expires_at = 15;
}

-- Numbers without a fraction, which are exact.
abbrev whole_numbers : Floats
whole_numbers = record {
  Float = ℕ;
  of_int = pos_part;
  mul = λ a b. a * b;
  pow = λ m k. m ^ k;
  geb = λ a b. leb b a;
  lt = λ a b. ltb a b;
  is_nought = λ a. a == 0;
  truncate = pos;
}

le-times : (n x : ℕ) → 1 ≤ x → n ≤ n * x
le-times n zero h = absurd (omega arith)
le-times n (suc x) h = omega (arith, mul-suc n x)

le→leb : (a b : ℕ) → a ≤ b → leb a b ≡ true
le→leb a b h = ground arith

whole_numbers-Laws : Laws whole_numbers
whole_numbers-Laws = record {
  pow_ge = λ m k h. le→leb 1 (m ^ k) (one-le-pow k m (leb→le 1 m h));
  mul_ge = λ n x least h. le→leb n (n * x) (le-times n x (leb→le 1 x h));
  truncate_between = λ b top x small wide g h. (omega (arith, leb→le b x g), ground arith);
  ge_same = λ n. ground arith;
}

abbrev doubling : BackoffPolicy ℕ
doubling = record { base = pos 10; maximum = pos 60; multiplier = 2 }

delay_within_example :
    (d : Duration) × (delay whole_numbers doubling (pos 3) ≡ inr d) × (pos 10 ≤ℤ d) × (d ≤ℤ pos 60)
unfolding with_defaults or_base validate
delay_within_example =
    delay_within whole_numbers whole_numbers-Laws doubling (pos 3) refl (omega arith) (omega arith)
      refl

delays :
    map (λ n. delay whole_numbers doubling n) (negsuc 4 ∷ pos 0 ∷ pos 1 ∷ pos 2 ∷ pos 3 ∷ [])
    ≡ map inr (pos 10 ∷ pos 10 ∷ pos 20 ∷ pos 40 ∷ pos 60 ∷ [])
unfolding delay with_defaults or_base validate is_invalid unless raw_delay capped not_below
delays = refl

abbrev midnight : Text
midnight = codes "CRON_TZ=UTC 0 0 * * *"

program : Unit {0}
unfolding normalize schedule_part schedule_after check_schedule contains_any contains_rune join
    before_space after_space has_prefix trim_prefix fields words push_word trim trim_left trim_right
    is_space
program = tt

normalize_stable_example :
    (normalize midnight ≡ inr midnight)
    × ((tz : Text) × (ws : List Text) × (midnight ≡ prefix ++ (tz ++ space ∷ join ws))
        × (is_empty (trim_space tz) ≡ false)
        × (contains_rune space tz ≡ false)
        × All IsWord ws
        × (length ws ≡ 5))
unfolding program
normalize_stable_example = normalize_stable (codes "  CRON_TZ=UTC  0 0   * * *") midnight refl

quartz : normalize (codes "CRON_TZ=UTC 0 0 * * ?") ≡ inl quartz_char
unfolding program
quartz = refl

-- A tab after the time zone hides the first of six fields in it.
tab_hides :
    normalize (codes "CRON_TZ=UTC" ++ 9 ∷ codes "0 0 0 * * *")
    ≡ inr (codes "CRON_TZ=UTC" ++ 9 ∷ codes "0 0 0 * * *")
unfolding program
tab_hides = refl
