-- ===== src/Ratelimit/Tests.antt =====
-- One user with a limit of two requests and a hundred tokens a minute, and one slot.
use synapse_go.Base.{
  ◌≡◌, refl, true, false, some, List, [], ◌∷◌, arith, ℤ, pos, ◌+ℤ◌, ◌-ℤ◌, ◌≤ℤ◌, nat_eq, list_beq,
  lookup, insert, lookup-insert, Text, text_eq, codes, Time, format_nat, format_int,
}
use synapse_go.Ratelimit.Scripts.{
  or_zero, Counters, Entry, count, over, first_over, room_before, bump, bump_all, room_after,
  decide_from, check_and_increment, concurrency_acquire, concurrency_release,
}
use synapse_go.Ratelimit.Limiter.{
  RateLimits, RequestIdentity, key_prefix, minute_of, rpm_key, tpm_key, conc_key, rate_denied,
  concurrency_denied, let_through, Faults, ReportFaults, negate, entries, unless_failed, roll_back,
  after_slot, after_rate, check_pre_request, correct_tokens, release_slot, track_post_response,
}
use synapse_go.Ratelimit.Rollback.{left_raised}
use synapse_go.Ratelimit.Settle.{no_faults, settled_count, allowed_within, settle_exact}

-- Counters in memory, which nothing expires.
abbrev memory : Counters
memory = record {
  Store = List (Text × ℤ);
  get = lookup;
  incr_by = λ k n s. insert k (or_zero (lookup k s) +ℤ n) s;
  expire = λ k ttl s. s;
  get-incr_by = λ k j n s. lookup-insert k j (or_zero (lookup k s) +ℤ n) s;
  get-expire = λ k j ttl s. refl;
}

program : Unit {0}
unfolding check_pre_request after_rate check_and_increment decide_from first_over over room_after
    room_before bump_all bump after_slot concurrency_acquire concurrency_release roll_back entries
    rpm_key tpm_key conc_key key_prefix minute_of format_nat format_int count or_zero lookup insert
    list_beq rate_denied let_through concurrency_denied ◌+ℤ◌ ◌-ℤ◌ track_post_response correct_tokens
    release_slot negate settled_count left_raised unless_failed
program = tt

abbrev who : RequestIdentity
who = record { user_id = pos 42; tenant_id = pos 0; api_key_id = pos 0 }

abbrev limits : RateLimits
limits = record { rpm = pos 2; tpm = pos 100; concurrency = pos 1 }

abbrev at : Time
at = 125000000000

keys : rpm_key who (minute_of at) ≡ codes "rl:rpm:user:42:2"
unfolding program
keys = refl

abbrev one : memory.Store
one =
    (codes "rl:rpm:user:42:2", pos 1)
    ∷ (codes "rl:tpm:user:42:2", pos 30)
    ∷ (codes "rl:conc:user:42", pos 1)
    ∷ []

first_passes : (check_pre_request memory no_faults at at who limits (pos 30) []).1 ≡ one
unfolding program
first_passes = refl

second_denied :
    ((check_pre_request memory no_faults at at who limits (pos 30) one).0.deny_reason
      ≡ codes "concurrency")
    × ((check_pre_request memory no_faults at at who limits (pos 30) one).1 ≡ one)
unfolding program
second_denied = (refl, refl)

pair : List Entry
pair = entries memory who limits 2 (pos 30)

-- The tokens are not taken off, since their command fails.
abbrev half_undone : Faults
half_undone = record { rate = false; slot = false; undo_requests = false; undo_tokens = true }

allowed_within_example :
    let t = (check_pre_request memory no_faults at at who limits (pos 30) []).1 in
    let r = rpm_key who (minute_of at) in
    let k = tpm_key who (minute_of at) in
    (count memory r t ≡ count memory r [] +ℤ pos 1)
    × (count memory r t ≤ℤ limits.rpm)
    × (count memory k t ≡ count memory k [] +ℤ pos 30)
    × (count memory k t ≤ℤ limits.tpm)
    × (count memory (conc_key who) t ≡ count memory (conc_key who) [] +ℤ pos 1)
    × (count memory (conc_key who) t ≤ℤ limits.concurrency)
unfolding program
allowed_within_example = allowed_within memory at at who limits (pos 30) [] refl

-- The slot is not given back, since its call fails.
abbrev slot_kept : ReportFaults
slot_kept = record { release = true; correction = false }

settle_exact_example :
    let m = minute_of at in
    let checked = (check_pre_request memory no_faults at at who limits (pos 30) []).1 in
    count memory
      (conc_key who)
      (track_post_response memory (some slot_kept) who (pos 30) (pos 55) m true checked)
    ≡ settled_count memory slot_kept who m (pos 30) (pos 55) (conc_key who) []
unfolding program
settle_exact_example =
    settle_exact memory slot_kept at at who limits (pos 30) (pos 55) (conc_key who) [] refl
      (omega arith)
