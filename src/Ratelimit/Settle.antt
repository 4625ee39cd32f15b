-- ===== src/Ratelimit/Settle.antt =====
-- What an allowed request costs, before its response and after.
use synapse_go.Base.{
  ℕ, zero, suc, ◌≡◌, refl, sym, ap, subst, ◌∙◌, Bool, true, false, Option, none, some, arith,
  if◌then◌else◌, ℤ, pos, negsuc, ◌+ℤ◌, ◌-ℤ◌, ◌≤ℤ◌, ◌<ℤ◌, leb_ℤ, +ℤ_parts, int_laws, nat_eq,
  beq_refl, list_beq, list_beq_iff, Text, text_eq, Time,
}
use synapse_go.Ratelimit.Scripts.{
  Counters, count, over, first_over, bump_all, decide_from, check_and_increment,
  concurrency_acquire, concurrency_release,
}
use synapse_go.Ratelimit.Limiter.{
  RateLimits, RequestIdentity, key_ttl, minute_of, rpm_key, tpm_key, conc_key, rate_denied,
  concurrency_denied, Faults, ReportFaults, entries, unless_failed, after_slot, after_rate,
  check_pre_request, correct_tokens, release_slot, track_post_response,
}
use synapse_go.Ratelimit.Atomic.{count-incr_by, count-expire}
use synapse_go.Ratelimit.Rollback.{
  rpm-ne-tpm, rpm-ne-conc, tpm-ne-conc, bumped_count, count-bump_all,
}

abbrev pub no_faults : Option Faults
no_faults = some (record { rate = false; slot = false; undo_requests = false; undo_tokens = false })

next_below : (n l : ℤ) → leb_ℤ l n ≡ false → n +ℤ pos 1 ≤ℤ l
next_below n l h = omega (arith, +ℤ_parts n (pos 1), below h)
  where
    below : leb_ℤ l n ≡ false → n <ℤ l
    below h = ground arith

slot_taken : (n : ℤ) → pos 0 ≤ℤ n → pos 0 <ℤ n +ℤ pos 1
slot_taken n h = omega (arith, +ℤ_parts n (pos 1))

recount : (c n a : ℤ) → (c +ℤ n) +ℤ (a -ℤ n) ≡ c +ℤ a
recount c n a = omega int_laws

give_back : (c : ℤ) → (c +ℤ pos 1) +ℤ negsuc 0 ≡ c +ℤ pos 0
give_back c = omega int_laws

no_change : (b : Bool) (n : ℤ) → n ≡ (if b then n +ℤ pos 0 else n)
no_change true n = omega int_laws
no_change false n = refl

same_or : {A : Type 0} (b : Bool) (c : A) → c ≡ (if b then c else c)
same_or true c = refl
same_or false c = refl

module _ (C : Counters) where
  open C use {Store, get, incr_by, expire}

  taken : RequestIdentity → RateLimits → ℕ → ℤ → Store → Store
  taken i l m n s =
      let c = conc_key i in expire c key_ttl (incr_by c (pos 1) (bump_all C (entries C i l m n) s))

  allowed_state :
      (now later : Time) (i : RequestIdentity) (l : RateLimits) (n : ℤ) (s : Store)
      → (check_pre_request C no_faults now later i l n s).0.allowed ≡ true
      → ((check_pre_request C no_faults now later i l n s).1 ≡ taken i l (minute_of now) n s)
        × (first_over C 0 (entries C i l (minute_of now) n) s ≡ none)
        × (leb_ℤ l.concurrency
              (count C (conc_key i) (bump_all C (entries C i l (minute_of now) n) s))
            ≡ false)
  unfolding check_pre_request after_rate check_and_increment decide_from rate_denied after_slot
      concurrency_acquire concurrency_denied taken
  allowed_state now later i l n s h = ground arith

  -- The counters of three keys in the state after an allowed check.
  count-taken :
      (i : RequestIdentity) (l : RateLimits) (m : ℕ) (n : ℤ) (k : Text) (s : Store)
      → count C k (taken i l m n s) ≡ (
          if list_beq (conc_key i) k
          then count C k s +ℤ pos 1
          else bumped_count C (rpm_key i m) (tpm_key i m) n k s)
  unfolding taken bumped_count
  count-taken i l m n k s =
      let c = conc_key i in
      let t = bump_all C (entries C i l m n) s in
      ground (
        arith,
        count-expire C c k key_ttl (incr_by c (pos 1) t),
        count-incr_by C c k (pos 1) t,
        count-bump_all C i l m n k s,
        list_beq_iff c k,
        list_beq_iff (rpm_key i m) k,
        list_beq_iff (tpm_key i m) k,
        rpm-ne-conc i m,
        tpm-ne-conc i m,
      )

  taken_counts :
      (i : RequestIdentity) (l : RateLimits) (m : ℕ) (n : ℤ) (s : Store)
      → (count C (rpm_key i m) (taken i l m n s) ≡ count C (rpm_key i m) s +ℤ pos 1)
        × (count C (tpm_key i m) (taken i l m n s) ≡ count C (tpm_key i m) s +ℤ n)
        × (count C (conc_key i) (taken i l m n s) ≡ count C (conc_key i) s +ℤ pos 1)
        × (count C (conc_key i) (bump_all C (entries C i l m n) s) ≡ count C (conc_key i) s)
  unfolding bumped_count
  taken_counts i l m n s =
      let r = rpm_key i m in
      let t = tpm_key i m in
      let c = conc_key i in
      (
        ground (
          arith,
          count-taken i l m n r s,
          list_beq_iff c r,
          beq_refl {A = Text} r,
          rpm-ne-conc i m,
        ),
        ground (
          arith,
          count-taken i l m n t s,
          list_beq_iff c t,
          list_beq_iff r t,
          beq_refl {A = Text} t,
          tpm-ne-conc i m,
          rpm-ne-tpm i m,
        ),
        ground (
          arith,
          count-taken i l m n c s,
          beq_refl {A = Text} c,
          list_beq_iff r c,
          list_beq_iff t c,
          rpm-ne-conc i m,
          tpm-ne-conc i m,
        ),
        ground (
          arith,
          count-bump_all C i l m n c s,
          list_beq_iff r c,
          list_beq_iff t c,
          rpm-ne-conc i m,
          tpm-ne-conc i m,
        ),
      )

  within :
      (i : RequestIdentity) (l : RateLimits) (m : ℕ) (n : ℤ) (s : Store)
      → first_over C 0 (entries C i l m n) s ≡ none
      → (count C (rpm_key i m) s +ℤ pos 1 ≤ℤ l.rpm) × (count C (tpm_key i m) s +ℤ n ≤ℤ l.tpm)
  unfolding first_over over entries
  within i l m n s h = ground arith

  -- An allowed request, with no fault of Redis, has taken one request, its estimated tokens and one
  -- slot, and none of the three counters has passed its limit.
  pub allowed_within :
      (now later : Time) (i : RequestIdentity) (l : RateLimits) (n : ℤ) (s : Store)
      → (check_pre_request C no_faults now later i l n s).0.allowed ≡ true
      → let t = (check_pre_request C no_faults now later i l n s).1 in
        let r = rpm_key i (minute_of now) in
        let k = tpm_key i (minute_of now) in
        (count C r t ≡ count C r s +ℤ pos 1)
        × (count C r t ≤ℤ l.rpm)
        × (count C k t ≡ count C k s +ℤ n)
        × (count C k t ≤ℤ l.tpm)
        × (count C (conc_key i) t ≡ count C (conc_key i) s +ℤ pos 1)
        × (count C (conc_key i) t ≤ℤ l.concurrency)
  allowed_within now later i l n s h =
      let m = minute_of now in
      let (state, free, slot) = allowed_state now later i l n s h in
      let (a, b, c, d) = taken_counts i l m n s in
      let (x, y) = within i l m n s free in
      let a' = ap (count C (rpm_key i m)) state ∙ a in
      let b' = ap (count C (tpm_key i m)) state ∙ b in
      let c' = ap (count C (conc_key i)) state ∙ c in
      (
        a',
        subst (λ z. z ≤ℤ l.rpm) (sym a') x,
        b',
        subst (λ z. z ≤ℤ l.tpm) (sym b') y,
        c',
        subst (λ z. z ≤ℤ l.concurrency) (sym c')
            (next_below (count C (conc_key i) s) l.concurrency
              (subst (λ z. leb_ℤ l.concurrency z ≡ false) d slot)),
      )

  released :
      (i : RequestIdentity) (k : Text) (u : Store)
      → pos 0 <ℤ count C (conc_key i) u
      → count C k (release_slot C i u)
        ≡ (if list_beq (conc_key i) k then count C k u +ℤ negsuc 0 else count C k u)
  unfolding release_slot concurrency_release
  released i k u h =
      ground (arith, count-incr_by C (conc_key i) k (negsuc 0) u, list_beq_iff (conc_key i) k)

  corrected :
      (i : RequestIdentity) (m : ℕ) (d : ℤ) (k : Text) (u : Store)
      → count C k (correct_tokens C i m d u)
        ≡ (if list_beq (tpm_key i m) k then count C k u +ℤ d else count C k u)
  unfolding correct_tokens
  corrected i m (pos zero) k u = no_change (list_beq (tpm_key i m) k) (count C k u)
  corrected i m (pos (suc n)) k u =
      ground (arith, count-incr_by C (tpm_key i m) k (pos (suc n)) u, list_beq_iff (tpm_key i m) k)
  corrected i m (negsuc n) k u =
      ground (arith, count-incr_by C (tpm_key i m) k (negsuc n) u, list_beq_iff (tpm_key i m) k)

  -- A counter once the response has been reported, from what it was before the check: one request,
  -- the actual tokens and no slot, or the estimated tokens and a slot where their call failed.
  unfoldable pub settled_count : ReportFaults → RequestIdentity → ℕ → ℤ → ℤ → Text → Store → ℤ
  settled_count g i m n a k s =
      if list_beq (rpm_key i m) k
      then count C k s +ℤ pos 1
      else if list_beq (tpm_key i m) k
      then count C k s +ℤ (if g.correction then n else a)
      else if list_beq (conc_key i) k
      then count C k s +ℤ (if g.release then pos 1 else pos 0)
      else count C k s

  release_unless :
      (fault : Bool) (i : RequestIdentity) (k : Text) (u : Store)
      → pos 0 <ℤ count C (conc_key i) u
      → count C k (unless_failed C fault (release_slot C i) u) ≡ (
          if list_beq (conc_key i) k
          then (if fault then count C k u else count C k u +ℤ negsuc 0)
          else count C k u)
  unfolding unless_failed
  release_unless true i k u z = same_or (list_beq (conc_key i) k) (count C k u)
  release_unless false i k u z = released i k u z

  correct_unless :
      (fault : Bool) (i : RequestIdentity) (m : ℕ) (d : ℤ) (k : Text) (u : Store)
      → count C k (unless_failed C fault (correct_tokens C i m d) u) ≡ (
          if list_beq (tpm_key i m) k
          then (if fault then count C k u else count C k u +ℤ d)
          else count C k u)
  unfolding unless_failed
  correct_unless true i m d k u = same_or (list_beq (tpm_key i m) k) (count C k u)
  correct_unless false i m d k u = corrected i m d k u

  settled :
      (g : ReportFaults) (i : RequestIdentity) (l : RateLimits) (m : ℕ) (n a : ℤ) (k : Text)
      (s : Store)
      → pos 0 ≤ℤ count C (conc_key i) s
      → count C k (track_post_response C (some g) i n a m true (taken i l m n s))
        ≡ settled_count g i m n a k s
  unfolding track_post_response bumped_count settled_count
  settled g i l m n a k s z =
      let t = taken i l m n s in
      let c = count C k s in
      ground (
        arith,
        correct_unless g.correction i m (a -ℤ n) k (unless_failed C g.release (release_slot C i) t),
        release_unless g.release i k t,
        slot_taken (count C (conc_key i) s) z,
        (taken_counts i l m n s).2,
        count-taken i l m n k s,
        recount c n a,
        give_back c,
        list_beq_iff (conc_key i) k,
        list_beq_iff (rpm_key i m) k,
        list_beq_iff (tpm_key i m) k,
        rpm-ne-conc i m,
        tpm-ne-conc i m,
        rpm-ne-tpm i m,
      )

  -- Once the response of a request that got its slot has been reported with its actual tokens and the
  -- slot given back, every counter reads as if the request had been known to cost that: one request,
  -- the actual tokens, no slot. Where the call that corrects the tokens fails, the estimated tokens
  -- stay counted, and where the call that gives the slot back fails, the slot stays taken: the errors
  -- of both are not read. No call of the check fails, the slots in use are not negative before it, and
  -- the report finds the counters as the check left them, without other requests between: they live
  -- 120 seconds from then on, and of a report that comes after a counter has expired nothing is said.
  pub settle_exact :
      (g : ReportFaults) (now later : Time) (i : RequestIdentity) (l : RateLimits) (n a : ℤ)
      (k : Text) (s : Store)
      → (check_pre_request C no_faults now later i l n s).0.allowed ≡ true
      → pos 0 ≤ℤ count C (conc_key i) s
      → let m = minute_of now in
        let checked = (check_pre_request C no_faults now later i l n s).1 in
        count C k (track_post_response C (some g) i n a m true checked)
        ≡ settled_count g i m n a k s
  settle_exact g now later i l n a k s h z =
      ap (λ t. count C k (track_post_response C (some g) i n a (minute_of now) true t))
        (allowed_state now later i l n s h).0
      ∙ settled g i l (minute_of now) n a k s z
