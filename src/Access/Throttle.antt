-- ===== src/Access/Throttle.antt =====
-- middleware/auth.go: LoginRateLimit and IPRateLimit, over the counters of Redis with a time to live;
-- middleware/role.go. The nil client and the errors of Redis are arguments, and a client address stands for the key made of it.
use synapse_go.Base.{
  ℕ, suc, ◌+◌, ◌≤◌, ◌<◌, ◌≡◌, refl, ap, ap₂, Bool, true, false, not, ◌&&◌, ◌||◌, none, some, List,
  [], ◌∷◌, ◌++◌, arith, ◌==◌, if◌then◌else◌, ℤ, pos, leb_ℤ, nat_eq, beq_refl, list_beq, Text,
  text_eq, codes, is_empty,
}
use synapse_go.Runtimeguard.Windows.{is_over, lapse, bumped, until, Windows, count_of}

-- RequireRole and RequireHeaderSecret: whether the request goes on.
unfoldable pub require_role : List Text → Text → Bool
require_role [] role = false
require_role (r ∷ rs) role = list_beq r role || require_role rs role

unfoldable pub require_header_secret : Text → Text → Bool
require_header_secret secret provided = not (is_empty provided) && list_beq provided secret

-- How a call of Redis ends: it is answered, it fails before it is carried out, or it is carried out
-- and its answer is lost.
pub data CallEnd : Type 0 where
  answered failed lost : CallEnd

module _ (W : Windows) where
  open W use {Store, cell, incr, pexpire}

  -- INCR: the number it gives, 0 where there is no answer, and the store after it.
  unfoldable pub incr_count : CallEnd → Text → ℕ → Store → ℕ × Store
  incr_count answered key now s = let s' = incr key now s in (count_of (cell key now s'), s')
  incr_count failed key now s = (0, s)
  incr_count lost key now s = (0, incr key now s)

  -- A call whose answer is not read changes the store unless it fails.
  unfoldable pub sent : CallEnd → (Store → Store) → Store → Store
  sent answered f s = f s
  sent failed f s = s
  sent lost f s = f s

  -- Whether the request goes on, and the store after it. Without a client every request goes on; the
  -- errors of INCR and EXPIRE are not read.
  unfoldable pub ip_rate_limit : Bool → CallEnd → CallEnd → Text → ℤ → ℕ → Store → Bool × Store
  unfolding incr_count sent
  ip_rate_limit false counted expired ip rpm now s = (true, s)
  ip_rate_limit true counted expired ip rpm now s =
      let key = codes "ip_rl:" ++ ip in
      let (count, s') = incr_count counted key now s in
      (leb_ℤ (pos count) rpm, sent expired (pexpire key 60000 now) s')

  -- Requests at the given times, of which every call of Redis is answered.
  unfoldable pub ip_calls : Text → ℤ → List ℕ → Store → List Bool
  unfolding ip_rate_limit
  ip_calls ip rpm [] s = []
  ip_calls ip rpm (t ∷ ts) s =
      let (on, s') = ip_rate_limit true answered answered ip rpm t s in on ∷ ip_calls ip rpm ts s'

  -- GET, whose error is not read: the count is then 0.
  unfoldable pub read_count : CallEnd → Text → ℕ → Store → ℕ
  read_count answered key now s = count_of (cell key now s)
  read_count failed key now s = 0
  read_count lost key now s = 0

  -- The handler's status decides what is recorded; `del` is DEL. A refused attempt records nothing.
  -- The errors of GET, of the two calls of the pipeline and of DEL are not read.
  unfoldable pub login_rate_limit :
      (Text → ℕ → Store → Store)
      → Bool
      → CallEnd
      → CallEnd
      → CallEnd
      → CallEnd
      → Text
      → ℤ
      → ℕ
      → ℕ
      → ℕ
      → Store
      → Bool × Store
  unfolding read_count sent
  login_rate_limit del false got counted expired deleted ip max_attempts window status now s =
      (true, s)
  login_rate_limit del true got counted expired deleted ip max_attempts window status now s =
      let key = codes "login_fail:" ++ ip in
      if leb_ℤ max_attempts (pos (read_count got key now s))
      then (false, s)
      else if status == 401
      then (true, sent expired (pexpire key window now) (sent counted (incr key now) s))
      else if status == 200
      then (true, sent deleted (del key now) s)
      else (true, s)

  -- Calls in the order of their times, each less than a minute after the one before it.
  unfoldable pub Steady : ℕ → List ℕ → Type 0
  Steady last [] = Unit
  Steady last (t ∷ ts) = (last ≤ t) × (t < last + 60000) × Steady t ts

  -- The calls from the n-th on, as long as they keep coming: on up to the limit, and none after it.
  unfoldable pub up_to : ℕ → ℤ → List ℕ → List Bool
  up_to n rpm [] = []
  up_to n rpm (t ∷ ts) = leb_ℤ (pos (suc n)) rpm ∷ up_to (suc n) rpm ts

  counted :
      (ip : Text) (n last t : ℕ) (s : Store)
      → last ≤ t
      → t < last + 60000
      → let key = codes "ip_rl:" ++ ip in
        cell key last s ≡ some (record { count = n; deadline = some (last + 60000) })
        → (cell key t (incr key t s)
            ≡ some (record { count = suc n; deadline = some (last + 60000) }))
          × (cell key t (pexpire key 60000 t (incr key t s))
              ≡ some (record { count = suc n; deadline = some (t + 60000) }))
  unfolding lapse is_over bumped until
  counted ip n last t s a b e =
      let key = codes "ip_rl:" ++ ip in
      let now : cell key t s ≡ some (record { count = n; deadline = some (last + 60000) }) =
        ground (arith, W.cell_later key last t s a, e) in
      let one : cell key t (incr key t s)
          ≡ some (record { count = suc n; deadline = some (last + 60000) }) =
        ground (arith, W.cell-incr key key t s, beq_refl {A = Text} key, now) in
      (
        one,
        ground (arith, W.cell-pexpire key key 60000 t (incr key t s), beq_refl {A = Text} key, one),
      )

  calls_from :
      (ip : Text) (rpm : ℤ) (n last : ℕ) (ts : List ℕ) (s : Store)
      → Steady last ts
      → cell (codes "ip_rl:" ++ ip) last s
        ≡ some (record { count = n; deadline = some (last + 60000) })
      → ip_calls ip rpm ts s ≡ up_to n rpm ts
  unfolding ip_calls ip_rate_limit incr_count sent up_to Steady count_of
  calls_from ip rpm n last [] s h e = refl
  calls_from ip rpm n last (t ∷ ts) s h e =
      let key = codes "ip_rl:" ++ ip in
      let (one, after_it) = counted ip n last t s h.0 h.1 e in
      ap₂ (λ b bs. b ∷ bs) (ap (λ c. leb_ℤ (pos (count_of c)) rpm) one)
        (calls_from ip rpm (suc n) t ts (pexpire key 60000 t (incr key t s)) h.2 after_it)

  opened :
      (ip : Text) (t : ℕ) (s : Store)
      → let key = codes "ip_rl:" ++ ip in
        cell key t s ≡ none
        → cell key t (incr key t s) ≡ some (record { count = 1; deadline = none })
  unfolding bumped
  opened ip t s e =
      let key = codes "ip_rl:" ++ ip in
      ground (arith, W.cell-incr key key t s, beq_refl {A = Text} key)

  first_call :
      (ip : Text) (t : ℕ) (s : Store)
      → let key = codes "ip_rl:" ++ ip in
        cell key t s ≡ none
        → cell key t (pexpire key 60000 t (incr key t s))
          ≡ some (record { count = 1; deadline = some (t + 60000) })
  unfolding bumped until
  first_call ip t s e =
      let key = codes "ip_rl:" ++ ip in
      ground (
        arith,
        W.cell-pexpire key key 60000 t (incr key t s),
        W.cell-incr key key t s,
        beq_refl {A = Text} key,
      )

  -- IPRateLimit gives every request a new minute, the refused ones too: of an address whose requests
  -- keep coming, each within a minute of the one before, exactly as many pass as the limit, from the
  -- first request on, however long they keep coming. The client is set, Redis answers every call, and
  -- it holds no counter of the address before.
  pub ip_calls-Steady :
      (ip : Text) (rpm : ℤ) (t : ℕ) (ts : List ℕ) (s : Store)
      → cell (codes "ip_rl:" ++ ip) t s ≡ none
      → Steady t ts
      → ip_calls ip rpm (t ∷ ts) s ≡ up_to 0 rpm (t ∷ ts)
  unfolding ip_calls ip_rate_limit incr_count sent up_to count_of
  ip_calls-Steady ip rpm t ts s e h =
      let key = codes "ip_rl:" ++ ip in
      ap₂ (λ b bs. b ∷ bs) (ap (λ c. leb_ℤ (pos (count_of c)) rpm) (opened ip t s e))
        (calls_from ip rpm 1 t ts (pexpire key 60000 t (incr key t s)) h (first_call ip t s e))
