-- ===== src/Lock/Sample.antt =====
-- An instance of the interface of string keys: a store of one value for a key with its end.
use synapse_go.Base.{
  ℕ, ◌*◌, ◌≤◌, ◌≡◌, inl, inr, Bool, true, false, ◌&&◌, Option, none, some, arith, leb,
  if◌then◌else◌, Bool-cases, pos_part, nat_eq, list_beq, Text, text_eq, Time, Duration,
}
use synapse_go.Lock.Keys.{is_none, live, Keys}

-- Redis as a function from a key and a time to the value that is live.
abbrev pub Memory : Type 0
Memory = Text → Time → Option Text

abbrev pub write : Text → Time → (Time → Option Text) → Memory → Memory
write k now f s j t = if list_beq k j && leb now t then f t else s j t

abbrev pub put_nx : Text → Text → ℕ → Time → Memory → Bool × Memory
put_nx k v span now s =
    if is_none (s k now) then (true, write k now (live v now span) s) else (false, s)

unfoldable pub pexpire_in : Option Text → Text → ℕ → Time → Memory → Memory
pexpire_in none k ms now s = s
pexpire_in (some v) k ms now s = write k now (live v now (ms * 1000000)) s

pub put_nx_result :
    (k v : Text) (ttl : Duration) (now : Time) (s : Memory)
    → (put_nx k v (pos_part ttl) now s).0 ≡ is_none (s k now)
put_nx_result k v ttl now s = ground arith

pub get-put_nx :
    (k v j : Text) (ttl : Duration) (now t : Time) (s : Memory)
    → now ≤ t
    → (put_nx k v (pos_part ttl) now s).1 j t
      ≡ (if list_beq k j && is_none (s k now) then live v now (pos_part ttl) t else s j t)
get-put_nx k v j ttl now t s h = elim (Bool-cases (is_none (s k now))) [
  | inl free ↦ rw free (ground arith)
  | inr taken ↦ rw taken (ground arith)
]

pub get-write-none :
    (k j : Text) (now t : Time) (s : Memory)
    → now ≤ t
    → write k now (λ u. none) s j t ≡ (if list_beq k j then none else s j t)
get-write-none k j now t s h = ground arith

pub get-pexpire_in :
    (k j v : Text) (ms : ℕ) (now t : Time) (s : Memory)
    → now ≤ t
    → s k now ≡ some v
    → pexpire_in (s k now) k ms now s j t
      ≡ (if list_beq k j then live v now (ms * 1000000) t else s j t)
unfolding pexpire_in
get-pexpire_in k j v ms now t s h e = rw e (ground arith)

abbrev pub memory : Keys
memory = record {
  Store = Memory;
  lifetime = pos_part;
  get = λ k t s. s k t;
  set_nx = λ k v ttl now s. put_nx k v (pos_part ttl) now s;
  del = λ k now s. write k now (λ u. none) s;
  pexpire = λ k ms now s. pexpire_in (s k now) k ms now s;
  set_nx_result = put_nx_result;
  get-set_nx = get-put_nx;
  get-del = get-write-none;
  get-pexpire = get-pexpire_in;
}

abbrev pub nobody : Memory
nobody k t = none
