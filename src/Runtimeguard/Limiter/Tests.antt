-- ===== src/Runtimeguard/Limiter/Tests.antt =====
-- A limit of two events in ten nanoseconds.
use synapse_go.Base.{
  ◌*◌, ◌≤◌, ◌≡◌, refl, [], ◌∷◌, arith, pos, nat_eq, list_beq, lookup, insert, Text, text_eq, codes,
  is_space, trim,
}
use synapse_go.Runtimeguard.Limiter.{Bucket, new_memory_limiter, bucket_of, current, consume, allow}
use synapse_go.Runtimeguard.Limiter.Window.{admitted, burst_bound}

program : Unit {0}
unfolding allow consume current bucket_of admitted lookup insert list_beq trim is_space
program = tt

abbrev ip : Text
ip = codes "ip:10.0.0.1"

three_calls : admitted ip (pos 2) (pos 10) (5 ∷ 6 ∷ 14 ∷ []) new_memory_limiter ≡ 2
unfolding program
three_calls = refl

burst_bound_example : admitted ip (pos 2) (pos 10) (5 ∷ 6 ∷ 14 ∷ []) new_memory_limiter ≤ 2 * 2
unfolding program
burst_bound_example =
    burst_bound ip 2 10 5 (5 ∷ 6 ∷ 14 ∷ []) new_memory_limiter refl (omega arith) (omega arith)
      (omega arith) (omega arith) (omega arith)

abbrev full : Bucket
full = record { window_start = 5; count = 2 }
