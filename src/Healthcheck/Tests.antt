-- ===== src/Healthcheck/Tests.antt =====
-- A database that answers and a Redis that does not.
use synapse_go.Base.{
  ◌≡◌, refl, Option, none, some, List, [], ◌∷◌, arith, nat_eq, list_beq, list_beq_iff, lookup,
  insert, Text, text_eq, codes,
}
use synapse_go.Healthcheck.{start, finish, finish_all, handler}
use synapse_go.Healthcheck.Orders.{Distinct, some_failed, any_order}

abbrev fast_first : List (Text × Option Text)
fast_first = (codes "db", none) ∷ (codes "redis", some (codes "refused")) ∷ []

abbrev slow_first : List (Text × Option Text)
slow_first = (codes "redis", some (codes "refused")) ∷ (codes "db", none) ∷ []

program : Unit {0}
unfolding handler finish_all finish start some_failed Distinct lookup insert list_beq
program = tt

same_answers : (n : Text) → lookup n fast_first ≡ lookup n slow_first
unfolding lookup
same_answers n = ground (arith, list_beq_iff (codes "db") n, list_beq_iff (codes "redis") n)

any_order_example :
    ((handler fast_first).0 ≡ (handler slow_first).0)
    × ((handler fast_first).0 ≡ 503)
    × ((handler fast_first).1.status ≡ (handler slow_first).1.status)
    × (lookup (codes "db") (handler fast_first).1.checks
        ≡ lookup (codes "db") (handler slow_first).1.checks)
unfolding program
any_order_example =
    any_order fast_first slow_first (codes "db") (refl, (refl, tt)) (refl, (refl, tt)) same_answers
