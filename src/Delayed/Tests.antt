-- ===== src/Delayed/Tests.antt =====
-- Three delayed messages (core/src/actor_behavior.cpp), of which two are due at the second flush. The
-- clock goes on by ten ticks from one reading to the next.
use zaf.Prelude.{ℕ, ◌*◌, ◌≤◌, ◌≡◌, refl, none, some, List, [], ◌∷◌, arith}
use zaf.Delayed.{
  to_local, to_remote, direct, forward, Operation, send_later, flush, flush_delayed_messages,
  after_operations,
}
use zaf.Delayed.Due.{Flushed, flush-sends_due}

abbrev tens : ℕ → ℕ
tens k = 10 * k

monotone : (i j : ℕ) → i ≤ j → tens i ≤ tens j
monotone i j h = omega arith

abbrev operations : List (Operation ℕ ℕ)
operations =
    send_later 25 (some (to_local 1 111))
    ∷ flush
    ∷ send_later 5 (some (to_remote 2 221 222))
    ∷ send_later 500 (some (to_local 3 333))
    ∷ send_later 7 none
    ∷ []

two_due :
    (flush_delayed_messages tens 5 (after_operations tens 0 operations [])).0
    ≡ direct 1 111 ∷ forward 2 221 222 ∷ []
unfolding flush_delayed_messages after_operations
two_due = refl

flush-sends_due_example :
    Flushed tens 5
      (after_operations tens 0 operations [])
      (flush_delayed_messages tens 5 (after_operations tens 0 operations []))
flush-sends_due_example = flush-sends_due tens monotone 0 5 operations
