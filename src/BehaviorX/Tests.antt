-- ===== src/BehaviorX/Tests.antt =====
-- Rounds of an `ActorBehaviorX` (core/src/actor_behavior_x.cpp): the state of a queue is the number of
-- messages in it, and a round takes one.
use mathlib.Core.List.{Perm}
use zaf.Prelude.{ℕ, ◌-◌, ◌≡◌, refl, Bool, true, false, [], ◌∷◌, ◌==◌, if◌then◌else◌}
use zaf.BehaviorX.{
  ActorBehaviorX, is_nil, register_swsr_queue, notify_swsr_queue, consume_swsr_recv_queues,
  on_consumption,
}
use zaf.BehaviorX.Rounds.{served, not_empty, serve_in_order, consume-rounds}
use zaf.BehaviorX.Scheduled.{register, notify, consume, Reach, begin, next, Reach-scheduled}

-- Only the queue of actor 5 has a message.
abbrev serve : ℕ → ℕ → Bool × ℕ
serve q n = if q == 5 then (if n == 0 then (true, 0) else (false, n - 1)) else (true, n)

abbrev writes : ℕ → ℕ → Bool
writes q n = true

abbrev three_active : ActorBehaviorX ℕ
three_active = record {
  swsr_recv_queues = 4 ∷ 5 ∷ 6 ∷ [];
  active_recv_queues = 4 ∷ 5 ∷ 6 ∷ [];
  consumptions = 0;
  state = 3;
}

consume-rounds_example :
    Perm (served (consume_swsr_recv_queues serve writes three_active).1) (4 ∷ 5 ∷ 6 ∷ [])
    × ((consume_swsr_recv_queues serve writes three_active).0.active_recv_queues
        ≡ not_empty (consume_swsr_recv_queues serve writes three_active).1)
    × (serve_in_order serve (served (consume_swsr_recv_queues serve writes three_active).1) 3 ≡ (
      (consume_swsr_recv_queues serve writes three_active).1,
      (consume_swsr_recv_queues serve writes three_active).0.state,
    ))
consume-rounds_example = consume-rounds serve writes three_active

abbrev notified : ActorBehaviorX ℕ
notified = record {
  swsr_recv_queues = 5 ∷ [];
  active_recv_queues = 5 ∷ [];
  consumptions = 1;
  state = 3;
}

to_notified : Reach serve writes (λ n. n) notified
unfolding register_swsr_queue notify_swsr_queue
to_notified = next (next (begin 3) (register 5)) (notify 5 refl)

Reach-scheduled_example :
    (on_consumption serve writes (λ n. n) (record notified { consumptions = 0 })).0.consumptions ≡ (
      if is_nil
        (on_consumption serve writes
          (λ n. n)
          (record notified { consumptions = 0 })).0.active_recv_queues
      then 0
      else 1)
Reach-scheduled_example =
    Reach-scheduled serve writes (λ n. n)
      (on_consumption serve writes (λ n. n) (record notified { consumptions = 0 })).0
      (next to_notified (consume 0 refl))
