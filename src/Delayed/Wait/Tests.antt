-- ===== src/Delayed/Wait/Tests.antt =====
-- A message delayed by 2 ms and a timeout of 3 ms (core/zaf/actor_behavior.tpp), while nothing arrives.
use zaf.Prelude.{
  ℕ, ◌+◌, ◌*◌, ◌-◌, ◌≤◌, ◌≡◌, refl, Bool, true, false, Option, none, some, [], ◌∷◌, arith,
}
use zaf.Delayed.{to_local, flush_delayed_messages, send_delayed, remaining_time}
use zaf.Delayed.Wait.{World, ms, flush, next_timeout, receive_until, receive_once}
use zaf.Delayed.Wait.Deadline.{IsPoll, receive_once-late}

abbrev Quiet : Type 0
Quiet = World ℕ ℕ Unit

-- A wait lasts its timeout and one tick.
abbrev wait : Option ℕ → Quiet → Bool × Quiet
wait none w = (true, w)
wait (some t) w = (false, record w { time = w.time + t * ms + 1 })

wait-IsPoll : IsPoll wait
wait-IsPoll = record {
  passes = λ t w e. omega arith;
  ticks = λ t w e. omega arith;
  keeps = λ t w e. refl;
}

abbrev one_delayed : Quiet
one_delayed = record {
  time = 0;
  delayed_messages = (2 * ms, to_local 7 70) ∷ [];
  sent = [];
  others = tt;
}

abbrev after_first : Quiet
after_first = record one_delayed { time = 2 * ms + 1 }

abbrev after_second : Quiet
after_second = record {
  time = 2 * ms + 1 + (3 * ms - (2 * ms + 1)) * ms + 1;
  delayed_messages = [];
  sent = (flush after_first).sent;
  others = tt;
}

runs : receive_once wait 2 (some 3) one_delayed ≡ some (false, after_second)
unfolding receive_once receive_until flush next_timeout flush_delayed_messages send_delayed
    remaining_time
runs = refl

receive_once-late_example : 0 + 3 * ms ≤ after_second.time
receive_once-late_example = receive_once-late wait-IsPoll 2 3 one_delayed after_second runs
