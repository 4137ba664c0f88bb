-- ===== src/Group.antt =====
-- `ActorGroup` of core/src/actor_group.cpp: the counters of alive and of detached actors, the thread that
-- waits for the actors, and the notifications, one atomic access at a time but for the test of a wait, and
-- sequentially consistent.
-- Detached actors are alive: the steps take for granted that an actor is counted as alive before it is
-- counted as detached, and not as detached any more when it is counted off.
pub mod Awake
mod Tests
use zaf.Prelude.{
  ℕ, suc, ◌+◌, ◌-◌, ◌<◌, ◌≡◌, ◌≢◌, Bool, true, false, List, [], ◌∷◌, ◌++◌, ◌==◌, if◌then◌else◌,
}

-- The waiting thread: between two waits, or asleep on one of the two condition variables.
pub data Waiter : Type 0 where
  running : Waiter
  on_alive_actors_done : Waiter
  on_all_actors_done : Waiter

-- What is left of a call behind its update of a counter, whose new value is `n`: of
-- dec_num_alive_actors the first comparison, the first notification, and the comparison with zero
-- (with its notification); of inc_num_detached_actors the comparison and the notification.
pub data CounterCall : Type 0 where
  compare_alive : (n : ℕ) → CounterCall
  notify_alive : (n : ℕ) → CounterCall
  compare_zero : (n : ℕ) → CounterCall
  compare_detached : (n : ℕ) → CounterCall
  notify_detached : CounterCall

pub record ActorGroup : Type 0 where
  pub num_alive_actors : ℕ
  pub num_detached_actors : ℕ
  pub waiter : Waiter
  pub calls : List CounterCall

unfoldable pub inc_num_alive_actors : ActorGroup → ActorGroup
inc_num_alive_actors g = record g { num_alive_actors = suc g.num_alive_actors }

-- The updates of the other three calls, which begin them.
unfoldable pub dec_num_alive_actors : ActorGroup → ActorGroup
dec_num_alive_actors g =
    let n = g.num_alive_actors - 1 in
    record g { num_alive_actors = n; calls = compare_alive n ∷ g.calls }

unfoldable pub inc_num_detached_actors : ActorGroup → ActorGroup
inc_num_detached_actors g =
    let n = suc g.num_detached_actors in
    record g { num_detached_actors = n; calls = compare_detached n ∷ g.calls }

unfoldable pub dec_num_detached_actors : ActorGroup → ActorGroup
dec_num_detached_actors g = record g { num_detached_actors = g.num_detached_actors - 1 }

-- `notify_one` of a condition variable.
unfoldable pub notify_alive_actors_done : Waiter → Waiter
notify_alive_actors_done running = running
notify_alive_actors_done on_alive_actors_done = running
notify_alive_actors_done on_all_actors_done = on_all_actors_done

unfoldable pub notify_all_actors_done : Waiter → Waiter
notify_all_actors_done running = running
notify_all_actors_done on_alive_actors_done = on_alive_actors_done
notify_all_actors_done on_all_actors_done = running

-- The next step of a call: what is left of it, and the waiting thread.
unfoldable pub go_on : CounterCall → ActorGroup → List CounterCall × Waiter
unfolding notify_alive_actors_done notify_all_actors_done
go_on (compare_alive n) g =
    if n == g.num_detached_actors
    then (notify_alive n ∷ [], g.waiter)
    else (compare_zero n ∷ [], g.waiter)
go_on (notify_alive n) g = (compare_zero n ∷ [], notify_alive_actors_done g.waiter)
go_on (compare_zero n) g = if n == 0 then ([], notify_all_actors_done g.waiter) else ([], g.waiter)
go_on (compare_detached n) g =
    if n == g.num_alive_actors then (notify_detached ∷ [], g.waiter) else ([], g.waiter)
go_on notify_detached g = ([], notify_alive_actors_done g.waiter)

-- A wait with its test is one step, since a notification takes the lock that the test holds.
pub data Step : ActorGroup → ActorGroup → Type 0 where
  spawns : {g : ActorGroup} → Step g (inc_num_alive_actors g)
  ends :
      {g : ActorGroup}
      → g.num_detached_actors < g.num_alive_actors
      → Step g (dec_num_alive_actors g)
  detaches :
      {g : ActorGroup}
      → g.num_detached_actors < g.num_alive_actors
      → Step g (inc_num_detached_actors g)
  attaches : {g : ActorGroup} → 0 < g.num_detached_actors → Step g (dec_num_detached_actors g)
  continues :
      {g : ActorGroup} (before after : List CounterCall) (c : CounterCall)
      → g.calls ≡ before ++ c ∷ after
      → Step g (record g { calls = before ++ ((go_on c g).0 ++ after); waiter = (go_on c g).1 })
  waits_for_alive :
      {g : ActorGroup}
      → g.num_alive_actors ≢ g.num_detached_actors
      → Step g (record g { waiter = on_alive_actors_done })
  waits_for_all :
      {g : ActorGroup}
      → g.num_alive_actors ≢ 0
      → g.num_alive_actors ≡ g.num_detached_actors
      → Step g (record g { waiter = on_all_actors_done })
  wakes : {g : ActorGroup} → Step g (record g { waiter = running })

abbrev pub empty_group : ActorGroup
empty_group = record { num_alive_actors = 0; num_detached_actors = 0; waiter = running; calls = [] }

pub data Reach : ActorGroup → Type 0 where
  start : Reach empty_group
  later : {g h : ActorGroup} → Reach g → Step g h → Reach h
