-- ===== src/Delayed/Wait.antt =====
-- `receive_once` with its timeout (core/zaf/actor_behavior.tpp, core/src/actor_behavior.cpp): an actor waits
-- for a message and sends its delayed messages meanwhile. Times are counts of nanoseconds, the ticks of
-- the steady clock; timeouts are counts of milliseconds, and none is the timeout -1.
-- `inner_receive_once` is an argument: with its timeout it may let time pass, and run a handler, which
-- may change anything.
pub mod Deadline
pub mod Oversleep
mod Tests
use zaf.Prelude.{
  ℕ, zero, suc, ◌-◌, ◌+◌, ◌*◌, ◌/◌, Bool, true, false, Option, none, some, List, [], ◌∷◌, ◌++◌, min,
  leb, if◌then◌else◌,
}
use zaf.Delayed.{Entry, Outgoing, flush_delayed_messages, remaining_time}

pub record World (M Y R : Type 0) : Type 0 where
  pub time : ℕ
  pub delayed_messages : List (Entry M Y)
  pub sent : List (Outgoing M Y)
  pub others : R

-- Nanoseconds in a millisecond.
abbrev pub ms : ℕ
ms = 1000000

-- `receive_once(handlers, non_blocking)`.
unfoldable pub timeout_of : (non_blocking : Bool) → Option ℕ
timeout_of non_blocking = if non_blocking then some 0 else none

module _ {M Y R : Type 0} where
  -- `flush_delayed_messages`, during which no tick passes.
  unfoldable pub flush : World M Y R → World M Y R
  unfolding flush_delayed_messages
  flush w =
      let r = flush_delayed_messages (λ k. w.time) 0 w.delayed_messages in
      record w { delayed_messages = r.1; sent = w.sent ++ r.0 }

  -- `remaining_time_to_next_delayed_message`, at least 0.
  unfoldable pub next_timeout : World M Y R → Option ℕ
  unfolding remaining_time
  next_timeout w = elim (remaining_time w.time w.delayed_messages) [
    | none ↦ none
    | some ticks ↦ some (ticks / ms)
  ]

  module _ (inner_receive_once : Option ℕ → World M Y R → Bool × World M Y R) where
    -- The case -1, in at most `fuel` rounds.
    unfoldable pub receive_blocking : (fuel : ℕ) → World M Y R → Option (Bool × World M Y R)
    unfolding flush next_timeout
    receive_blocking zero w = none
    receive_blocking (suc fuel) w = elim (next_timeout w) [
      | none ↦ some (inner_receive_once none w)
      | some t ↦
          let r = inner_receive_once (some t) w in
          let w' = flush r.1 in
          let again = receive_blocking fuel w' in if r.0 then some (true, w') else again
    ]

    -- The default case with the deadline `e`. What is left of the timeout is a number of ticks, which
    -- becomes the timeout of the next round.
    unfoldable pub receive_until : (fuel e timeout : ℕ) → World M Y R → Option (Bool × World M Y R)
    unfolding flush next_timeout
    receive_until zero e timeout w = none
    receive_until (suc fuel) e timeout w = elim (next_timeout w) [
      | none ↦ some (inner_receive_once (some timeout) w)
      | some t ↦
          let r = inner_receive_once (some (min t timeout)) w in
          let w' = flush r.1 in
          let again = receive_until fuel e (e - w'.time) w' in
          if r.0 then some (true, w') else if leb e w'.time then some (false, w') else again
    ]

    unfoldable pub receive_once : (fuel : ℕ) → Option ℕ → World M Y R → Option (Bool × World M Y R)
    unfolding receive_blocking receive_until flush
    receive_once fuel none w = receive_blocking fuel w
    receive_once fuel (some zero) w = let r = inner_receive_once (some 0) w in some (r.0, flush r.1)
    receive_once fuel (some (suc t)) w = receive_until fuel (w.time + suc t * ms) (suc t) w
