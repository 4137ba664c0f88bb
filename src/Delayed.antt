-- ===== src/Delayed.antt =====
-- Delayed messages of an actor (core/src/actor_behavior.cpp, core/zaf/actor_behavior.tpp,
-- core/src/delayed_message.cpp): the sorted multimap from a time to a message, and its flush.
-- A time is a count of ticks of the steady clock; `clock k` is what its k-th reading gives. `M` is the
-- type of the messages to local actors, `Y` that of bytes.
pub mod Due
pub mod Wait
pub mod Owner
mod Tests
use zaf.Prelude.{
  ℕ, zero, suc, ◌+◌, ◌-◌, ◌/◌, Bool, true, false, Option, none, some, List, [], ◌∷◌, ◌++◌, leb,
  if◌then◌else◌,
}

-- `DelayedMessage` with its receiver; a remote receiver is named by its net sender.
pub data DelayedMessage (M Y : Type 0) : Type 0 where
  to_local : (receiver : ℕ) (message : M) → DelayedMessage M Y
  to_remote : (net_sender : ℕ) (header content : Y) → DelayedMessage M Y

-- What the flush sends: a message, or ForwardMessage with two vectors of bytes.
pub data Outgoing (M Y : Type 0) : Type 0 where
  direct : (receiver : ℕ) (message : M) → Outgoing M Y
  forward : (net_sender : ℕ) (header content : Y) → Outgoing M Y

-- A time to send with its message.
abbrev pub Entry : Type 0 → Type 0 → Type 0
Entry M Y = ℕ × DelayedMessage M Y

-- What an actor does with its delayed messages, each time at a new reading of the clock.
pub data Operation (M Y : Type 0) : Type 0 where
  send_later : (time : ℕ) → Option (DelayedMessage M Y) → Operation M Y
  flush : Operation M Y

module _ {M Y : Type 0} where
  -- `emplace` of the multimap: behind the entries of the same time.
  unfoldable pub emplace : ℕ → DelayedMessage M Y → List (Entry M Y) → List (Entry M Y)
  emplace time m [] = (time, m) ∷ []
  emplace time m (x ∷ xs) = if leb x.0 time then x ∷ emplace time m xs else (time, m) ∷ x ∷ xs

  -- `delayed_send`; `none` is a message for a null receiver.
  unfoldable pub delayed_send :
      (now delay : ℕ) → Option (DelayedMessage M Y) → List (Entry M Y) → List (Entry M Y)
  unfolding emplace
  delayed_send now delay none l = l
  delayed_send now delay (some m) l = emplace (now + delay) m l

  -- The visit in `flush_delayed_messages`.
  unfoldable pub send_delayed : DelayedMessage M Y → Outgoing M Y
  send_delayed (to_local receiver message) = direct receiver message
  send_delayed (to_remote net_sender header content) = forward net_sender header content

  -- `flush_delayed_messages` from the k-th reading of the clock on: what is sent, and what is left.
  unfoldable pub flush_delayed_messages :
      (clock : ℕ → ℕ) (k : ℕ) → List (Entry M Y) → List (Outgoing M Y) × List (Entry M Y)
  unfolding send_delayed
  flush_delayed_messages clock k [] = ([], [])
  flush_delayed_messages clock k (x ∷ xs) =
      let r = flush_delayed_messages clock (suc k) xs in
      if leb x.0 (clock k) then (send_delayed x.1 ∷ r.0, r.1) else ([], x ∷ xs)

  -- `remaining_time_to_next_delayed_message`, in ticks; the difference is negative if the time is over,
  -- and only its maximum with 0 is used.
  unfoldable pub remaining_time : (now : ℕ) → List (Entry M Y) → Option ℕ
  remaining_time now [] = none
  remaining_time now (x ∷ xs) = some (x.0 - now)

  -- The delayed messages after some operations, from the k-th reading on. A flush takes at most one
  -- reading for each message and one more.
  unfoldable pub after_operations :
      (clock : ℕ → ℕ) (k : ℕ) → List (Operation M Y) → List (Entry M Y) → List (Entry M Y)
  unfolding delayed_send flush_delayed_messages
  after_operations clock k [] l = l
  after_operations clock k (send_later time m ∷ ops) l =
      after_operations clock (suc k) ops (delayed_send (clock k) time m l)
  after_operations clock k (flush ∷ ops) l =
      after_operations clock (suc k) ops (flush_delayed_messages clock k l).1
