-- ===== src/Swsr/Reader.antt =====
-- The reader's side of core/zaf/swsr_delivery_queue.hpp: `pop_one` and the overloads of `pop_some`.
-- A handler is called with an item and may change the queue (it may call `stop_pop_some`, or push
-- to a queue that its own thread writes) and a state of its own. `none` is a read out of the buffer.
pub mod Drain
pub mod Idle
use zaf.Prelude.{
  ℕ, zero, suc, ◌+◌, Bool, true, false, ◌||◌, Option, none, some, ◌==◌, if◌then◌else◌,
}
use zaf.Swsr.{Queue, add32, top, inc_read_progress}

abbrev pub Handler {ℓ κ} : Type ℓ → Type κ → Type (ℓ ⊔ κ)
Handler A S = A → Queue A → S → Queue A × S

-- The callback that `pop_some` makes when it has found the queue empty often enough.
abbrev pub OnIdle {ℓ κ} : Type ℓ → Type κ → Type (ℓ ⊔ κ)
OnIdle A S = Queue A → S → Queue A × S

module _ {ℓ} {A : Type ℓ} where
  -- `read_idx.fetch_add(1)`.
  unfoldable pub advance : Queue A → Queue A
  advance q = record q { read_idx = add32 q.read_idx 1 }

module _ {ℓ κ} {A : Type ℓ} {S : Type κ} where
  unfoldable pub pop_one : Handler A S → Queue A → S → Option (Queue A × S)
  pop_one h q s = elim (top q) [
    | none ↦ none
    | some x ↦ let (q', s') = h x q s in some (advance q', s')
  ]

  -- The loop of `pop_some`. `w` was read before it, `r` and `num_read` are its own counters, and
  -- `left` is `max_messages_read - num_read`.
  pub pop_loop : Handler A S → ℕ → ℕ → ℕ → ℕ → Queue A → S → Option (Queue A × S × ℕ)
  pop_loop h w r zero num_read q s = some (q, s, num_read)
  pop_loop h w r (suc left) num_read q s =
      let round : Option (Queue A × S × ℕ) = elim (pop_one h q s) [
        | none ↦ none
        | some (q', s') ↦ pop_loop h w (add32 r 1) left (num_read + 1) q' s'
      ] in
      if (r == w) || q.flag_stop_pop_some then some (q, s, num_read) else round

  -- `pop_some(handler, max_messages_read)`.
  unfoldable pub pop_some : Handler A S → ℕ → Queue A → S → Option (Queue A × S × ℕ)
  unfolding pop_loop
  pop_some h max q s =
      pop_loop h q.write_idx q.read_idx max 0 (record q { flag_stop_pop_some = false }) s

  -- `pop_some(handler)`.
  unfoldable pub pop_some_limited : Handler A S → Queue A → S → Option (Queue A × S × ℕ)
  pop_some_limited h q s = pop_some h q.max_messages_read q s

  -- The step of the idle reader: one more empty read; at `max_empty_read` of them the reader gives
  -- up its notification, reads once more and makes the callback.
  pub empty_read : Handler A S → OnIdle A S → ℕ → Queue A → S → Option (Queue A × S)
  empty_read h on_idle max q s =
      let counted : Queue A = record q { num_empty_read = add32 q.num_empty_read 1 } in
      let again : Option (Queue A × S) = elim (pop_some h max (inc_read_progress counted) s) [
        | none ↦ none
        | some (q', s', n) ↦ some (on_idle (record q' { num_empty_read = 0 }) s')
      ] in
      if counted.num_empty_read == counted.max_empty_read then again else some (counted, s)

  -- `pop_some(handler, on_reach_max_empty_read, max_messages_read)`.
  unfoldable pub pop_some_idle : Handler A S → OnIdle A S → ℕ → Queue A → S → Option (Queue A × S)
  unfolding empty_read
  pop_some_idle h on_idle max q s = elim (pop_some h max q s) [
    | none ↦ none
    | some (q', s', n) ↦
        if n == 0
        then empty_read h on_idle max q' s'
        else some (record q' { num_empty_read = 0 }, s')
  ]

  -- `pop_some(handler, on_reach_max_empty_read)`.
  unfoldable pub pop_some_default : Handler A S → OnIdle A S → Queue A → S → Option (Queue A × S)
  pop_some_default h on_idle q s = pop_some_idle h on_idle q.max_empty_read q s
