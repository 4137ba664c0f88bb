-- ===== src/Swsr/Protocol.antt =====
-- The two threads of a queue (core/zaf/swsr_delivery_queue.hpp, with the notification of
-- core/src/actor_behavior_x.cpp): an interleaving of the atomic accesses to the indices and to
-- `may_have_message`, one at a time (sequential consistency).
-- The writer runs `push(elem, notify_reader)`: it stores an item, then exchanges the flag, and sends
-- a notification if the flag was down. The reader serves the queue from the moment it receives a
-- notification; an empty `pop_some` that reaches `max_empty_read` makes it put the flag down, read
-- at most `max` further items and leave the queue until the next notification.
-- A writer that finds the queue full makes no step.
pub mod Wakeup
pub mod Lost
use zaf.Prelude.{ℕ, zero, suc, ◌+◌, ◌≡◌, ◌≢◌, Bool, true, false, min, if◌then◌else◌}
use zaf.Swsr.{
  Queue, add32, size, empty, is_full_for_writer, store_item, inc_write_progress, inc_read_progress,
  init, resize,
}
use zaf.Swsr.Reader.{advance}

-- Between two calls of `push`, or between its two atomic updates.
pub data WriterAt : Type 0 where
  between stored : WriterAt

-- Not serving the queue; serving it; about to put the flag down; about to load the writer's index
-- for the last `pop_some`; with so many items of that call left to read.
pub data ReaderAt : Type 0 where
  resting serving lowering lowered : ReaderAt
  draining : ℕ → ReaderAt

pub record Threads {ℓ} (A : Type ℓ) : Type ℓ where
  pub queue : Queue A
  pub writer : WriterAt
  pub reader : ReaderAt
  -- notifications sent and not yet received
  pub notified : ℕ

module _ {ℓ} {A : Type ℓ} where
  abbrev pub with_queue : Queue A → WriterAt → ReaderAt → ℕ → Threads A
  with_queue q w r n = record { queue = q; writer = w; reader = r; notified = n }

  -- `inc_write_progress` and the notification that it decides.
  unfoldable pub announce_flag : Queue A → ℕ → ReaderAt → Threads A
  unfolding inc_write_progress
  announce_flag q n r =
      let (q', was_down) = inc_write_progress q in
      with_queue q' between r (if was_down then n + 1 else n)

  -- One atomic access of one thread.
  pub data Step (max : ℕ) : Threads A → Threads A → Type ℓ where
    -- `push`: the item and the writer's index
    write :
        (x : A) {q : Queue A} {r : ReaderAt} {n : ℕ}
        → is_full_for_writer q ≡ false
        → Step max (with_queue q between r n) (with_queue (store_item x q) stored r n)
    -- `inc_write_progress`, and `notify_reader` if it returns true
    announce :
        {q : Queue A} {r : ReaderAt} {n : ℕ}
        → Step max (with_queue q stored r n) (announce_flag q n r)
    -- the reader receives SWSRMsgQueueNotification
    wake :
        {q : Queue A} {w : WriterAt} {n : ℕ}
        → Step max (with_queue q w resting (suc n)) (with_queue q w serving n)
    -- `pop_one` in a `pop_some` that reads something
    read :
        {q : Queue A} {w : WriterAt} {n : ℕ}
        → empty q ≡ false
        → Step max
            (with_queue q w serving n)
            (with_queue (record (advance q) { num_empty_read = 0 }) w serving n)
    -- an empty `pop_some` below the limit
    miss :
        {q : Queue A} {w : WriterAt} {n : ℕ}
        → empty q ≡ true
        → add32 q.num_empty_read 1 ≢ q.max_empty_read
        → Step max
            (with_queue q w serving n)
            (with_queue (record q { num_empty_read = add32 q.num_empty_read 1 }) w serving n)
    -- an empty `pop_some` that reaches the limit
    last_miss :
        {q : Queue A} {w : WriterAt} {n : ℕ}
        → empty q ≡ true
        → add32 q.num_empty_read 1 ≡ q.max_empty_read
        → Step max
            (with_queue q w serving n)
            (with_queue (record q { num_empty_read = add32 q.num_empty_read 1 }) w lowering n)
    -- `inc_read_progress`
    lower :
        {q : Queue A} {w : WriterAt} {n : ℕ}
        → Step max (with_queue q w lowering n) (with_queue (inc_read_progress q) w lowered n)
    -- the load of the writer's index in the last `pop_some`
    load :
        {q : Queue A} {w : WriterAt} {n : ℕ}
        → Step max (with_queue q w lowered n) (with_queue q w (draining (min (size q) max)) n)
    -- `pop_one` in the last `pop_some`
    drain :
        {q : Queue A} {w : WriterAt} {n k : ℕ}
        → Step max (with_queue q w (draining (suc k)) n) (with_queue (advance q) w (draining k) n)
    -- `num_empty_read = 0`, and the callback takes the queue off the active ones
    rest :
        {q : Queue A} {w : WriterAt} {n : ℕ}
        → Step max
            (with_queue q w (draining zero) n)
            (with_queue (record q { num_empty_read = 0 }) w resting n)

  pub data Reach (max : ℕ) (s : Threads A) : Threads A → Type ℓ where
    here : Reach max s s
    next : {t u : Threads A} → Reach max s t → Step max t u → Reach max s u

  -- Nothing is going on: the writer is between two pushes, no notification is under way, and the
  -- reader does not serve the queue.
  pub record IsQuiet (s : Threads A) : Type ℓ where
    pub writer_done : s.writer ≡ between
    pub reader_rests : s.reader ≡ resting
    pub none_notified : s.notified ≡ 0

-- A new queue with room for 2 ^ scale items, before its first message.
abbrev pub start {ℓ} : {A : Type ℓ} → A → ℕ → Threads A
start null scale = with_queue (resize null scale init) between resting 0
