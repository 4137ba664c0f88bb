-- ===== src/BehaviorX/Connect.antt =====
-- The set-up and the use of SWSR queues between an `ActorBehaviorX` and its senders
-- (core/src/actor_behavior_x.cpp): each sender with its queue to one receiver, and that receiver. The
-- messages that a sender sends to the receiver through ZeroMQ arrive in the order of their sending.
-- The queue to the actor itself is in both maps from the start. A queue that is full makes its writer
-- wait. How many empty reads there are before the flag is put down is left open, and the deactivation
-- of the receiver is left out.
pub mod Phases
pub mod Sending
pub mod Serving
pub mod Fields
pub mod Unread
pub mod Linked
pub mod Erased
mod Tests
use zaf.Prelude.{
  ℕ, ◌<◌, ◌≡◌, length, drop, Bool, true, false, Option, none, some, List, [], ◌∷◌, ◌++◌, ◌==◌,
  if◌then◌else◌,
}
use zaf.BehaviorX.{ActorBehaviorX, member, erase, fill_hole, register_swsr_queue, notify_swsr_queue}

pub data Notice : Type 0 where
  registration notification : Notice

-- A sender's view: whether `swsr_send_queues` has the receiver; of the queue the flag
-- `is_writing_by_sender`, which the sender's destructor takes back, `may_have_message` and the items;
-- the messages to the receiver on their way through ZeroMQ.
pub record Link (M : Type 0) : Type 0 where
  pub connected : Bool
  pub is_writing_by_sender : Bool
  pub may_have_message : Bool
  pub items : List M
  pub notices : List Notice

-- The receiver with the links from all senders; the queue that `pop_some` has just found empty; the one
-- of which it has put the flag down but has not yet run the callback; and whether it has still to
-- read from that once more.
pub record Links (M : Type 0) : Type 0 where
  pub receiver : ActorBehaviorX (ℕ → Link M)
  pub found_empty : Option ℕ
  pub leaving : Option ℕ
  pub last_read_due : Bool

module _ {M : Type 0} where
  abbrev pub unconnected : Link M
  unconnected = record {
    connected = false;
    is_writing_by_sender = true;
    may_have_message = false;
    items = [];
    notices = [];
  }

  unfoldable pub setup_swsr_connection : Link M → Link M
  setup_swsr_connection l =
      if l.connected
      then l
      else record l { connected = true; notices = l.notices ++ registration ∷ [] }

  -- `push(m, notify_reader)` of the queue.
  unfoldable pub push_message : M → Link M → Link M
  push_message m l = record l {
    items = l.items ++ m ∷ [];
    may_have_message = true;
    notices = if l.may_have_message then l.notices else l.notices ++ notification ∷ [];
  }

  -- `send` to a local actor that uses SWSR delivery.
  unfoldable pub send : M → Link M → Link M
  unfolding setup_swsr_connection push_message
  send m l = push_message m (setup_swsr_connection l)

  -- `~ActorBehaviorX` of the sender.
  unfoldable pub destruct : Link M → Link M
  destruct l = record l { is_writing_by_sender = false }

  abbrev pub link : ℕ → Links M → Link M
  link q s = s.receiver.state q

  abbrev pub set_link : ℕ → Link M → Links M → Links M
  set_link q l s = record s {
    receiver = record s.receiver { state = λ p. if p == q then l else s.receiver.state p };
  }

  abbrev pub drop_first : List M → List M
  drop_first [] = []
  drop_first (x ∷ xs) = xs

  -- What follows an empty read in `consume_swsr_recv_queues`, for a queue between `done` and `rest`
  -- in the vector.
  unfoldable pub leave_queue : (q : ℕ) (done rest : List ℕ) → Links M → Links M
  unfolding erase fill_hole
  leave_queue q done rest s = record {
    found_empty = none;
    leaving = none;
    last_read_due = false;
    receiver = record s.receiver {
      swsr_recv_queues =
          if (link q s).is_writing_by_sender
          then s.receiver.swsr_recv_queues
          else erase q s.receiver.swsr_recv_queues;
      active_recv_queues = done ++ fill_hole rest;
    };
  }

  -- What one of the threads does, with queues of a capacity and reads of at most `limit` messages. A
  -- sender that is destroyed sends nothing.
  pub data Step (capacity limit : ℕ) : Links M → Links M → Type 0 where
    sends :
        {s : Links M} (q : ℕ) (m : M)
        → (link q s).is_writing_by_sender ≡ true
        → length (link q s).items < capacity
        → Step capacity limit s (set_link q (send m (link q s)) s)
    destroys : {s : Links M} (q : ℕ) → Step capacity limit s (set_link q (destruct (link q s)) s)
    -- The receiver handles SWSRMsgQueueRegistration, or SWSRMsgQueueNotification.
    registers :
        {s : Links M} (q : ℕ) (rest : List Notice)
        → (link q s).notices ≡ registration ∷ rest
        → Step capacity limit s (
            set_link q
              (record (link q s) { notices = rest })
              (record s { receiver = register_swsr_queue q s.receiver }))
    notifies :
        {s : Links M} (q : ℕ) (rest : List Notice) (a : ActorBehaviorX (ℕ → Link M))
        → (link q s).notices ≡ notification ∷ rest
        → notify_swsr_queue q s.receiver ≡ some a
        → Step capacity limit s
            (set_link q (record (link q s) { notices = rest }) (record s { receiver = a }))
    -- `pop_some` reads an item of an active queue, or finds it empty.
    reads :
        {s : Links M} (q : ℕ)
        → member q s.receiver.active_recv_queues ≡ true
        → s.leaving ≡ none
        → Step capacity limit s (
            set_link q
              (record (link q s) { items = drop_first (link q s).items })
              (record s { found_empty = none }))
    finds_empty :
        {s : Links M} (q : ℕ)
        → member q s.receiver.active_recv_queues ≡ true
        → s.leaving ≡ none
        → (link q s).items ≡ []
        → Step capacity limit s (record s { found_empty = some q })
    -- `inc_read_progress`
    lowers :
        {s : Links M} (q : ℕ)
        → member q s.receiver.active_recv_queues ≡ true
        → s.leaving ≡ none
        → s.found_empty ≡ some q
        → Step capacity limit s (
            set_link q
              (record (link q s) { may_have_message = false })
              (record s { found_empty = none; leaving = some q; last_read_due = true }))
    -- The last `pop_some`.
    reads_last :
        {s : Links M} (q : ℕ)
        → s.leaving ≡ some q
        → s.last_read_due ≡ true
        → Step capacity limit s (
            set_link q
              (record (link q s) { items = drop limit (link q s).items })
              (record s { last_read_due = false }))
    leaves :
        {s : Links M} (q : ℕ) (done rest : List ℕ)
        → s.receiver.active_recv_queues ≡ done ++ q ∷ rest
        → s.leaving ≡ some q
        → s.last_read_due ≡ false
        → Step capacity limit s (leave_queue q done rest s)

  -- After `initialize_actor` of the receiver.
  abbrev pub initial : (self : ℕ) → Links M
  initial self = record {
    found_empty = none;
    leaving = none;
    last_read_due = false;
    receiver = record {
      swsr_recv_queues = self ∷ [];
      active_recv_queues = [];
      consumptions = 0;
      state = λ q. if q == self then record unconnected { connected = true } else unconnected;
    };
  }

  pub data Reach (capacity limit self : ℕ) : Links M → Type 0 where
    start : Reach capacity limit self (initial self)
    later :
        {s t : Links M}
        → Reach capacity limit self s
        → Step capacity limit s t
        → Reach capacity limit self t
