-- ===== src/BehaviorX.antt =====
-- `ActorBehaviorX` of core/src/actor_behavior_x.cpp: an actor that reads the SWSR queues of its
-- senders. A queue is named by the id of its sender.
-- `S` is the state of the queues and of what the handlers change. `serve` is `pop_some` of one queue
-- with the callback that sets `empty`; the handlers of a round do not touch `active_recv_queues`,
-- which only SWSRMsgQueueNotification does, and that is no message of an SWSR queue.
pub mod Connect
pub mod Rounds
pub mod Scheduled
mod Tests
use zaf.Prelude.{
  ℕ, zero, suc, ◌+◌, Bool, true, false, not, Option, none, some, List, [], ◌∷◌, ◌++◌, length, ◌==◌,
  if◌then◌else◌,
}

pub record ActorBehaviorX (S : Type 0) : Type 0 where
  pub swsr_recv_queues : List ℕ
  pub active_recv_queues : List ℕ
  -- The SWSRMsgQueueConsumption messages that the actor has sent to itself and not yet handled.
  pub consumptions : ℕ
  pub state : S

unfoldable pub member : ℕ → List ℕ → Bool
member x [] = false
member x (y ∷ ys) = if x == y then true else member x ys

unfoldable pub erase : ℕ → List ℕ → List ℕ
erase x [] = []
erase x (y ∷ ys) = if x == y then ys else y ∷ erase x ys

unfoldable pub is_nil : List ℕ → Bool
is_nil [] = true
is_nil (x ∷ xs) = false

-- The last of `x ∷ xs`, and the others.
unfoldable pub split_last : ℕ → List ℕ → ℕ × List ℕ
split_last x [] = (x, [])
split_last x (y ∷ ys) = let r = split_last y ys in (r.0, x ∷ r.1)

-- `active[i] = active.back(); active.pop_back()`, for the part of the vector from `i` on without its
-- first.
unfoldable pub fill_hole : List ℕ → List ℕ
unfolding split_last
fill_hole [] = []
fill_hole (x ∷ xs) = let r = split_last x xs in r.0 ∷ r.1

-- `register_swsr_queue`: `emplace` leaves a queue of the same sender in place.
unfoldable pub register_swsr_queue : {S : Type 0} → ℕ → ActorBehaviorX S → ActorBehaviorX S
unfolding member
register_swsr_queue sender_id a =
    if member sender_id a.swsr_recv_queues
    then a
    else record a { swsr_recv_queues = sender_id ∷ a.swsr_recv_queues }

-- `notify_swsr_queue`; `none` is the exception of `at`.
unfoldable pub notify_swsr_queue : {S : Type 0} → ℕ → ActorBehaviorX S → Option (ActorBehaviorX S)
unfolding member is_nil
notify_swsr_queue sender_id a =
    if member sender_id a.swsr_recv_queues
    then some (record a {
      active_recv_queues = a.active_recv_queues ++ sender_id ∷ [];
      consumptions = if is_nil a.active_recv_queues then suc a.consumptions else a.consumptions;
    })
    else none

module _ {S : Type 0} (serve : ℕ → S → Bool × S) (is_writing_by_sender : ℕ → S → Bool) where
  -- The loop of `consume_swsr_recv_queues` in `k` rounds: `done` is the part of the vector before
  -- `i`, `rest` the part from `i` on, `trace` the queues that were served and whether `serve` found each empty.
  unfoldable pub consume_loop :
      ℕ → List ℕ → List ℕ → List ℕ → List (ℕ × Bool) → S → List ℕ × List ℕ × List (ℕ × Bool) × S
  unfolding fill_hole erase
  consume_loop zero done rest recv trace s = (done ++ rest, recv, trace, s)
  consume_loop (suc k) done [] recv trace s = (done, recv, trace, s)
  consume_loop (suc k) done (q ∷ rest) recv trace s =
      let r = serve q s in
      let recv' = if is_writing_by_sender q r.1 then recv else erase q recv in
      let removed = consume_loop k done (fill_hole rest) recv' (trace ++ (q, r.0) ∷ []) r.1 in
      let kept = consume_loop k (done ++ q ∷ []) rest recv (trace ++ (q, r.0) ∷ []) r.1 in
      if r.0 then removed else kept

  -- Also gives what was served.
  unfoldable pub consume_swsr_recv_queues : ActorBehaviorX S → ActorBehaviorX S × List (ℕ × Bool)
  unfolding consume_loop
  consume_swsr_recv_queues a =
      let r =
        consume_loop (length a.active_recv_queues) [] a.active_recv_queues a.swsr_recv_queues []
          a.state in
      (record a { swsr_recv_queues = r.1; active_recv_queues = r.0; state = r.3 }, r.2)

  -- The handler of SWSRMsgQueueConsumption, with `post_swsr_consumption`.
  unfoldable pub on_consumption : (S → S) → ActorBehaviorX S → ActorBehaviorX S × List (ℕ × Bool)
  unfolding consume_swsr_recv_queues is_nil
  on_consumption post_swsr_consumption a =
      let r = consume_swsr_recv_queues a in
      (
        record r.0 {
          consumptions =
              if is_nil r.0.active_recv_queues then r.0.consumptions else suc r.0.consumptions;
          state = post_swsr_consumption r.0.state;
        },
        r.1,
      )
