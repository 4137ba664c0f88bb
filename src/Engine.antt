-- ===== src/Engine.antt =====
-- An executor of core/src/actor_engine.cpp: one thread that polls the sockets of several actors and
-- serves those that have a message. Its three vectors are three lists; the executor itself is at
-- index 0 of them.
-- An actor is its address, a number; `H` is the type of its handlers. A poll item is the handle of the
-- actor's socket, with whether the last poll found a message there.
pub mod Slots
pub mod Rounds
pub mod Balance
pub mod Load
pub mod Pool
mod Tests
use zaf.Prelude.{
  ℕ, zero, suc, ◌+◌, ◌-◌, ◌%◌, Bool, true, false, Option, none, some, List, [], ◌∷◌, ◌++◌,
  get_elem?, ltb, ◌==◌, if◌then◌else◌, back, pop_back, move_back, exchange_back,
}
use zaf.Serial.Codec.{◌>>=◌}

pub record PollItem : Type 0 where
  pub socket : ℕ
  pub revents : Bool

pub record Executor (H : Type 0) : Type 0 where
  pub actors : List ℕ
  pub handlers : List H
  pub poll_items : List PollItem
  pub num_poll_items : ℕ

-- What an executor is told to do; `rand` is what `rand()` returns meanwhile.
pub data Command (H : Type 0) : Type 0 where
  new_actor : (actor : ℕ) → Command H
  rebalance : (peer rand : ℕ) → Command H
  actor_transfer : (actor : ℕ) (handler : H) → Command H
  termination : Command H

module _ {H : Type 0} where
  -- `listen_to_actor`
  unfoldable pub listen_to_actor : (actor : ℕ) (handler : H) (socket : ℕ) → Executor H → Executor H
  listen_to_actor actor handler socket e = record {
    actors = e.actors ++ actor ∷ [];
    handlers = e.handlers ++ handler ∷ [];
    poll_items = e.poll_items ++ record { socket = socket; revents = false } ∷ [];
    num_poll_items = suc e.num_poll_items;
  }

  -- The removal of a stopped actor in `launch`. That `handlers` is swapped before `pop_back`, where the
  -- others are overwritten, makes no difference to what is left.
  unfoldable pub remove_actor : (i : ℕ) → Executor H → Executor H
  remove_actor i e = record {
    actors = move_back e.actors i;
    handlers = pop_back (exchange_back e.handlers i);
    poll_items = move_back e.poll_items i;
    num_poll_items = e.num_poll_items - 1;
  }

  -- The three swaps of the handler of Rebalance.
  unfoldable pub swap_to_back : (i : ℕ) → Executor H → Executor H
  swap_to_back i e = record {
    actors = exchange_back e.actors i;
    handlers = exchange_back e.handlers i;
    poll_items = exchange_back e.poll_items i;
    num_poll_items = e.num_poll_items;
  }

  -- The last actor is taken out of the vectors; `none` is a read of an empty vector.
  unfoldable pub take_last : Executor H → Option (Executor H × Option (ℕ × H))
  take_last e = do
    actor ← back e.actors
    handler ← back e.handlers
    some (
      record {
        actors = pop_back e.actors;
        handlers = pop_back e.handlers;
        poll_items = pop_back e.poll_items;
        num_poll_items = e.num_poll_items - 1;
      },
      some (actor, handler),
    )

  -- The handler of Rebalance: the executor without an actor, and the actor that is sent to the peer
  -- with its handlers.
  unfoldable pub on_rebalance : (rand : ℕ) → Executor H → Option (Executor H × Option (ℕ × H))
  unfolding swap_to_back take_last
  on_rebalance rand e =
      let i = 1 + rand % (e.num_poll_items - 1) in
      if e.num_poll_items == 1
      then some (e, none)
      else take_last (if i == e.num_poll_items - 1 then e else swap_to_back i e)

-- The world of the actors: `serve` is `receive_once` of an actor, with whether the actor is activated
-- afterwards, which it is not after an exception; `retire` is `stop`, `dec_num_alive_actors` and
-- `delete`.
module _ {H S : Type 0} (serve : ℕ → H → S → Bool × S) (retire : ℕ → S → S) where
  -- The loop's body for `i` from 1 on, with the next `i`. `none` is an index out of range.
  unfoldable pub visit : (i : ℕ) → Executor H → S → Option (ℕ × (Executor H × S))
  unfolding remove_actor
  visit i e s = do
    item ← get_elem? e.poll_items i
    elim item.revents [
      | false ↦ some (suc i, (e, s))
      | true ↦ do
        actor ← get_elem? e.actors i
        handler ← get_elem? e.handlers i
        let r = serve actor handler s
        some (if r.0 then (suc i, (e, r.1)) else (i, (remove_actor i e, retire actor r.1)))
    ]

  -- The loop; `none` if it is not done after `fuel` rounds.
  unfoldable pub serve_from : (fuel i : ℕ) → Executor H → S → Option (Executor H × S)
  unfolding visit
  serve_from zero i e s = if ltb i e.num_poll_items then none else some (e, s)
  serve_from (suc fuel) i e s = elim (ltb i e.num_poll_items) [
    | false ↦ some (e, s)
    | true ↦ visit i e s >>= λ r. serve_from fuel r.0 r.1.0 r.1.1
  ]

-- What follows from a command: the executor, the state, the ActorTransfer that is sent with its
-- receiver, and whether the executor goes on.
pub record Outcome (H S : Type 0) : Type 0 where
  pub executor : Executor H
  pub state : S
  pub sent : List (ℕ × Command H)
  pub activated : Bool

-- `start` is `activate` and `start` of an actor, with whether it is activated afterwards; `behavior`
-- and `socket_of` are what the actor gives for its handlers and its receiving socket.
module _ {H S : Type 0} (start : ℕ → S → Bool × S) (behavior : ℕ → H) (socket_of : ℕ → ℕ) where
  -- The handlers of `Executor::behavior`.
  unfoldable pub on_command : Command H → Executor H → S → Option (Outcome H S)
  unfolding listen_to_actor on_rebalance
  on_command (new_actor actor) e s =
      let r = start actor s in
      some (record {
        executor = if r.0 then listen_to_actor actor (behavior actor) (socket_of actor) e else e;
        state = r.1;
        sent = [];
        activated = true;
      })
  on_command (rebalance peer rand) e s = do
    r ← on_rebalance rand e
    some (record {
      executor = r.0;
      state = s;
      sent = elim r.1 [ none ↦ [] | some a ↦ (peer, actor_transfer a.0 a.1) ∷ [] ];
      activated = true;
    })
  on_command (actor_transfer actor handler) e s = some (record {
    executor = listen_to_actor actor handler (socket_of actor) e;
    state = s;
    sent = [];
    activated = true;
  })
  on_command termination e s =
      some (record { executor = e; state = s; sent = []; activated = false })

unfoldable pub retire_all : {S : Type 0} → (ℕ → S → S) → List ℕ → S → S
retire_all retire [] s = s
retire_all retire (a ∷ rest) s = retire_all retire rest (retire a s)

-- The end of `launch`: every actor but the executor itself is stopped, and the vectors are cleared.
unfoldable pub stop_executor : {H S : Type 0} → (ℕ → S → S) → Executor H → S → Executor H × S
unfolding retire_all
stop_executor retire e s = (
  record { actors = []; handlers = []; poll_items = []; num_poll_items = 0 },
  elim e.actors [ [] ↦ s | own ∷ actors ↦ retire_all retire actors s ],
)
