-- ===== src/Engine/Pool.antt =====
-- `ActorEngine` of core/src/actor_engine.cpp: the executors of an engine, with the commands that are
-- sent to them and not yet handled, in any order of their steps.
-- `stopped` and `abandoned` are no members of the engine: they list the actors that were stopped and
-- deleted, and those that had deactivated themselves in their `start`, which NewActor then forgets.
pub mod Held
pub mod Served
pub mod Conserved
mod Tests
use zaf.Prelude.{
  ℕ, suc, ◌+◌, ◌-◌, ◌%◌, ◌^◌, ◌<◌, ◌≡◌, Bool, true, false, Option, none, some, List, [], ◌∷◌, ◌++◌,
  map, length, if◌then◌else◌,
}
use zaf.Engine.{
  PollItem, Executor, Command, new_actor, rebalance, Outcome, on_command, serve_from, stop_executor,
  listen_to_actor,
}

pub record Pool (H W : Type 0) : Type 0 where
  pub executors : List (Executor H)
  pub in_flight : List (ℕ × Command H)
  pub next_executor : ℕ
  pub world : W
  pub spawned : List ℕ
  pub stopped : List ℕ
  pub abandoned : List ℕ

-- An executor at the start of `launch`: it listens to itself.
unfoldable pub launched : {H : Type 0} → (ℕ → ℕ) → ℕ × H → Executor H
unfolding listen_to_actor
launched socket_of own =
    listen_to_actor own.0 own.1 (socket_of own.0)
      (record { actors = []; handlers = []; poll_items = []; num_poll_items = 0 })

-- `initialize`, with the executors and their handlers.
unfoldable pub initialize : {H W : Type 0} → (ℕ → ℕ) → List (ℕ × H) → W → Pool H W
unfolding launched
initialize socket_of owns world = record {
  executors = map (launched socket_of) owns;
  in_flight = [];
  next_executor = 0;
  world = world;
  spawned = [];
  stopped = [];
  abandoned = [];
}

-- `zmq::poll`: `readable` tells which sockets have a message.
unfoldable pub poll : {H : Type 0} → (ℕ → Bool) → Executor H → Executor H
poll readable e = record e {
  poll_items = map (λ p. record { socket = p.socket; revents = readable p.socket }) e.poll_items;
}

-- `spawn`, once the actor is initialized.
unfoldable pub spawn : {H W : Type 0} → ℕ → Pool H W → Pool H W
spawn actor p = record p {
  in_flight = p.in_flight ++ (p.next_executor % length p.executors, new_actor actor) ∷ [];
  next_executor = suc p.next_executor % 2 ^ 64;
  spawned = actor ∷ p.spawned;
}

-- What the handler of NewActor forgets.
abbrev pub forgotten : {H W : Type 0} → (ℕ → W → Bool × W) → Command H → W → List ℕ
forgotten start (new_actor actor) w = if (start actor w).0 then [] else actor ∷ []
forgotten start _ w = []

-- The world with the list of the stopped actors.
abbrev pub serve :
    {H W : Type 0} → (ℕ → H → W → Bool × W) → ℕ → H → W × List ℕ → Bool × (W × List ℕ)
serve receive_once actor handler s = let r = receive_once actor handler s.0 in (r.0, (r.1, s.1))

abbrev pub retire : {W : Type 0} → (ℕ → W → W) → ℕ → W × List ℕ → W × List ℕ
retire stop actor s = (stop actor s.0, actor ∷ s.1)

module _ {H W : Type 0} (start : ℕ → W → Bool × W) (behavior : ℕ → H) (socket_of : ℕ → ℕ)
    (receive_once : ℕ → H → W → Bool × W) (stop : ℕ → W → W) where
  -- The step of the executor at index `length before`. An executor that has left its `launch` has no
  -- poll items and takes no step.
  pub data Step : Pool H W → Pool H W → Type 0 where
    spawns : {p : Pool H W} (actor : ℕ) → 0 < length p.executors → Step p (spawn actor p)
    asks :
        {p : Pool H W} (busy idle rand : ℕ)
        → Step p (record p { in_flight = p.in_flight ++ (busy, rebalance idle rand) ∷ [] })
    obeys :
        {p : Pool H W} (before after : List (Executor H)) (e : Executor H)
        (sent_before sent_after : List (ℕ × Command H)) (c : Command H) (o : Outcome H W)
        → p.executors ≡ before ++ e ∷ after
        → p.in_flight ≡ sent_before ++ (length before, c) ∷ sent_after
        → 0 < e.num_poll_items
        → on_command start behavior socket_of c e p.world ≡ some o
        → Step p (record p {
          executors = before ++ o.executor ∷ after;
          in_flight = (sent_before ++ sent_after) ++ o.sent;
          world = o.state;
          abandoned = forgotten start c p.world ++ p.abandoned;
        })
    serves :
        {p : Pool H W} (before after : List (Executor H)) (e e' : Executor H) (readable : ℕ → Bool)
        (s : W × List ℕ)
        → p.executors ≡ before ++ e ∷ after
        → 0 < e.num_poll_items
        → serve_from
            (serve receive_once)
            (retire stop)
            (e.num_poll_items - 1)
            1
            (poll readable e)
            (p.world, p.stopped)
          ≡ some (e', s)
        → Step p (record p { executors = before ++ e' ∷ after; world = s.0; stopped = s.1 })
    leaves :
        {p : Pool H W} (before after : List (Executor H)) (e e' : Executor H) (s : W × List ℕ)
        → p.executors ≡ before ++ e ∷ after
        → stop_executor (retire stop) e (p.world, p.stopped) ≡ (e', s)
        → Step p (record p { executors = before ++ e' ∷ after; world = s.0; stopped = s.1 })

  -- Runs, the last step outermost.
  pub data Steps : Pool H W → Pool H W → Type 0 where
    none_yet : {p : Pool H W} → Steps p p
    later : {p q r : Pool H W} → Steps p q → Step q r → Steps p r
