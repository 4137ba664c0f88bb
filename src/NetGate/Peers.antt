-- ===== src/NetGate/Peers.antt =====
-- The peers of a `NetGateActor` (core/src/net_gate.cpp, core/zaf/net_gate.hpp): a connection has a Sender and a
-- Receiver, which are detached actors, and which end when the net gate does.
-- The address of the `net_sender_info` of a connection is named by the id of its Sender. What a
-- connection does with pings and pending messages is in NetGate/Connection, lookups are in
-- NetGate/Lookup.
pub mod Orders
pub mod Detached
pub mod Retrieve
mod Tests
use zaf.Prelude.{
  ℕ, suc, ◌+◌, ◌-◌, ◌<◌, ◌≡◌, count, Bool, true, false, ◌&&◌, Option, none, some, List, [], ◌∷◌,
  ◌++◌, ◌==◌, if◌then◌else◌,
}
use zaf.Serial.{Bytes}
use zaf.Serial.Codec.{◌>>=◌}
use zaf.Actor.{
  LocalActorHandle, NetSenderInfo, NetSenderRef, ActorInfo, Actor, local, remote, no_handle,
}
use zaf.NetGate.Lookup.{assign}

unfoldable pub url_eq : Bytes → Bytes → Bool
url_eq [] [] = true
url_eq [] (y ∷ ys) = false
url_eq (x ∷ xs) [] = false
url_eq (x ∷ xs) (y ∷ ys) = (x == y) && url_eq xs ys

-- What the net gate sends to a Sender or a Receiver.
pub data Order : Type 0 where
  data_conn_req : (host : Bytes) (port : ℕ) → Order
  termination : Order

pub record Peer : Type 0 where
  pub sender : ℕ
  pub receiver : ℕ
  pub net_sender_info : NetSenderRef

-- `infos` is what the addresses point to, `bind_ports` the port that the Receiver of an id binds.
-- `running` are the Senders and Receivers that run, `orders` what they have been sent and have not
-- handled yet, and `data_conn_reqs` the ports that the peers have been told.
pub record Gate : Type 0 where
  pub bind_url : Bytes
  pub net_gate_connections : List (Bytes × Peer)
  pub infos : NetSenderRef → NetSenderInfo
  pub bind_ports : ℕ → ℕ
  pub activated : Bool
  pub next_actor_id : ℕ
  pub num_detached_actors : ℕ
  pub running : List ℕ
  pub orders : List (ℕ × Order)
  pub data_conn_reqs : List (Bytes × ℕ)

unfoldable pub find_peer : Bytes → List (Bytes × Peer) → Option Peer
unfolding url_eq
find_peer url [] = none
find_peer url (c ∷ cs) = if url_eq url c.0 then some c.1 else find_peer url cs

-- The handle of an `ActorBehaviorX`.
abbrev pub handle_of : ℕ → LocalActorHandle
handle_of id = record { local_actor_id = id; use_swsr_msg_delivery = true }

-- The branch of `establish_connection` for a new peer, which waits for the Receiver's answer to
-- BindPortReq.
unfoldable pub new_connection : Bytes → Gate → Gate
new_connection url g =
    let sender = g.next_actor_id in
    let receiver = suc sender in
    let peer : Peer = record { sender = sender; receiver = receiver; net_sender_info = sender } in
    let info : NetSenderInfo = record {
      net_sender = handle_of sender;
      local_net_gate_url = g.bind_url;
      remote_net_gate_url = url;
    } in
    record g {
      net_gate_connections = (url, peer) ∷ g.net_gate_connections;
      infos = assign sender info g.infos;
      next_actor_id = suc receiver;
      num_detached_actors = g.num_detached_actors + 2;
      running = sender ∷ receiver ∷ g.running;
      data_conn_reqs = g.data_conn_reqs ++ (url, g.bind_ports receiver) ∷ [];
    }

unfoldable pub establish_connection : Bytes → Gate → Bool × Gate
unfolding find_peer new_connection
establish_connection url g = elim (find_peer url g.net_gate_connections) [
  | some peer ↦ (false, g)
  | none ↦ (true, new_connection url g)
]

-- DataConnReq of a peer; `none` is the exception "Non-connected net gate".
unfoldable pub forward_data_conn_req : (peer host : Bytes) (port : ℕ) → Gate → Option Gate
unfolding find_peer
forward_data_conn_req peer host port g = do
  p ← find_peer peer g.net_gate_connections
  some (record g { orders = g.orders ++ (p.sender, data_conn_req host port) ∷ [] })

abbrev pub terminations_for : List (Bytes × Peer) → List (ℕ × Order)
terminations_for [] = []
terminations_for (c ∷ cs) =
    (c.1.sender, termination) ∷ (c.1.receiver, termination) ∷ terminations_for cs

-- Termination of the net gate.
unfoldable pub terminate_gate : Gate → Gate
terminate_gate g = record g {
  orders = g.orders ++ terminations_for g.net_gate_connections;
  num_detached_actors = g.num_detached_actors - 1;
  activated = false;
}

-- RetrieveActorReq: the actor of the reply; `none` is the exception of `at`.
unfoldable pub on_retrieve_actor_req : ActorInfo → Gate → Option (Actor × Gate)
unfolding url_eq establish_connection find_peer
on_retrieve_actor_req info g =
    if url_eq info.net_gate_url g.bind_url
    then some (local info.actor, g)
    else (let g' = (establish_connection info.net_gate_url g).1 in
        do
          peer ← find_peer info.net_gate_url g'.net_gate_connections
          some (
            remote
                (record { net_sender_info = some peer.net_sender_info; remote_actor = info.actor }),
            g',
          ))

-- The first order for an actor, and the others.
unfoldable pub take_order : ℕ → List (ℕ × Order) → Option (Order × List (ℕ × Order))
take_order id [] = none
take_order id (o ∷ os) =
    let rest = take_order id os in
    if id == o.0 then some (o.1, os) else (rest >>= λ r. some (r.0, o ∷ r.1))

abbrev pub leave : ℕ → List ℕ → List ℕ
leave id [] = []
leave id (x ∷ xs) = if id == x then xs else x ∷ leave id xs

-- A Sender or a Receiver handles an order. A Sender may put Termination off, which changes nothing
-- here.
unfoldable pub carry_out : ℕ → Order → List (ℕ × Order) → Gate → Gate
carry_out id (data_conn_req host port) rest g = record g { orders = rest }
carry_out id termination rest g = record g {
  orders = rest;
  num_detached_actors = g.num_detached_actors - 1;
  running = leave id g.running;
}

-- `establishes` stands for every handler that calls establish_connection: NetGateConnReq,
-- ActorLookupReq, Ping and RetrieveActorReq.
pub data Step : Gate → Gate → Type 0 where
  establishes :
      {g : Gate} (url : Bytes) → g.activated ≡ true → Step g (establish_connection url g).1
  forwards :
      {g g' : Gate} (peer host : Bytes) (port : ℕ)
      → g.activated ≡ true
      → forward_data_conn_req peer host port g ≡ some g'
      → Step g g'
  terminates : {g : Gate} → g.activated ≡ true → Step g (terminate_gate g)
  works :
      {g : Gate} (id : ℕ) (o : Order) (rest : List (ℕ × Order))
      → 0 < count id g.running
      → take_order id g.orders ≡ some (o, rest)
      → Step g (carry_out id o rest g)

-- After `launch` has counted the net gate itself; `first` is the id of the next actor.
abbrev pub at_launch : Bytes → (bind_ports : ℕ → ℕ) → (first : ℕ) → Gate
at_launch url bind_ports first = record {
  bind_ports = bind_ports;
  data_conn_reqs = [];
  bind_url = url;
  net_gate_connections = [];
  infos = λ r. record { net_sender = no_handle; local_net_gate_url = []; remote_net_gate_url = [] };
  activated = true;
  next_actor_id = first;
  num_detached_actors = 1;
  running = [];
  orders = [];
}

pub data Reach (url : Bytes) (bind_ports : ℕ → ℕ) (first : ℕ) : Gate → Type 0 where
  start : Reach url bind_ports first (at_launch url bind_ports first)
  later : {g h : Gate} → Reach url bind_ports first g → Step g h → Reach url bind_ports first h
