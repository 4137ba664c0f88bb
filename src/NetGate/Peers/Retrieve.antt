-- ===== src/NetGate/Peers/Retrieve.antt =====
-- Retrieval of an actor by its ActorInfo (core/src/net_gate.cpp, core/src/actor.cpp).
use zaf.Prelude.{ℕ, ◌<◌, ◌≡◌, Bool, Option, some, List, [], ◌∷◌}
use zaf.Serial.{Bytes}
use zaf.Actor.{NetSenderInfo, NetSenderRef, Actor}
use zaf.NetGate.Peers.{Peer, Gate, find_peer, handle_of}

-- The info of a connection with its Sender.
abbrev info_of : (bind_url url : Bytes) → Peer → NetSenderInfo
info_of bind_url url p = record {
  net_sender = handle_of p.sender;
  local_net_gate_url = bind_url;
  remote_net_gate_url = url;
}

abbrev AllNamed : Bytes → (NetSenderRef → NetSenderInfo) → ℕ → List (Bytes × Peer) → Type 0
AllNamed bind_url infos next [] = Unit
AllNamed bind_url infos next (c ∷ cs) =
    (c.1.net_sender_info < next)
    × (infos c.1.net_sender_info ≡ info_of bind_url c.0 c.1)
    × AllNamed bind_url infos next cs

abbrev Named : Gate → Type 0
Named g = AllNamed g.bind_url g.infos g.next_actor_id g.net_gate_connections

-- An established connection is found, and what it names is kept.
record Established (url : Bytes) (g h : Gate) : Type 0 where
  peer : Peer
  found : find_peer url h.net_gate_connections ≡ some peer
  named : Named h
  same : h.bind_url ≡ g.bind_url
