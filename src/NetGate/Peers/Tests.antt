-- ===== src/NetGate/Peers/Tests.antt =====
-- A net gate at port 1 with one peer at port 2 (core/src/net_gate.cpp).
use zaf.Prelude.{ℕ, ◌+◌, ◌≤◌, ◌≡◌, refl, true, [], ◌∷◌, if◌then◌else◌, length, count}
use zaf.Actor.{ActorInfo, Actor}
use zaf.NetGate.Peers.{
  Gate, find_peer, handle_of, new_connection, establish_connection, terminate_gate, Reach, start,
  later, establishes, terminates, at_launch,
}
use zaf.NetGate.Peers.Orders.{terminations}
use zaf.NetGate.Peers.Detached.{Reach-detached}

abbrev port_of : ℕ → ℕ
port_of id = 4000 + id

abbrev connected : Gate
connected = (establish_connection (2 ∷ []) (at_launch (1 ∷ []) port_of 7)).1

to_connected : Reach (1 ∷ []) port_of 7 connected
to_connected = later start (establishes (2 ∷ []) refl)

abbrev ending : Gate
ending = terminate_gate connected

Reach-detached_example :
    (ending.num_detached_actors ≡ length ending.running + (if ending.activated then 1 else 0))
    × ((id : ℕ)
        → terminations id ending.orders ≡ (if ending.activated then 0 else count id ending.running))
    × ((id : ℕ) → count id ending.running ≤ 1)
Reach-detached_example = Reach-detached (later to_connected (terminates active))
  where
    active : connected.activated ≡ true
    active = unfold establish_connection find_peer new_connection in refl

abbrev of_peer : ActorInfo
of_peer = record { actor = handle_of 30; net_gate_url = 2 ∷ [] }
