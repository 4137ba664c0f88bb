-- ===== src/NetGate/Binding/Tests.antt =====
-- The first random port is taken by another socket, the second is free (core/src/net_gate.cpp).
use zaf.Prelude.{ℕ, ◌≡◌, ◌≤◌, ◌<◌, ◌+◌, ◌*◌, refl, Bool, false, some, not, ◌==◌, arith}
use zaf.NetGate.Binding.{
  Sockets, new_net_gate_actor, initialize_send_socket, initialize_send_socket-stale_url,
}

abbrev rand : ℕ → ℕ
rand k = 100000 * k + 7

abbrev can_bind : ℕ → ℕ → Bool
can_bind k port = not (k == 0)

initialize_send_socket-stale_url_example :
    (t : Sockets) × (initialize_send_socket rand can_bind 3 (new_net_gate_actor 0) ≡ some t)
    × (10000 ≤ t.bind_port)
    × (t.bind_port < 65536)
    × (t.bound ≡ some t.bind_port)
    × (t.routing_id ≡ some t.bind_port)
    × (t.send_routing_id ≡ some t.bind_port)
    × (t.bind_url ≡ 0)
    × ((t.bind_url == t.bind_port) ≡ false)
initialize_send_socket-stale_url_example =
    initialize_send_socket-stale_url rand can_bind 3 1 (omega arith) refl
