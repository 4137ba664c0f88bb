-- ===== src/NetGate/Connection.antt =====
-- The connection of a `NetGateActor` with a peer (core/src/net_gate.cpp, core/zaf/net_gate.hpp): the
-- messages for the peer wait until its pong has come, and a ping is repeated until then.
pub mod Order
pub mod Control
pub mod Handshake
mod Tests
use zaf.Prelude.{
  ℕ, zero, suc, ◌+◌, Bool, true, false, Option, none, some, List, [], ◌∷◌, ◌++◌, if◌then◌else◌,
}
use zaf.Serial.{Bytes, serializer}
use zaf.Serial.Codec.{Codec, fresh_load, size_t, ◌>>=◌}
use zaf.Message.{MessageBody, serialized}

-- What the socket gets for the peer.
pub data Sent : Type 0 where
  ping : Sent
  pong : Sent
  message : Bytes → Sent

-- `retries` counts the PingRetry messages that are delayed.
pub record NetGateConn : Type 0 where
  pub is_ponged : Bool
  pub pending_messages : List Bytes
  pub net_out : List Sent
  pub retries : ℕ

abbrev messages : List Bytes → List Sent
messages [] = []
messages (m ∷ ms) = message m ∷ messages ms

-- The bytes of `send_to_net_gate`: the code, the hash of the types and the arguments.
unfoldable pub net_gate_bytes : {A : Type 0} → Codec A → ℕ → ℕ → A → Bytes
net_gate_bytes c msg_code type_hash args =
    (c.save args (size_t.save type_hash (size_t.save msg_code (serializer [])))).bytes

-- `receive_once_from_net_gate`: the body keeps all bytes, with the content behind the first sixteen.
unfoldable pub receive_from_net_gate : {A : Type 0} → Bytes → Option (MessageBody A)
receive_from_net_gate msg_bytes = do
  (msg_code, b) ← fresh_load size_t msg_bytes
  (types_hash, b) ← fresh_load size_t b
  some (serialized msg_code types_hash msg_bytes 16)

unfoldable pub send_to_net_gate : Bytes → NetGateConn → NetGateConn
send_to_net_gate bytes conn =
    if conn.is_ponged
    then record conn { net_out = conn.net_out ++ message bytes ∷ [] }
    else record conn { pending_messages = conn.pending_messages ++ bytes ∷ [] }

unfoldable pub imme_send_to_net_gate : Sent → NetGateConn → NetGateConn
imme_send_to_net_gate m conn = record conn { net_out = conn.net_out ++ m ∷ [] }

unfoldable pub ping_net_gate : NetGateConn → NetGateConn
unfolding imme_send_to_net_gate
ping_net_gate conn =
    if conn.is_ponged
    then conn
    else record (imme_send_to_net_gate ping conn) { retries = suc conn.retries }

unfoldable pub receive_pong : NetGateConn → NetGateConn
receive_pong conn = if conn.is_ponged then conn else record conn {
  is_ponged = true;
  net_out = conn.net_out ++ messages conn.pending_messages;
  pending_messages = [];
}

-- `establish_connection` for a new peer, up to the first ping.
unfoldable pub establish_connection : NetGateConn
unfolding ping_net_gate
establish_connection =
    ping_net_gate (record { is_ponged = false; pending_messages = []; net_out = []; retries = 0 })

-- What happens to a connection: a message for the peer, its ping, its pong, a delayed PingRetry.
pub data Event : Type 0 where
  send : Bytes → Event
  on_ping : Event
  on_pong : Event
  retry : Event

unfoldable pub on_event : Event → NetGateConn → NetGateConn
unfolding send_to_net_gate imme_send_to_net_gate receive_pong ping_net_gate
on_event (send bytes) conn = send_to_net_gate bytes conn
on_event on_ping conn = imme_send_to_net_gate pong conn
on_event on_pong conn = receive_pong conn
on_event retry conn = ping_net_gate conn

unfoldable pub run : List Event → NetGateConn → NetGateConn
unfolding on_event
run [] conn = conn
run (e ∷ es) conn = run es (on_event e conn)
