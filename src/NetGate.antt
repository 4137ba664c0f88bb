-- ===== src/NetGate.antt =====
-- core/zaf/net_gate.hpp, core/src/net_gate.cpp: the pair of `Sender` and `Receiver` that carries the
-- messages between two machines.
-- ZeroMQ is not modelled: a multipart message that a `Sender` hands to its push socket is an item of
-- `net_out`, and `Receiver` gets the two parts of such an item.
pub mod Wire
pub mod Sender
pub mod Connection
pub mod Lookup
pub mod Peers
pub mod Binding
pub mod Facade
mod Tests
use zaf.Prelude.{
  ℕ, zero, suc, ◌+◌, ◌%◌, ◌^◌, Bool, true, false, not, Option, none, some, List, [], ◌∷◌, ◌++◌,
  length, ◌==◌, if◌then◌else◌,
}
use zaf.Serial.{Bytes, to_bytes, read_bytes, read_pod}
use zaf.Serial.Codec.{fresh_load, size_t, unsigned, ◌>>=◌}
use zaf.Actor.{LocalActorHandle, NetSenderRef, RemoteActorHandle, Actor, remote, handle_codec}
use zaf.Message.{MessageBytes}

-- The two parts of a multipart message.
pub record Batch : Type 0 where
  pub num_messages : Bytes
  pub message_bytes : Bytes

-- `TypedMessage<TypedSerializedMessageBody>` and the actor that it is sent to.
pub record Delivery : Type 0 where
  pub recv_actor : LocalActorHandle
  pub sender : Actor
  pub message_code : ℕ
  pub types_hash : ℕ
  pub bytes : Bytes

-- One round of the loop of `Receiver::receive_once_from_net`.
unfoldable pub read_message : NetSenderRef → Bytes → Option (Delivery × Bytes)
read_message net_sender_info b = do
  (send_actor, b) ← fresh_load handle_codec b
  (recv_actor, b) ← fresh_load handle_codec b
  (message_code, b) ← fresh_load size_t b
  (types_hash, b) ← fresh_load size_t b
  (num_bytes, b) ← fresh_load unsigned b
  (bytes, b) ← read_bytes num_bytes b
  some (
    record {
      recv_actor = recv_actor;
      sender =
          remote (record { net_sender_info = some net_sender_info; remote_actor = send_actor });
      message_code = message_code;
      types_hash = types_hash;
      bytes = bytes;
    },
    b,
  )

unfoldable pub read_messages : NetSenderRef → ℕ → Bytes → Option (List Delivery)
unfolding read_message
read_messages net_sender_info zero b = some []
read_messages net_sender_info (suc n) b = do
  (d, b') ← read_message net_sender_info b
  ds ← read_messages net_sender_info n b'
  some (d ∷ ds)

-- `Receiver::receive_once_from_net`: what it sends, in order.
unfoldable pub receive_once_from_net : NetSenderRef → Batch → Option (List Delivery)
unfolding read_messages
receive_once_from_net net_sender_info batch = do
  (num_messages, rest) ← read_pod 4 batch.num_messages
  read_messages net_sender_info num_messages batch.message_bytes

-- The rounds of `Receiver::launch` for what its socket gets.
unfoldable pub receive_all : NetSenderRef → List Batch → Option (List Delivery)
receive_all net_sender_info [] = some []
receive_all net_sender_info (batch ∷ batches) = do
  ds ← receive_once_from_net net_sender_info batch
  more ← receive_all net_sender_info batches
  some (ds ++ more)
