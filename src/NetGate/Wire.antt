-- ===== src/NetGate/Wire.antt =====
-- What a `Receiver` takes out of the bytes that `MessageBytes::make` built
-- (core/zaf/message_bytes.hpp, core/src/net_gate.cpp).
use zaf.Prelude.{
  ℕ, ◌≡◌, refl, subst, some, List, [], ◌∷◌, ◌++◌, length, append_assoc, append-nil, map,
}
use zaf.Serial.{Bytes, to_bytes, read_pod}
use zaf.Serial.Pod.{read_bytes-append, read_pod-to_bytes}
use zaf.Serial.Codec.{Codec, pod}
use zaf.Serial.RoundTrip.{encode, pod-save, FitsPod}
use zaf.Serial.Containers.{All}
use zaf.Actor.{LocalActorHandle, NetSenderRef, remote, handle_codec}
use zaf.Actor.Wire.{handle-IsLawful, FitsHandle}
use zaf.Message.{MessageBytes, make}
use zaf.Message.Frame.{bytes-serializer}
use zaf.NetGate.{Batch, Delivery, read_message, read_messages, receive_once_from_net}

-- What a message that goes over the network says.
pub record Envelope : Type 0 where
  pub send : LocalActorHandle
  pub recv : LocalActorHandle
  pub code : ℕ
  pub types_hash : ℕ
  pub content : Bytes

pub record IsSendable (e : Envelope) : Type 0 where
  pub send_fits : FitsHandle e.send
  pub recv_fits : FitsHandle e.recv
  pub code_fits : FitsPod 8 e.code
  pub types_hash_fits : FitsPod 8 e.types_hash
  pub length_fits : FitsPod 4 (length e.content)

abbrev pub header_of : Envelope → Bytes
header_of e =
    encode handle_codec e.send
    ++ (encode handle_codec e.recv
        ++ (to_bytes 8 e.code ++ (to_bytes 8 e.types_hash ++ to_bytes 4 (length e.content))))

abbrev pub packed : Envelope → MessageBytes
packed e = record { header = header_of e; content = e.content }

-- What the receiving machine delivers for it.
abbrev pub delivery : NetSenderRef → Envelope → Delivery
delivery info e = record {
  recv_actor = e.recv;
  sender = remote (record { net_sender_info = some info; remote_actor = e.send });
  message_code = e.code;
  types_hash = e.types_hash;
  bytes = e.content;
}

pub make-eq :
    {A : Type 0} (c : Codec A) (types_hash : ℕ) (send recv : LocalActorHandle) (code : ℕ) (args : A)
    → make c types_hash send recv code args
      ≡ packed (record {
        send = send;
        recv = recv;
        code = code;
        types_hash = types_hash;
        content = encode c args;
      })
unfolding make
make-eq c types_hash send recv code args = rw (
  handle-IsLawful.save_appends send [],
  handle-IsLawful.save_appends recv (encode handle_codec send),
  pod-save 8 code (encode handle_codec send ++ encode handle_codec recv),
  pod-save 8 types_hash ((encode handle_codec send ++ encode handle_codec recv) ++ to_bytes 8 code),
  bytes-serializer (
      ((encode handle_codec send ++ encode handle_codec recv) ++ to_bytes 8 code)
      ++ to_bytes 8 types_hash),
  pod-save 4 (length (encode c args)) (
      ((encode handle_codec send ++ encode handle_codec recv) ++ to_bytes 8 code)
      ++ to_bytes 8 types_hash),
  bytes-serializer (
      (((encode handle_codec send ++ encode handle_codec recv) ++ to_bytes 8 code)
        ++ to_bytes 8 types_hash)
      ++ to_bytes 4 (length (encode c args))),
  append_assoc,
  append_assoc,
  append_assoc,
)

pub read_message-packed :
    (info : NetSenderRef) (e : Envelope) (rest : Bytes)
    → IsSendable e
    → read_message info (header_of e ++ (e.content ++ rest)) ≡ some (delivery info e, rest)
unfolding read_message pod
read_message-packed info e rest h = rw (
  append_assoc,
  handle-IsLawful.load_encode e.send _ h.send_fits,
  append_assoc,
  handle-IsLawful.load_encode e.recv _ h.recv_fits,
  append_assoc,
  read_pod-to_bytes 8 e.code _ h.code_fits,
  append_assoc,
  read_pod-to_bytes 8 e.types_hash _ h.types_hash_fits,
  read_pod-to_bytes 4 (length e.content) _ h.length_fits,
  read_bytes-append e.content rest (length e.content) refl,
)

-- The bytes of several messages, one after the other.
abbrev pub joined : List Envelope → Bytes
joined [] = []
joined (e ∷ es) = header_of e ++ (e.content ++ joined es)

-- The loop of the receiver delivers every message of a batch, in order.
pub read_messages-joined :
    (info : NetSenderRef) (es : List Envelope)
    → All IsSendable es
    → read_messages info (length es) (joined es) ≡ some (map (delivery info) es)
unfolding read_messages
read_messages-joined info [] h = refl
read_messages-joined info (e ∷ es) h =
    rw (read_message-packed info e (joined es) h.0, read_messages-joined info es h.1)

abbrev pub batch_of : List Envelope → Batch
batch_of es = record { num_messages = to_bytes 4 (length es); message_bytes = joined es }

pub receive_once_from_net-batch_of :
    (info : NetSenderRef) (es : List Envelope)
    → FitsPod 4 (length es)
    → All IsSendable es
    → receive_once_from_net info (batch_of es) ≡ some (map (delivery info) es)
unfolding receive_once_from_net
receive_once_from_net-batch_of info es n h = rw (one_number, read_messages-joined info es h)
  where
    one_number : read_pod 4 (to_bytes 4 (length es)) ≡ some (length es, [])
    one_number =
        subst (λ b. read_pod 4 b ≡ some (length es, [])) (append-nil (to_bytes 4 (length es)))
          (read_pod-to_bytes 4 (length es) [] n)
