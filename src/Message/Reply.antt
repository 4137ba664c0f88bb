-- ===== src/Message/Reply.antt =====
-- Messages, sends to any actor and replies (core/zaf/make_message.hpp, core/src/make_message.cpp,
-- core/zaf/message.hpp, core/zaf/requester.hpp, core/zaf/actor_behavior.tpp).
-- The types of the arguments are given by their hash and, if all are serializable, their codec.
pub mod Request
mod Tests
use zaf.Prelude.{ℕ, Bool, true, false, Option, none, some, [], ◌==◌, if◌then◌else◌, drop}
use zaf.Serial.{serializer}
use zaf.Serial.Codec.{Codec, fresh_load, unsigned, ◌>>=◌}
use zaf.Actor.{LocalActorHandle, NetSenderRef, NetSenderInfo, Actor, local, remote, is_set}
use zaf.Message.{
  MessageBody, in_memory, serialized, MessageBytes, get_code, get_type_hash_code, serialize_content,
  make,
}

pub record Message (A : Type 0) : Type 0 where
  pub sender : Actor
  pub body : MessageBody A

-- The two codes of requests.
pub record DefaultCodes : Type 0 where
  pub request : ℕ
  pub response : ℕ

-- What `send` does: nothing for a null actor, a message to a local actor, ForwardMessage with bytes to a
-- Sender, or an exception.
pub data Posted (A : Type 0) : Type 0 where
  ignored : Posted A
  posted : LocalActorHandle → Message A → Posted A
  forwarded : (net_sender : LocalActorHandle) → MessageBytes → Posted A
  failed : Posted A

-- A reply to a request, in a Response, or to another message.
pub data Replied (A : Type 0) : Type 0 where
  responded : Posted (ℕ × MessageBody A) → Replied A
  replied : Posted A → Replied A
  no_request_id : Replied A

unfoldable pub new_message : {A : Type 0} → Actor → (code types_hash : ℕ) → A → Message A
new_message sender code types_hash args = record {
  sender = sender;
  body = in_memory code types_hash args;
}

-- `make_serialized_message_body`, `make_serialized_message` and the forms that allocate; `none` is an
-- exception.
unfoldable pub make_serialized_message_body :
    {A : Type 0} → Option (Codec A) → MessageBody A → Option (MessageBody A)
unfolding serialize_content get_code get_type_hash_code
make_serialized_message_body c body = do
  s ← serialize_content c body (serializer [])
  some (serialized (get_code body) (get_type_hash_code body) s.bytes 0)

unfoldable pub make_serialized_message :
    {A : Type 0} → Option (Codec A) → Message A → Option (Message A)
unfolding make_serialized_message_body
make_serialized_message c m = do
  body ← make_serialized_message_body c m.body
  some (record { sender = m.sender; body = body })

-- `get_request_id`; `none` is the exception for other messages, or a read behind the end.
unfoldable pub get_request_id : {B : Type 0} → DefaultCodes → MessageBody (ℕ × B) → Option ℕ
get_request_id codes (in_memory code types_hash content) =
    if code == codes.request then some content.0 else none
get_request_id codes (serialized code types_hash content_bytes offset) =
    if code == codes.request
    then (fresh_load unsigned (drop offset content_bytes) >>= λ r. some r.0)
    else none

module _ (infos : NetSenderRef → NetSenderInfo) (self : LocalActorHandle) where
  -- `send(const Actor&, Code, args...)`.
  unfoldable pub send :
      {A : Type 0} → Option (Codec A) → (types_hash : ℕ) → Actor → (code : ℕ) → A → Posted A
  unfolding new_message is_set make
  send c types_hash receiver code args =
      if is_set receiver
      then elim receiver [
        | local l ↦ posted l (new_message (local self) code types_hash args)
        | remote r ↦ elim c [
          | none ↦ failed
          | some c ↦ elim r.net_sender_info [
            | none ↦ failed
            | some i ↦
                forwarded (infos i).net_sender (make c types_hash self r.remote_actor code args)
          ]
        ]
      ]
      else ignored

  module _ (codes : DefaultCodes) where
    -- `reply(const Message&, Code, args...)`, with the codec and the hash of the arguments and those of
    -- an id with a body.
    unfoldable pub reply :
        {A B : Type 0}
        → Option (Codec A)
        → (types_hash : ℕ) → Option (Codec (ℕ × MessageBody A))
        → (response_hash : ℕ) → Message (ℕ × B)
        → (code : ℕ) → A
        → Replied A
    unfolding send get_request_id get_code
    reply c types_hash response_codec response_hash m code args =
        if get_code m.body == codes.request
        then elim (get_request_id codes m.body) [
          | none ↦ no_request_id
          | some id ↦ responded (
              send response_codec response_hash m.sender codes.response
                (id, in_memory code types_hash args))
        ]
        else replied (send c types_hash m.sender code args)
