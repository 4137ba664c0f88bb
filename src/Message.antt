-- ===== src/Message.antt =====
-- core/zaf/message_body.hpp, core/src/message_body.cpp and core/zaf/message_bytes.hpp: the bodies of
-- messages, in memory or serialized, and their formats on the wire.
-- std::vector<char> and zmq::message_t hold the bytes of a serialized body in the same way.
pub mod Frame
pub mod Handler
pub mod Reply
mod Tests
use zaf.Prelude.{ℕ, ◌+◌, ◌-◌, Option, none, some, List, [], ◌++◌, length, drop}
use zaf.Serial.{
  Bytes, Serializer, serializer, write_bytes, read_bytes, move_write_ptr_to, move_write_ptr_to_end,
}
use zaf.Serial.Codec.{Codec, fresh_load, size_t, unsigned, pod, ◌>>=◌}
use zaf.Actor.{LocalActorHandle, handle_codec}

-- `TypedMessageBody<ContentTuple>` with the hash of its types, and `TypedSerializedMessageBody`.
pub data MessageBody (A : Type 0) : Type 0 where
  in_memory : (code types_hash : ℕ) → A → MessageBody A
  serialized : (code types_hash : ℕ) (content_bytes : Bytes) (offset : ℕ) → MessageBody A

unfoldable pub get_code : {A : Type 0} → MessageBody A → ℕ
get_code (in_memory code types_hash content) = code
get_code (serialized code types_hash content_bytes offset) = code

unfoldable pub get_type_hash_code : {A : Type 0} → MessageBody A → ℕ
get_type_hash_code (in_memory code types_hash content) = types_hash
get_type_hash_code (serialized code types_hash content_bytes offset) = types_hash

-- The codec of the content; `none` if an element is not serializable. A result `none` is an
-- exception.
module _ {A : Type 0} (content_codec : Option (Codec A)) where
  unfoldable pub serialize_content : MessageBody A → Serializer → Option Serializer
  serialize_content (in_memory code types_hash content) s = elim content_codec [
    | none ↦ none
    | some c ↦ some (c.save content s)
  ]
  serialize_content (serialized code types_hash content_bytes offset) s =
      some (write_bytes (drop offset content_bytes) s)

  -- `serialize(Serializer&, MessageBody*)`: the length is written over its place holder.
  unfoldable pub serialize_body : MessageBody A → Serializer → Option Serializer
  unfolding serialize_content get_code get_type_hash_code
  serialize_body body s =
      let s' = size_t.save (get_type_hash_code body) (size_t.save (get_code body) s) in
      let ptr = length s'.bytes in
      do
        t ← serialize_content body (unsigned.save 0 s')
        u ← move_write_ptr_to ptr t
        some (move_write_ptr_to_end (unsigned.save (length u.bytes - ptr - 4) u))

  -- The member function `serialize`.
  unfoldable pub body_serialize : MessageBody A → Serializer → Option Serializer
  unfolding serialize_body
  body_serialize (in_memory code types_hash content) s =
      serialize_body (in_memory code types_hash content) s
  body_serialize (serialized code types_hash content_bytes offset) s =
      let s' = size_t.save types_hash (size_t.save code s) in
      some
        (write_bytes (drop offset content_bytes) (unsigned.save (length content_bytes - offset) s'))

-- `deserialize<MessageBody*>`.
unfoldable pub deserialize_body : {A : Type 0} → Bytes → Option (MessageBody A × Bytes)
deserialize_body b = do
  (code, b) ← fresh_load size_t b
  (type_hash, b) ← fresh_load size_t b
  (num_bytes, b) ← fresh_load unsigned b
  (bytes, b) ← read_bytes num_bytes b
  some (serialized code type_hash bytes 0, b)

-- `SerializedMessageBody::deserialize_content`; a body in memory has none.
unfoldable pub deserialize_content : {A : Type 0} → Codec A → MessageBody A → Option A
deserialize_content c (in_memory code types_hash content) = none
deserialize_content c (serialized code types_hash content_bytes offset) = do
  (content, rest) ← fresh_load c (drop offset content_bytes)
  some content

pub record MessageBytes : Type 0 where
  pub header : Bytes
  pub content : Bytes

-- `MessageBytes::make`, with the hash of the argument types.
unfoldable pub make :
    {A : Type 0} → Codec A → ℕ → LocalActorHandle → LocalActorHandle → ℕ → A → MessageBytes
make c type_hash send recv code args =
    let header =
      size_t.save type_hash
        (size_t.save code (handle_codec.save recv (handle_codec.save send (serializer [])))) in
    let content = c.save args (serializer []) in
    record {
      header = (unsigned.save (length content.bytes) (serializer header.bytes)).bytes;
      content = content.bytes;
    }
