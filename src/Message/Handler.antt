-- ===== src/Message/Handler.antt =====
-- The handlers of messages (core/zaf/message_handler.hpp): a typed one takes a body whose types have the
-- hash of its own argument types, in memory or serialized; a raw one takes no body.
-- `A` is the type of the arguments and `R` that of what a handler does. An exception is none.
use zaf.Prelude.{
  ℕ, ◌≡◌, refl, Option, none, some, [], ◌==◌, if◌then◌else◌, length, inl, inr, Bool-cases,
}
use zaf.Serial.{serializer}
use zaf.Serial.Codec.{Codec, ◌>>=◌}
use zaf.Serial.RoundTrip.{encode, IsLawful, FitsPod}
use zaf.Message.{
  MessageBody, in_memory, serialized, get_code, get_type_hash_code, serialize_body,
  deserialize_body, deserialize_content,
}
use zaf.Message.Frame.{serialize_body-eq, bytes-serializer, deserialize_body-alone, load-alone}

-- `RawMessageHandler` and `TypedMessageHandler`, the latter with the hash of its argument types and their
-- codec, if all of them are serializable.
pub data MessageHandler (A R : Type 0) : Type 0 where
  raw : MessageHandler A R
  typed : (hash_code : ℕ) (arguments : Option (Codec A)) (handler : A → R) → MessageHandler A R

module _ {A R : Type 0} where
  -- `process_body` of a SerializedMessageBody whose hash code is right.
  unfoldable pub process_serialized : Option (Codec A) → (A → R) → MessageBody A → Option R
  unfolding deserialize_content
  process_serialized none handler body = none
  process_serialized (some c) handler body = do
    content ← deserialize_content c body
    some (handler content)

  unfoldable pub process_body : MessageHandler A R → MessageBody A → Option R
  unfolding process_serialized get_type_hash_code
  process_body raw body = none
  process_body (typed hash_code arguments handler) (in_memory code types_hash content) =
      if types_hash == hash_code then some (handler content) else none
  process_body (typed hash_code arguments handler) (serialized code types_hash bytes offset) =
      if types_hash == hash_code
      then process_serialized arguments handler (serialized code types_hash bytes offset)
      else none

  -- A typed handler whose arguments have the codec does the same with a body that was
  -- serialized and deserialized as with the body itself, the exception for another type hash included; if
  -- code, type hash and length fit their fields and the codec is lawful on the content.
  pub process_body-serialize_body :
      {c : Codec A} {P : A → Type 0} (l : IsLawful c P) (hash_code : ℕ) (handler : A → R)
      (code types_hash : ℕ) (content : A)
      → FitsPod 8 code
      → FitsPod 8 types_hash
      → FitsPod 4 (length (encode c content))
      → P content
      → (do
        s ← serialize_body (some c) (in_memory code types_hash content) (serializer [])
        (body, rest) ← deserialize_body s.bytes
        process_body (typed hash_code (some c) handler) body)
        ≡ process_body (typed hash_code (some c) handler) (in_memory code types_hash content)
  unfolding process_body get_code get_type_hash_code
  process_body-serialize_body {c} l hash_code handler code types_hash content h i j p =
      rw
        (
          serialize_body-eq l (in_memory code types_hash content) [],
          bytes-serializer,
          deserialize_body-alone {A = A} code types_hash (encode c content) h i j,
        )
        (elim (Bool-cases (types_hash == hash_code)) [
          | inl e ↦ rw (e, load-alone l content p) refl
          | inr e ↦ rw e refl
        ])
