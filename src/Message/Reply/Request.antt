-- ===== src/Message/Reply/Request.antt =====
-- A reply to a request that came as bytes (core/zaf/requester.hpp, core/src/make_message.cpp) is the reply
-- to the request itself.
use zaf.Prelude.{
  ℕ, ◌≡◌, refl, ap, ◌∙◌, Bool, true, false, Option, none, some, [], ◌++◌, ◌==◌, if◌then◌else◌,
}
use zaf.Serial.{serializer, to_bytes}
use zaf.Serial.Pod.{read_pod-to_bytes}
use zaf.Serial.Codec.{Codec, fresh_load, unsigned, pod, pair}
use zaf.Serial.RoundTrip.{encode, IsLawful, FitsPod, pod-save}
use zaf.Actor.{LocalActorHandle, NetSenderRef, NetSenderInfo, Actor}
use zaf.Message.{
  MessageBody, in_memory, serialized, get_code, get_type_hash_code, serialize_content,
}
use zaf.Message.Reply.{
  Message, DefaultCodes, new_message, make_serialized_message_body, make_serialized_message,
  get_request_id, reply, send, Replied, responded, replied, no_request_id,
}

module _ {B : Type 0} {d : Codec B} {Q : B → Type 0} (l : IsLawful d Q) where
  encode-pair : (id : ℕ) (b : B) → encode (pair unsigned d) (id, b) ≡ to_bytes 4 id ++ encode d b
  unfolding pair serializer
  encode-pair id b =
      ap (λ s. (d.save b s).bytes) (pod-save 4 id [])
      ∙ ap (λ s. s.bytes) (l.save_appends b (to_bytes 4 id))

  load-id :
      (id : ℕ) (b : B)
      → FitsPod 4 id
      → fresh_load unsigned (encode (pair unsigned d) (id, b)) ≡ some (id, encode d b)
  load-id id b h = rw (encode-pair id b) (unfold pod in read_pod-to_bytes 4 id (encode d b) h)

  module _ {A : Type 0} (infos : NetSenderRef → NetSenderInfo) (self : LocalActorHandle)
      (codes : DefaultCodes) (c : Option (Codec A)) (types_hash : ℕ)
      (response_codec : Option (Codec (ℕ × MessageBody A))) (response_hash : ℕ) where
    -- What the sender of a message with this code and id is to get.
    abbrev pub answer_to : (sender : Actor) (code id answer : ℕ) → A → Replied A
    answer_to sender code id answer args =
        if code == codes.request
        then responded (
            send infos self response_codec response_hash sender codes.response
              (id, in_memory answer types_hash args))
        else replied (send infos self c types_hash sender answer args)

    -- A message whose arguments start with an id is serialized without an exception, and the reply to what
    -- was serialized is, like the reply to the message itself, for a request a Response to its
    -- sender with its id and the answer, else the answer to its sender; if the id fits an unsigned
    -- and the codec of the other arguments is lawful.
    pub reply-make_serialized_message :
        (sender : Actor) (code request_hash id : ℕ) (b : B) (answer : ℕ) (args : A)
        → FitsPod 4 id
        → (m : Message (ℕ × B)) × (make_serialized_message
              (some (pair unsigned d))
              (new_message sender code request_hash (id, b))
            ≡ some m)
          × (reply infos self codes c types_hash response_codec response_hash m answer args
              ≡ answer_to sender code id answer args)
          × (reply infos self codes c types_hash response_codec response_hash
                (new_message sender code request_hash (id, b))
                answer
                args
              ≡ answer_to sender code id answer args)
    unfolding make_serialized_message make_serialized_message_body new_message serialize_content
        get_code get_type_hash_code reply get_request_id
    reply-make_serialized_message sender code request_hash id b answer args h =
        let loaded = load-id id b h in
        (
          record {
            sender = sender;
            body = serialized code request_hash (encode (pair unsigned d) (id, b)) 0;
          },
          refl,
          rw loaded (by_code (code == codes.request)),
          by_code (code == codes.request),
        )
      where
        by_code :
            (is_request : Bool)
            → (if is_request
                then elim (if is_request then some id else none) as (λ o. Replied A) [
                  | none ↦ no_request_id
                  | some id ↦ responded (
                      send infos self response_codec response_hash sender codes.response
                        (id, in_memory answer types_hash args))
                ]
                else replied (send infos self c types_hash sender answer args))
              ≡ (if is_request
                  then responded (
                      send infos self response_codec response_hash sender codes.response
                        (id, in_memory answer types_hash args))
                  else replied (send infos self c types_hash sender answer args))
        by_code true = refl
        by_code false = refl
