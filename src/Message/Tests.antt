-- ===== src/Message/Tests.antt =====
-- Message bodies (core/zaf/message_body.hpp) on concrete contents.
use zaf.Prelude.{◌≡◌, [], ◌∷◌, none, refl, some, arith}
use zaf.Serial.{serializer, write_pod, write_bytes, to_bytes}
use zaf.Serial.Codec.{string, pod, ◌>>=◌}
use zaf.Serial.RoundTrip.{string-IsLawful}
use zaf.Message.{MessageBody, in_memory, serialized, serialize_body, deserialize_body}
use zaf.Message.Handler.{typed, process_body, process_body-serialize_body}
use zaf.Serial.{Bytes}

abbrev word : Bytes
word = 104 ∷ 105 ∷ []

-- Its content begins behind two bytes of a message that came in.
abbrev forwarded : MessageBody Bytes
forwarded = serialized 5 6 (1 ∷ 2 ∷ word) 2

process_body-serialize_body_example :
    (do
      s ← serialize_body (some string) (in_memory 5 6 word) (serializer [])
      (body, rest) ← deserialize_body s.bytes
      process_body (typed 6 (some string) (λ content. 0 ∷ content)) body)
    ≡ process_body (typed 6 (some string) (λ content. 0 ∷ content)) (in_memory 5 6 word)
unfolding string pod write_pod write_bytes serializer to_bytes
process_body-serialize_body_example =
    process_body-serialize_body string-IsLawful 6 (λ content. 0 ∷ content) 5 6 word (omega arith)
      (omega arith) (omega arith) (omega arith)

wrong_types :
    process_body (typed 7 (some string) (λ (content : Bytes). content)) (in_memory 5 6 word) ≡ none
unfolding process_body
wrong_types = refl
