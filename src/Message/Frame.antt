-- ===== src/Message/Frame.antt =====
-- The frame of a message body on the wire: the code, the hash of the types, the length of the
-- content and the content (core/src/message_body.cpp, core/zaf/message_body.hpp).
use zaf.Prelude.{
  ℕ, ◌-◌, ◌≡◌, refl, subst, inl, inr, Bool-cases, ltb→lt, ap, ◌∙◌, sym, some, [], ◌++◌, length,
  drop, append_assoc, append-nil, length-append, length-drop, arith, ltb,
}
use zaf.Serial.{
  Bytes, Serializer, serializer, to_bytes, write_pod, move_write_ptr_to, move_write_ptr_to_end,
}
use zaf.Serial.Write.{write_bytes-serializer, write_bytes-patch}
use zaf.Serial.Pod.{length-to_bytes, read_bytes-append, read_pod-to_bytes}
use zaf.Serial.Codec.{Codec, fresh_load, unsigned, pod, ◌>>=◌}
use zaf.Serial.RoundTrip.{encode, IsLawful, pod-save, FitsPod}
use zaf.Message.{
  MessageBody, in_memory, serialized, get_code, get_type_hash_code, serialize_content,
  serialize_body, body_serialize, deserialize_body, deserialize_content,
}

abbrev pub frame : ℕ → ℕ → Bytes → Bytes
frame code types_hash content =
    to_bytes 8 code ++ (to_bytes 8 types_hash ++ (to_bytes 4 (length content) ++ content))

-- The bytes of a body's content; a body in memory is written by its codec.
abbrev pub content_of : {A : Type 0} → Codec A → MessageBody A → Bytes
content_of c (in_memory code types_hash content) = encode c content
content_of c (serialized code types_hash content_bytes offset) = drop offset content_bytes

abbrev at_hole : Bytes → Bytes → Serializer
at_hole before content = record {
  bytes = before ++ (to_bytes 4 0 ++ content);
  wptr = length before;
}

-- The length is patched in where the place holder was.
patched :
    (before content : Bytes)
    → move_write_ptr_to_end (
        unsigned.save
          (length (at_hole before content).bytes - length before - 4)
          (at_hole before content))
      ≡ serializer (before ++ (to_bytes 4 (length content) ++ content))
unfolding pod write_pod move_write_ptr_to_end serializer
patched before content = rw (
  content_length,
  write_bytes-patch before (to_bytes 4 0) content (to_bytes 4 (length content))
      (length-to_bytes 4 (length content) ∙ sym (length-to_bytes 4 0)),
)
  where
    content_length :
        length (before ++ (to_bytes 4 0 ++ content)) - length before - 4 ≡ length content
    content_length = omega (
      arith,
      length-append before (to_bytes 4 0 ++ content),
      length-append (to_bytes 4 0) content,
      length-to_bytes 4 0,
    )

-- A pointer that the buffer has room for.
at_hole-move :
    (before content : Bytes)
    → move_write_ptr_to (length before) (serializer ((before ++ to_bytes 4 0) ++ content))
      ≡ some (at_hole before content)
unfolding move_write_ptr_to serializer
at_hole-move before content =
    elim (Bool-cases (ltb (length ((before ++ to_bytes 4 0) ++ content)) (length before))) [
      | inl h ↦ absurd (
          omega (
            arith,
            ltb→lt _ _ h,
            length-append (before ++ to_bytes 4 0) content,
            length-append before (to_bytes 4 0),
          ))
      | inr h ↦ rw (h, append_assoc)
    ]

pub bytes-serializer : (b : Bytes) → (serializer b).bytes ≡ b
unfolding serializer
bytes-serializer b = refl

module _ {A : Type 0} {c : Codec A} {P : A → Type 0} (l : IsLawful c P) where
  serialize_content-eq :
      (body : MessageBody A) (b : Bytes)
      → serialize_content (some c) body (serializer b) ≡ some (serializer (b ++ content_of c body))
  unfolding serialize_content
  serialize_content-eq (in_memory code types_hash content) b = ap some (l.save_appends content b)
  serialize_content-eq (serialized code types_hash content_bytes offset) b =
      ap some (write_bytes-serializer (drop offset content_bytes) b)

  -- A body goes to the end of a buffer as its frame, whether it is in memory or serialized.
  pub serialize_body-eq :
      (body : MessageBody A) (b : Bytes)
      → serialize_body (some c) body (serializer b)
        ≡ some
            (serializer (b ++ frame (get_code body) (get_type_hash_code body) (content_of c body)))
  unfolding serialize_body
  serialize_body-eq body b = rw (
    pod-save 8 (get_code body) b,
    pod-save 8 (get_type_hash_code body) (b ++ to_bytes 8 (get_code body)),
    pod-save 4 0 ((b ++ to_bytes 8 (get_code body)) ++ to_bytes 8 (get_type_hash_code body)),
    serialize_content-eq body (
        ((b ++ to_bytes 8 (get_code body)) ++ to_bytes 8 (get_type_hash_code body))
        ++ to_bytes 4 0),
    bytes-serializer,
    at_hole-move ((b ++ to_bytes 8 (get_code body)) ++ to_bytes 8 (get_type_hash_code body))
        (content_of c body),
    patched ((b ++ to_bytes 8 (get_code body)) ++ to_bytes 8 (get_type_hash_code body))
        (content_of c body),
    append_assoc,
    append_assoc,
  )

  -- The member function and the free function write the same bytes.
  pub body_serialize-eq :
      (body : MessageBody A) (b : Bytes)
      → body_serialize (some c) body (serializer b) ≡ serialize_body (some c) body (serializer b)
  unfolding body_serialize get_code get_type_hash_code
  body_serialize-eq (in_memory code types_hash content) b = refl
  body_serialize-eq (serialized code types_hash content_bytes offset) b = rw (
    serialize_body-eq (serialized code types_hash content_bytes offset) b,
    pod-save 8 code b,
    pod-save 8 types_hash (b ++ to_bytes 8 code),
    pod-save 4 (length content_bytes - offset) ((b ++ to_bytes 8 code) ++ to_bytes 8 types_hash),
    write_bytes-serializer (drop offset content_bytes) (
        ((b ++ to_bytes 8 code) ++ to_bytes 8 types_hash)
        ++ to_bytes 4 (length content_bytes - offset)),
    length-drop offset content_bytes,
    append_assoc,
    append_assoc,
    append_assoc,
  )

-- Reading a frame gives a serialized body and leaves the rest of the input.
pub deserialize_body-frame :
    {A : Type 0} (code types_hash : ℕ) (content rest : Bytes)
    → FitsPod 8 code
    → FitsPod 8 types_hash
    → FitsPod 4 (length content)
    → deserialize_body {A = A} (frame code types_hash content ++ rest)
      ≡ some (serialized code types_hash content 0, rest)
unfolding deserialize_body pod
deserialize_body-frame code types_hash content rest h i j = rw (
  append_assoc,
  append_assoc,
  append_assoc,
  read_pod-to_bytes 8 code
      (to_bytes 8 types_hash ++ (to_bytes 4 (length content) ++ (content ++ rest))) h,
  read_pod-to_bytes 8 types_hash (to_bytes 4 (length content) ++ (content ++ rest)) i,
  read_pod-to_bytes 4 (length content) (content ++ rest) j,
  read_bytes-append content rest (length content) refl,
)

pub deserialize_body-alone :
    {A : Type 0} (code types_hash : ℕ) (content : Bytes)
    → FitsPod 8 code
    → FitsPod 8 types_hash
    → FitsPod 4 (length content)
    → deserialize_body {A = A} (frame code types_hash content)
      ≡ some (serialized code types_hash content 0, [])
deserialize_body-alone {A} code types_hash content h i j =
    subst (λ b. deserialize_body {A = A} b ≡ some (serialized code types_hash content 0, []))
      (append-nil _) (deserialize_body-frame code types_hash content [] h i j)

module _ {A : Type 0} {c : Codec A} {P : A → Type 0} (l : IsLawful c P) where
  pub load-alone : (content : A) → P content → fresh_load c (encode c content) ≡ some (content, [])
  load-alone content p =
      subst (λ b. fresh_load c b ≡ some (content, [])) (append-nil _) (l.load_encode content [] p)

  -- A body that is serialized, in front of any other bytes, and deserialized is a serialized body
  -- with the same code, type hash and content; the other bytes are left. Code, type hash and length
  -- fit their fields.
  pub deserialize_body-serialize_body :
      (body : MessageBody A) (rest : Bytes)
      → FitsPod 8 (get_code body)
      → FitsPod 8 (get_type_hash_code body)
      → FitsPod 4 (length (content_of c body))
      → (serialize_body (some c) body (serializer []) >>= λ s.
          deserialize_body {A = A} (s.bytes ++ rest))
        ≡ some (serialized (get_code body) (get_type_hash_code body) (content_of c body) 0, rest)
  deserialize_body-serialize_body body rest h i j = rw (
    serialize_body-eq l body [],
    bytes-serializer,
    deserialize_body-frame (get_code body) (get_type_hash_code body) (content_of c body) rest h i j,
  )

  -- A handler of the receiver gets the content that the sender put into the body, if code, type hash
  -- and length fit their fields and the codec is lawful on the content.
  pub deserialize_content-serialize_body :
      (code types_hash : ℕ) (content : A)
      → FitsPod 8 code
      → FitsPod 8 types_hash
      → FitsPod 4 (length (encode c content))
      → P content
      → (do
        s ← serialize_body (some c) (in_memory code types_hash content) (serializer [])
        (body, rest) ← deserialize_body s.bytes
        deserialize_content c body)
        ≡ some content
  unfolding deserialize_content get_code get_type_hash_code
  deserialize_content-serialize_body code types_hash content h i j p = rw (
    serialize_body-eq l (in_memory code types_hash content) [],
    bytes-serializer,
    deserialize_body-alone {A = A} code types_hash (encode c content) h i j,
    load-alone content p,
  )

  -- A body that came over the network is passed on as the bytes that it came in, by both functions.
  pub serialize_body-relay :
      (body : MessageBody A) (b : Bytes)
      → let received = serialized (get_code body) (get_type_hash_code body) (content_of c body) 0 in
        (body_serialize (some c) received (serializer b)
          ≡ body_serialize (some c) body (serializer b))
        × (serialize_body (some c) received (serializer b)
            ≡ serialize_body (some c) body (serializer b))
  serialize_body-relay body b =
      let received = serialized (get_code body) (get_type_hash_code body) (content_of c body) 0 in
      let same : serialize_body (some c) received (serializer b)
          ≡ serialize_body (some c) body (serializer b) =
        unfold get_code get_type_hash_code in
        serialize_body-eq l received b ∙ sym (serialize_body-eq l body b) in
      (body_serialize-eq l received b ∙ same ∙ sym (body_serialize-eq l body b), same)
