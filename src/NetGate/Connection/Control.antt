-- ===== src/NetGate/Connection/Control.antt =====
-- The control messages between two `NetGateActor`s (core/zaf/net_gate.hpp, core/src/net_gate.cpp).
use zaf.Prelude.{
  ℕ, ◌≡◌, ap, subst, ◌∙◌, some, [], ◌++◌, append_assoc, append-nil, drop, drop-append_add, arith,
}
use zaf.Serial.{Bytes, to_bytes}
use zaf.Serial.Pod.{read_pod-to_bytes, length-to_bytes}
use zaf.Serial.Codec.{Codec, fresh_load, pod, size_t, ◌>>=◌}
use zaf.Serial.RoundTrip.{encode, IsLawful, pod-save, FitsPod}
use zaf.Message.{deserialize_content}
use zaf.Message.Frame.{bytes-serializer}
use zaf.NetGate.Connection.{net_gate_bytes, receive_from_net_gate}

module _ {A : Type 0} {c : Codec A} {P : A → Type 0} (l : IsLawful c P) where
  net_gate_bytes-eq :
      (msg_code type_hash : ℕ) (args : A)
      → net_gate_bytes c msg_code type_hash args
        ≡ to_bytes 8 msg_code ++ (to_bytes 8 type_hash ++ encode c args)
  unfolding net_gate_bytes
  net_gate_bytes-eq msg_code type_hash args =
      ap (λ s. (c.save args (size_t.save type_hash s)).bytes) (pod-save 8 msg_code [])
      ∙ ap (λ s. (c.save args s).bytes) (pod-save 8 type_hash (to_bytes 8 msg_code))
      ∙ ap (λ s. s.bytes) (l.save_appends args (to_bytes 8 msg_code ++ to_bytes 8 type_hash))
      ∙ bytes-serializer ((to_bytes 8 msg_code ++ to_bytes 8 type_hash) ++ encode c args)
      ∙ append_assoc (to_bytes 8 msg_code) (to_bytes 8 type_hash) (encode c args)

  behind :
      (msg_code type_hash : ℕ) (content : Bytes)
      → drop 16 (to_bytes 8 msg_code ++ (to_bytes 8 type_hash ++ content)) ≡ content
  behind msg_code type_hash content =
      drop-append_add (to_bytes 8 msg_code) (to_bytes 8 type_hash ++ content) 16 8
        (omega (arith, length-to_bytes 8 msg_code))
      ∙ drop-append_add (to_bytes 8 type_hash) content 8 0
          (omega (arith, length-to_bytes 8 type_hash))

  -- A handler of the peer gets the arguments that the control message was sent with.
  pub deserialize_content-net_gate_bytes :
      (msg_code type_hash : ℕ) (args : A)
      → FitsPod 8 msg_code
      → FitsPod 8 type_hash
      → P args
      → (do
        body ← receive_from_net_gate {A = A} (net_gate_bytes c msg_code type_hash args)
        deserialize_content c body)
        ≡ some args
  unfolding receive_from_net_gate deserialize_content pod
  deserialize_content-net_gate_bytes msg_code type_hash args h k p =
      let loaded : fresh_load c (encode c args) ≡ some (args, []) =
        subst (λ b. fresh_load c b ≡ some (args, [])) (append-nil (encode c args))
          (l.load_encode args [] p) in
      rw (
        net_gate_bytes-eq msg_code type_hash args,
        read_pod-to_bytes 8 msg_code (to_bytes 8 type_hash ++ encode c args) h,
        read_pod-to_bytes 8 type_hash (encode c args) k,
        behind msg_code type_hash (encode c args),
        loaded,
      )
