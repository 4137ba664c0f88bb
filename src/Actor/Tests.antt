-- ===== src/Actor/Tests.antt =====
-- Handles of actors (core/zaf/actor.hpp) on concrete values.
use zaf.Prelude.{◌*◌, ◌≡◌, refl, [], ◌∷◌, ◌++◌, true, false, some, arith}
use zaf.Serial.Codec.{fresh_load}
use zaf.Serial.RoundTrip.{encode}
use zaf.Actor.{
  LocalActorHandle, NetSenderInfo, NetSenderRef, Actor, ActorInfo, remote, actor_eq, hash_code,
  info_codec,
}
use zaf.Actor.Equality.{hash_code-eq}
use zaf.Actor.Wire.{load-info}

abbrev three : LocalActorHandle
three = record { local_actor_id = 3; use_swsr_msg_delivery = true }

abbrev infos : NetSenderRef → NetSenderInfo
infos address = record {
  net_sender = three;
  local_net_gate_url = address ∷ [];
  remote_net_gate_url = 98 ∷ [];
}

abbrev far : Actor
far = remote (record { net_sender_info = some 64; remote_actor = three })

abbrev far_slow : Actor
far_slow = remote (record {
  net_sender_info = some 64;
  remote_actor = record { local_actor_id = 3; use_swsr_msg_delivery = false };
})

hash_code-eq_example : hash_code infos (λ n. n * 7) far ≡ hash_code infos (λ n. n * 7) far_slow
unfolding actor_eq
hash_code-eq_example = hash_code-eq infos (λ n. n * 7) far far_slow refl

abbrev info : ActorInfo
info = record { actor = three; net_gate_url = 97 ∷ 98 ∷ [] }

load-info_example : fresh_load info_codec (encode info_codec info ++ 1 ∷ []) ≡ some (info, 1 ∷ [])
load-info_example = load-info info (1 ∷ []) (omega arith) (omega arith)
