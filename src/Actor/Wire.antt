-- ===== src/Actor/Wire.antt =====
-- The wire formats of core/src/serialization.cpp for actor handles.
use zaf.Prelude.{◌≡◌, ◌++◌, append_assoc, length, some}
use zaf.Serial.{Bytes}
use zaf.Serial.Codec.{pod, unsigned, bool, string, fresh_load}
use zaf.Serial.RoundTrip.{
  encode, IsLawful, IsLawful-mk, pod-IsLawful, bool-IsLawful, string-IsLawful, FitsPod, FitsLength,
}
use zaf.Actor.{LocalActorHandle, ActorInfo, handle_codec, info_codec}

abbrev pub FitsHandle : LocalActorHandle → Type 0
FitsHandle l = FitsPod 4 l.local_actor_id

pub handle-IsLawful : IsLawful handle_codec FitsHandle
unfolding pod bool
handle-IsLawful =
    IsLawful-mk handle_codec FitsHandle
      (λ l. encode unsigned l.local_actor_id ++ encode bool l.use_swsr_msg_delivery)
      (λ l b.
        unfold handle_codec in
        rw (
          (pod-IsLawful 4).save_appends l.local_actor_id b,
          bool-IsLawful.save_appends l.use_swsr_msg_delivery
              (b ++ encode unsigned l.local_actor_id),
          append_assoc,
        ))
      (λ l rest h.
        unfold handle_codec in
        rw (
          append_assoc,
          (pod-IsLawful 4).load_encode l.local_actor_id
              (encode bool l.use_swsr_msg_delivery ++ rest) h,
          bool-IsLawful.load_encode l.use_swsr_msg_delivery rest tt,
        ))

abbrev pub FitsInfo : ActorInfo → Type 0
FitsInfo a = FitsLength (length a.net_gate_url) × FitsHandle a.actor

pub info-IsLawful : IsLawful info_codec FitsInfo
unfolding string
info-IsLawful =
    IsLawful-mk info_codec FitsInfo
      (λ a. encode string a.net_gate_url ++ encode handle_codec a.actor)
      (λ a b.
        unfold info_codec in
        rw (
          string-IsLawful.save_appends a.net_gate_url b,
          handle-IsLawful.save_appends a.actor (b ++ encode string a.net_gate_url),
          append_assoc,
        ))
      (λ a rest h.
        unfold info_codec in
        rw (
          append_assoc,
          string-IsLawful.load_encode a.net_gate_url (encode handle_codec a.actor ++ rest) h.0,
          handle-IsLawful.load_encode a.actor rest h.1,
        ))

-- An actor info that is written in front of other bytes is read back, and they are left, if the
-- length of its url and the id of its actor fit their fields.
pub load-info :
    (a : ActorInfo) (rest : Bytes)
    → FitsLength (length a.net_gate_url)
    → FitsHandle a.actor
    → fresh_load info_codec (encode info_codec a ++ rest) ≡ some (a, rest)
load-info a rest u h = info-IsLawful.load_encode a rest (u, h)
