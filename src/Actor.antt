-- ===== src/Actor.antt =====
-- core/zaf/actor.hpp, core/src/actor.cpp and core/zaf/hash.hpp: the handles by which actors are named, and their
-- formats on the wire (core/src/serialization.cpp).
-- A `const NetSenderInfo*` is an address; `infos` is what the addresses point to.
pub mod Wire
pub mod Equality
mod Tests
use zaf.Prelude.{
  ℕ, ◌+◌, ◌*◌, ◌/◌, ◌%◌, ◌^◌, Bool, true, false, not, ◌&&◌, Option, none, some, List, [], ◌∷◌, ◌==◌,
  if◌then◌else◌,
}
use zaf.Serial.{Bytes}
use zaf.Serial.Codec.{Codec, pod, unsigned, bool, string, ◌>>=◌}

pub record LocalActorHandle : Type 0 where
  pub local_actor_id : ℕ
  pub use_swsr_msg_delivery : Bool

pub record NetSenderInfo : Type 0 where
  pub net_sender : LocalActorHandle
  pub local_net_gate_url : Bytes
  pub remote_net_gate_url : Bytes

abbrev pub NetSenderRef : Type 0
NetSenderRef = ℕ

-- `none` is a null `net_sender_info`.
pub record RemoteActorHandle : Type 0 where
  pub net_sender_info : Option NetSenderRef
  pub remote_actor : LocalActorHandle

pub record ActorInfo : Type 0 where
  pub actor : LocalActorHandle
  pub net_gate_url : Bytes

pub data Actor : Type 0 where
  local : LocalActorHandle → Actor
  remote : RemoteActorHandle → Actor

abbrev pub no_handle : LocalActorHandle
no_handle = record { local_actor_id = 0; use_swsr_msg_delivery = false }

-- `Actor()` and `Actor(nullptr)`.
abbrev pub null_actor : Actor
null_actor = local no_handle

-- `LocalActorHandle::operator bool`.
unfoldable pub local_is_set : LocalActorHandle → Bool
local_is_set l = not (l.local_actor_id == 0)

unfoldable pub local_eq : LocalActorHandle → LocalActorHandle → Bool
local_eq a b = a.local_actor_id == b.local_actor_id

unfoldable pub remote_is_set : RemoteActorHandle → Bool
remote_is_set r = elim r.net_sender_info [ none ↦ false | some i ↦ true ]

ref_eq : Option NetSenderRef → Option NetSenderRef → Bool
ref_eq none none = true
ref_eq none (some j) = false
ref_eq (some i) none = false
ref_eq (some i) (some j) = i == j

unfoldable pub remote_eq : RemoteActorHandle → RemoteActorHandle → Bool
unfolding ref_eq local_eq
remote_eq a b = ref_eq a.net_sender_info b.net_sender_info && local_eq a.remote_actor b.remote_actor

unfoldable pub is_set : Actor → Bool
unfolding local_is_set remote_is_set
is_set (local l) = local_is_set l
is_set (remote r) = remote_is_set r

unfoldable pub actor_eq : Actor → Actor → Bool
unfolding local_eq remote_eq
actor_eq (local a) (local b) = local_eq a b
actor_eq (local a) (remote b) = false
actor_eq (remote a) (local b) = false
actor_eq (remote a) (remote b) = remote_eq a b

unfoldable pub is_local : Actor → Bool
is_local (local l) = true
is_local (remote r) = false

-- `hash_combine`, of the values that std::hash gives; a `size_t` wraps at 2 ^ 64.
unfoldable pub hash_combine : List ℕ → ℕ
hash_combine [] = 0
hash_combine (h ∷ []) = h
hash_combine (h ∷ k ∷ hs) = (hash_combine (k ∷ hs) + 0x9e3779b9 + h * 64 % 2 ^ 64 + h / 4) % 2 ^ 64

module _ (infos : NetSenderRef → NetSenderInfo) where
  -- The actor that a message goes to first; `none` reads through a null pointer.
  unfoldable pub get_actor_id : Actor → Option ℕ
  get_actor_id (local l) = some l.local_actor_id
  get_actor_id (remote r) = elim r.net_sender_info [
    | none ↦ none
    | some i ↦ some (infos i).net_sender.local_actor_id
  ]

  -- `hash_code`, with std::hash of an integer a parameter.
  unfoldable pub hash_code : (ℕ → ℕ) → Actor → Option ℕ
  unfolding hash_combine
  hash_code std_hash (local l) = some l.local_actor_id
  hash_code std_hash (remote r) = elim r.net_sender_info [
    | none ↦ none
    | some i ↦ some (
        hash_combine (
          std_hash (infos i).net_sender.local_actor_id
          ∷ std_hash r.remote_actor.local_actor_id
          ∷ []))
  ]

  -- `to_actor_info(local_net_gate_url)`.
  unfoldable pub to_actor_info : Bytes → Actor → Option ActorInfo
  to_actor_info url (local l) = some (record { actor = l; net_gate_url = url })
  to_actor_info url (remote r) = elim r.net_sender_info [
    | none ↦ none
    | some i ↦
        some (record { actor = r.remote_actor; net_gate_url = (infos i).remote_net_gate_url })
  ]

  -- `to_actor_info(requester)`.
  unfoldable pub to_actor_info_for : Actor → Actor → Option ActorInfo
  unfolding to_actor_info
  to_actor_info_for (local q) (local l) = to_actor_info [] (local l)
  to_actor_info_for (remote q) (local l) = elim q.net_sender_info [
    | none ↦ none
    | some i ↦ to_actor_info (infos i).local_net_gate_url (local l)
  ]
  to_actor_info_for requester (remote r) = to_actor_info [] (remote r)

-- `serialize` and `deserialize` of a LocalActorHandle.
unfoldable pub handle_codec : Codec LocalActorHandle
handle_codec = record {
  save = λ l s. bool.save l.use_swsr_msg_delivery (unsigned.save l.local_actor_id s);
  blank = no_handle;
  load = λ l b. do
    (id, b') ← unsigned.load l.local_actor_id b
    (swsr, b'') ← bool.load l.use_swsr_msg_delivery b'
    some (record { local_actor_id = id; use_swsr_msg_delivery = swsr }, b'');
}

-- `serialize` and `deserialize` of an ActorInfo: the url goes first.
unfoldable pub info_codec : Codec ActorInfo
unfolding handle_codec
info_codec = record {
  save = λ a s. handle_codec.save a.actor (string.save a.net_gate_url s);
  blank = record { actor = no_handle; net_gate_url = [] };
  load = λ a b. do
    (url, b') ← string.load a.net_gate_url b
    (actor, b'') ← handle_codec.load a.actor b'
    some (record { actor = actor; net_gate_url = url }, b'');
}
