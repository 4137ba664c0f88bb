-- ===== src/System.antt =====
-- The ids that core/src/actor_system.cpp gives to actors, and the routing ids of their sockets
-- (core/src/actor_behavior.cpp). ActorIdType is uint32_t and ZAF_ACTOR_ID_MAX_LEN is 5, the defaults of
-- core/zaf/macros.hpp.
pub mod Ids
pub mod Routing
mod Tests
use zaf.Prelude.{
  ℕ, zero, suc, ◌+◌, ◌*◌, ◌/◌, ◌%◌, ◌^◌, Bool, true, false, Option, none, some, List, [], ◌∷◌, ◌++◌,
  ◌==◌, if◌then◌else◌,
}
use zaf.Serial.{Bytes}
use zaf.Actor.{LocalActorHandle}

abbrev pub max_actor_id : ℕ
max_actor_id = 100000

abbrev pub actor_id_max_len : ℕ
actor_id_max_len = 5

-- The counter `next_available_actor_id`: the id, and the counter after it.
unfoldable pub get_next_available_actor_id : ℕ → ℕ × ℕ
get_next_available_actor_id next_available =
    (next_available % max_actor_id, (next_available + 1) % 2 ^ 32)

-- The counter after `n` actors.
unfoldable pub counter : ℕ → ℕ
unfolding get_next_available_actor_id
counter zero = 1
counter (suc n) = (get_next_available_actor_id (counter n)).1

-- The handle of the actor that is spawned after `n` others.
unfoldable pub spawned : ℕ → LocalActorHandle
unfolding get_next_available_actor_id counter
spawned n = record {
  local_actor_id = (get_next_available_actor_id (counter n)).0;
  use_swsr_msg_delivery = false;
}

-- `set_identifier`: `none` is the exception.
unfoldable pub set_identifier : (num_alive_actors : ℕ) → Bytes → Option Bytes
set_identifier num_alive_actors identifier = if num_alive_actors == 0 then none else some identifier

abbrev zeros : ℕ → Bytes
zeros zero = []
zeros (suc n) = 48 ∷ zeros n

-- `initialize_routing_id_buffer`.
unfoldable pub initialize_routing_id_buffer : Bytes → Bytes
initialize_routing_id_buffer identifier = zeros actor_id_max_len ++ (identifier ++ 32 ∷ [])

-- The loop over the digits, from the lowest on; past the end of the buffer nothing is written.
unfoldable pub write_digits : ℕ → ℕ → Bytes → Bytes
write_digits zero id buffer = buffer
write_digits (suc n) id [] = []
write_digits (suc n) id (b ∷ bs) = (id % 10 + 48) ∷ write_digits n (id / 10) bs

-- `back() = x`.
unfoldable pub set_back : ℕ → Bytes → Bytes
set_back x [] = []
set_back x (b ∷ []) = x ∷ []
set_back x (b ∷ c ∷ bs) = b ∷ set_back x (c ∷ bs)

-- `get_routing_id`, which leaves its result in the buffer.
unfoldable pub get_routing_id : ℕ → Bool → Bytes → Bytes
unfolding write_digits set_back
get_routing_id id send_or_recv routing_id_buffer =
    set_back (if send_or_recv then 115 else 114)
      (write_digits actor_id_max_len id routing_id_buffer)
