-- ===== src/Message/Reply/Tests.antt =====
-- A request with id 9 and code 6, serialized, and the reply to it (core/zaf/actor_behavior.tpp).
use zaf.Prelude.{ℕ, ◌≡◌, Bool, true, false, [], none, some, arith}
use zaf.Serial.Codec.{bool, unsigned, pair}
use zaf.Serial.RoundTrip.{bool-IsLawful}
use zaf.Message.{MessageBody, in_memory}
use zaf.Actor.{is_set, NetSenderInfo, NetSenderRef, local, no_handle, LocalActorHandle}
use zaf.Message.Reply.{
  Message, DefaultCodes, new_message, make_serialized_message, reply, send, responded, posted,
}
use zaf.Message.Reply.Request.{reply-make_serialized_message}

abbrev asker : LocalActorHandle
asker = record { local_actor_id = 3; use_swsr_msg_delivery = false }

abbrev self : LocalActorHandle
self = record { local_actor_id = 4; use_swsr_msg_delivery = false }

abbrev codes : DefaultCodes
codes = record { request = 6; response = 7 }

abbrev infos : NetSenderRef → NetSenderInfo
infos r = record { net_sender = no_handle; local_net_gate_url = []; remote_net_gate_url = [] }

abbrev request : Message (ℕ × Bool)
request = new_message (local asker) 6 77 (9, true)

-- The answer 8 with the argument false, in a Response with the id 9.
abbrev response : Message (ℕ × MessageBody Bool)
response = record { sender = local self; body = in_memory 7 66 (9, in_memory 8 55 false) }

reply-make_serialized_message_example :
    (m : Message (ℕ × Bool)) × (make_serialized_message (some (pair unsigned bool)) request
      ≡ some m)
    × (reply infos self codes (some bool) 55 none 66 m 8 false ≡ responded (posted asker response))
    × (reply infos self codes (some bool) 55 none 66 request 8 false
        ≡ responded (posted asker response))
unfolding send is_set new_message
reply-make_serialized_message_example =
    reply-make_serialized_message bool-IsLawful infos self codes (some bool) 55 none 66
      (local asker) 6 77 9 true 8 false (omega arith)
