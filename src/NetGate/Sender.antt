-- ===== src/NetGate/Sender.antt =====
-- `NetGate::Sender` of core/src/net_gate.cpp: it gathers the messages for one machine in a buffer and
-- keeps them back until it is connected.
-- The state has the messages on the sender's own queue (`inbox`), the terminations that will come
-- (`terminations`: the one of the net gate, and those that `delayed_send` holds) and what the socket
-- got (`net_out`). `connect` and the textual form of an endpoint are ZeroMQ's and std::ostream's.
pub mod Steps
pub mod Conservation
pub mod Delivery
pub mod Timely
pub mod Shutdown
pub mod Stopped
pub mod EndToEnd
use zaf.Prelude.{
  ℕ, zero, suc, ◌+◌, ◌%◌, ◌^◌, Bool, true, false, not, Option, none, some, List, [], ◌∷◌, ◌++◌,
  ◌==◌, if◌then◌else◌,
}
use zaf.Serial.{Bytes, to_bytes}
use zaf.Serial.Codec.{◌>>=◌}
use zaf.Message.{MessageBytes}
use zaf.NetGate.{Batch}

pub data Mail : Type 0 where
  data_conn_req : (host : Bytes) (port : ℕ) → Mail
  termination : Mail
  flush_buffer : Mail
  forward_message : MessageBytes → Mail

pub record Sender : Type 0 where
  pub byte_buffer : Bytes
  pub num_buffered_messages : ℕ
  pub connected_url : Bytes
  pub forward_any_message : Bool
  pub pending_messages : List MessageBytes
  pub activated : Bool
  pub inbox : List Mail
  pub terminations : ℕ
  pub net_out : List Batch

-- The net gate will send one termination.
abbrev pub new_sender : Sender
new_sender = record {
  byte_buffer = [];
  num_buffered_messages = 0;
  connected_url = [];
  forward_any_message = true;
  pending_messages = [];
  activated = true;
  inbox = [];
  terminations = 1;
  net_out = [];
}

unfoldable pub empty : {A : Type 0} → List A → Bool
empty [] = true
empty (x ∷ xs) = false

unfoldable pub push_to_buffer : MessageBytes → Sender → Sender
push_to_buffer m s = record s {
  byte_buffer = s.byte_buffer ++ (m.header ++ m.content);
  num_buffered_messages = (s.num_buffered_messages + 1) % 2 ^ 32;
  inbox = if s.num_buffered_messages == 0 then s.inbox ++ flush_buffer ∷ [] else s.inbox;
}

unfoldable pub push_all : List MessageBytes → Sender → Sender
push_all [] s = s
push_all (m ∷ ms) s = push_all ms (push_to_buffer m s)

unfoldable pub flush_byte_buffer : Sender → Sender
flush_byte_buffer s =
    if not (s.num_buffered_messages == 0)
    then record s {
      byte_buffer = [];
      num_buffered_messages = 0;
      net_out =
          s.net_out
          ++ record {
            num_messages = to_bytes 4 s.num_buffered_messages;
            message_bytes = s.byte_buffer;
          }
            ∷ [];
    }
    else s

-- The four handlers of `Sender::behavior`.
unfoldable pub on_termination : Sender → Sender
unfolding empty
on_termination s =
    if s.forward_any_message
    then record s {
      forward_any_message = not (empty s.pending_messages);
      terminations = suc s.terminations;
    }
    else record s { activated = false }

unfoldable pub on_forward_message : MessageBytes → Sender → Sender
unfolding empty push_to_buffer
on_forward_message bytes s =
    let s' = record s { forward_any_message = true } in
    if empty s.connected_url
    then record s' { pending_messages = s.pending_messages ++ bytes ∷ [] }
    else push_to_buffer bytes s'

-- `url` is what `to_string` makes of the endpoint; `connect` tells whether the socket takes it.
-- `none` is an exception of a handler.
module _ (url : Bytes → ℕ → Bytes) (connect : Bytes → Bool) where
  unfoldable pub on_data_conn_req : Bytes → ℕ → Sender → Option Sender
  unfolding push_all
  on_data_conn_req host port s =
      if connect (url host port)
      then some (record (push_all s.pending_messages (record s { connected_url = url host port })) {
        pending_messages = [];
      })
      else none

  unfoldable pub handle : Mail → Sender → Option Sender
  unfolding on_data_conn_req on_termination flush_byte_buffer on_forward_message
  handle (data_conn_req host port) s = on_data_conn_req host port s
  handle termination s = some (on_termination s)
  handle flush_buffer s = some (flush_byte_buffer s)
  handle (forward_message bytes) s = some (on_forward_message bytes s)

  -- The messages of a queue, until the sender is deactivated.
  unfoldable pub handle_all : List Mail → Sender → Option Sender
  unfolding handle
  handle_all [] s = some s
  handle_all (m ∷ ms) s = do s' ← handle m s; if s'.activated then handle_all ms s' else some s'

  -- A round of `SWSRMsgQueueConsumption`, with `post_swsr_consumption` at the end.
  unfoldable pub consume_swsr : List Mail → Sender → Option Sender
  unfolding handle_all flush_byte_buffer
  consume_swsr ms s = do s' ← handle_all ms s; some (flush_byte_buffer s')
