-- ===== src/NetGate/Tests.antt =====
-- Runs of a `NetGate::Sender` and a `Receiver` (core/src/net_gate.cpp) on concrete messages.
use zaf.Prelude.{ℕ, suc, ◌≡◌, refl, Bool, true, some, List, [], ◌∷◌, ◌++◌, map, arith}
use zaf.Serial.{Bytes}
use zaf.Actor.{LocalActorHandle, NetSenderRef}
use zaf.Message.{MessageBytes}
use zaf.NetGate.{receive_all}
use zaf.NetGate.Wire.{Envelope, IsSendable, packed, delivery, joined}
use zaf.NetGate.Sender.{
  Mail, data_conn_req, termination, flush_buffer, forward_message, Sender, new_sender, handle,
}
use zaf.NetGate.Sender.Steps.{
  arrive, terminate, receive, Reach, begin, next, count_terminations, forwarded,
}
use zaf.NetGate.Sender.Conservation.{bytes_of_all}
use zaf.NetGate.Sender.EndToEnd.{receive_all-Reach, receive_all-stopped}

abbrev handle_of : ℕ → LocalActorHandle
handle_of n = record { local_actor_id = n; use_swsr_msg_delivery = true }

abbrev here : NetSenderRef
here = 64

abbrev hello : Envelope
hello = record {
  send = handle_of 3;
  recv = handle_of 4;
  code = 5;
  types_hash = 6;
  content = 104 ∷ 105 ∷ [];
}

abbrev bye : Envelope
bye = record { send = handle_of 4; recv = handle_of 3; code = 7; types_hash = 0; content = [] }

abbrev url_of : Bytes → ℕ → Bytes
url_of host port = host ++ port ∷ []

abbrev connects : Bytes → Bool
connects url = true

IsSendable-hello : IsSendable hello
IsSendable-hello = record {
  send_fits = omega arith;
  recv_fits = omega arith;
  code_fits = omega arith;
  types_hash_fits = omega arith;
  length_fits = omega arith;
}

IsSendable-bye : IsSendable bye
IsSendable-bye = record {
  send_fits = omega arith;
  recv_fits = omega arith;
  code_fits = omega arith;
  types_hash_fits = omega arith;
  length_fits = omega arith;
}

abbrev Run : List MessageBytes → Type 0
Run accepted = (s : Sender) × Reach url_of connects accepted s

abbrev then_arrive :
    {accepted : List MessageBytes} (m : Mail)
    → count_terminations (m ∷ []) ≡ 0
    → Run accepted
    → Run (accepted ++ [])
then_arrive m h r = (record r.0 { inbox = r.0.inbox ++ m ∷ [] }, next r.1 (arrive m h))

abbrev then_terminate :
    {accepted : List MessageBytes} (n : ℕ) (r : Run accepted)
    → r.0.terminations ≡ suc n
    → Run (accepted ++ [])
then_terminate n r h = (
  record r.0 { terminations = n; inbox = r.0.inbox ++ termination ∷ [] },
  next r.1 (terminate n h),
)

abbrev then_receive :
    {accepted : List MessageBytes} (m : Mail) (ms : List Mail) {s' : Sender} (r : Run accepted)
    → r.0.activated ≡ true
    → r.0.inbox ≡ m ∷ ms
    → handle url_of connects m (record r.0 { inbox = ms }) ≡ some s'
    → Run (accepted ++ forwarded m)
then_receive m ms {s'} r a e h = (s', next r.1 (receive m ms a e h))

abbrev both : List Envelope
both = hello ∷ bye ∷ []

abbrev dial : Mail
dial = data_conn_req (97 ∷ []) 80

-- One message is pending before the connection, one is sent after it.
abbrev sent_both : Run (map packed both)
unfolding handle forwarded count_terminations
sent_both =
    let a = then_arrive (forward_message (packed hello)) refl (new_sender, begin) in
    let b = then_receive (forward_message (packed hello)) [] a refl refl refl in
    let c = then_arrive dial refl b in
    let d = then_receive dial [] c refl refl refl in
    let e = then_arrive (forward_message (packed bye)) refl d in
    let f = then_receive flush_buffer (forward_message (packed bye) ∷ []) e refl refl refl in
    then_receive (forward_message (packed bye)) [] f refl refl refl

-- The sender stops at the second termination.
abbrev stopped_run : Run (map packed both)
unfolding handle forwarded count_terminations
stopped_run =
    let a = then_terminate 0 sent_both refl in
    let b = then_receive flush_buffer (termination ∷ []) a refl refl refl in
    let c = then_receive termination [] b refl refl refl in
    let d = then_terminate 0 c refl in then_receive termination [] d refl refl refl

receive_all-Reach_example :
    (e₁ e₂ : List Envelope) × (both ≡ e₁ ++ e₂)
    × (receive_all here sent_both.0.net_out ≡ some (map (delivery here) e₁))
    × (sent_both.0.byte_buffer ++ bytes_of_all sent_both.0.pending_messages ≡ joined e₂)
receive_all-Reach_example =
    receive_all-Reach url_of connects here both sent_both.0 sent_both.1
      (IsSendable-hello, (IsSendable-bye, tt)) (omega arith)

receive_all-stopped_example :
    receive_all here stopped_run.0.net_out ≡ some (map (delivery here) both)
unfolding stopped_run
receive_all-stopped_example =
    receive_all-stopped url_of connects here both stopped_run.0 stopped_run.1
      (IsSendable-hello, (IsSendable-bye, tt)) (omega arith) refl
