-- ===== src/NetGate/Connection/Tests.antt =====
-- A connection of a `NetGateActor` (core/src/net_gate.cpp) on concrete messages.
use zaf.Prelude.{◌≡◌, List, [], ◌∷◌, if◌then◌else◌}
use zaf.Serial.{Bytes}
use zaf.NetGate.Connection.{Event, send, on_ping, on_pong, retry, run, establish_connection}
use zaf.NetGate.Connection.Order.{messages_of, requested, has_pong, run-order}

abbrev events : List Event
events = send (7 ∷ []) ∷ retry ∷ on_ping ∷ send (8 ∷ []) ∷ on_pong ∷ send (9 ∷ []) ∷ []

run-order_example :
    (messages_of (run events establish_connection).net_out
      ≡ (if has_pong events then requested events else []))
    × ((run events establish_connection).pending_messages
        ≡ (if has_pong events then [] else requested events))
run-order_example = run-order events

abbrev name : Bytes
name = 97 ∷ 98 ∷ []
