-- ===== src/NetGate/Connection/Handshake/Tests.antt =====
-- A net gate connects to another one (core/src/net_gate.cpp), which answers its ping.
use mathlib.Core.Logic.{◌≢◌}
use zaf.Prelude.{◌≡◌, refl, some, none, [], ◌∷◌}
use zaf.NetGate.Connection.{
  NetGateConn, ping, pong, establish_connection, ping_net_gate, imme_send_to_net_gate,
}
use zaf.NetGate.Connection.Handshake.{
  Ends, Reach, start, later, connects, receives, turns, connect, on_receive, on_receive-found,
}

abbrev first : NetGateConn
first = establish_connection

abbrev second : NetGateConn
second = imme_send_to_net_gate pong establish_connection

abbrev answered : Ends
answered = record { here = some (record first { net_out = [] }); there = some second }

to_answered : Reach answered
unfolding establish_connection ping_net_gate imme_send_to_net_gate connect on_receive
to_answered =
    later
      (later (later (later start connects) turns) (receives first ping [] second refl refl refl))
      turns

on_receive-found_example : on_receive ping answered.here ≢ none
on_receive-found_example = on_receive-found second ping (pong ∷ []) to_answered refl sent
  where
    sent : second.net_out ≡ ping ∷ pong ∷ []
    sent = unfold establish_connection ping_net_gate imme_send_to_net_gate in refl
