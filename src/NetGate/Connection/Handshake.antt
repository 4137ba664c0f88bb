-- ===== src/NetGate/Connection/Handshake.antt =====
-- The handshake of two net gates (core/src/net_gate.cpp): both ends of a connection, each with what it
-- has sent and the other has not received yet. ZeroMQ keeps the order of messages and may lose some:
-- a router socket drops what is for a peer that it does not know yet.
mod Tests
use mathlib.Core.Bool.{false≢true}
use zaf.Prelude.{
  ℕ, suc, ◌≡◌, ◌≢◌, refl, ap, sym, subst, ◌∙◌, Bool, true, false, ◌||◌, Option, none, some, List,
  [], ◌∷◌, ◌++◌, if◌then◌else◌, inl, inr, Bool-cases,
}
use zaf.Serial.{Bytes}
use zaf.NetGate.Connection.{
  NetGateConn, Sent, ping, pong, message, establish_connection, send_to_net_gate,
  imme_send_to_net_gate, ping_net_gate, receive_pong, messages,
}

-- The connection of either net gate to the other, if it has one; `net_out` is what is on its way.
pub record Ends : Type 0 where
  pub here : Option NetGateConn
  pub there : Option NetGateConn

abbrev pub swap : Ends → Ends
swap e = record { here = e.there; there = e.here }

-- `establish_connection`, which leaves a connection as it is.
unfoldable pub connect : Option NetGateConn → NetGateConn
unfolding establish_connection
connect none = establish_connection
connect (some c) = c

-- The handlers of Ping and Pong, and of a message that uses its connection, as DataConnReq and
-- RemoteActorLookupRep do; `none` is the exception of `at`.
unfoldable pub on_receive : Sent → Option NetGateConn → Option NetGateConn
unfolding connect imme_send_to_net_gate receive_pong
on_receive ping o = some (imme_send_to_net_gate pong (connect o))
on_receive pong none = none
on_receive pong (some c) = some (receive_pong c)
on_receive (message bytes) none = none
on_receive (message bytes) (some c) = some c

pub data Step : Ends → Ends → Type 0 where
  connects : {e : Ends} → Step e (record e { here = some (connect e.here) })
  sends :
      {e : Ends} (c : NetGateConn) (bytes : Bytes)
      → e.here ≡ some c
      → Step e (record e { here = some (send_to_net_gate bytes c) })
  retries :
      {e : Ends} (c : NetGateConn)
      → e.here ≡ some c
      → Step e (record e { here = some (ping_net_gate c) })
  receives :
      {e : Ends} (d : NetGateConn) (m : Sent) (rest : List Sent) (c : NetGateConn)
      → e.there ≡ some d
      → d.net_out ≡ m ∷ rest
      → on_receive m e.here ≡ some c
      → Step e (record { here = some c; there = some (record d { net_out = rest }) })
  loses :
      {e : Ends} (d : NetGateConn) (m : Sent) (rest : List Sent)
      → e.there ≡ some d
      → d.net_out ≡ m ∷ rest
      → Step e (record e { there = some (record d { net_out = rest }) })
  -- The same of the other net gate.
  turns : {e : Ends} → Step e (swap e)

pub data Reach : Ends → Type 0 where
  start : Reach (record { here = none; there = none })
  later : {e f : Ends} → Reach e → Step e f → Reach f

abbrev is_answer : Sent → Bool
is_answer ping = false
is_answer pong = true
is_answer (message bytes) = true

abbrev any_answer : List Sent → Bool
any_answer [] = false
any_answer (m ∷ ms) = is_answer m || any_answer ms

-- A net gate with this connection has had a pong or answers the other.
abbrev vouches : Option NetGateConn → Bool
vouches none = false
vouches (some c) = c.is_ponged || any_answer c.net_out

abbrev is_some : Option NetGateConn → Bool
is_some none = false
is_some (some c) = true

or_true : (a b : Bool) → b ≡ true → (a || b) ≡ true
or_true true b h = refl
or_true false b h = h

any_answer-ping : (l : List Sent) → any_answer (l ++ ping ∷ []) ≡ any_answer l
any_answer-ping [] = refl
any_answer-ping (m ∷ l) = ap (λ b. is_answer m || b) (any_answer-ping l)

record Inv (e : Ends) : Type 0 where
  known : vouches e.here ≡ true → is_some e.there ≡ true
  known_there : vouches e.there ≡ true → is_some e.here ≡ true

rest-vouches :
    (d : NetGateConn) (m : Sent) (rest : List Sent)
    → d.net_out ≡ m ∷ rest
    → vouches (some (record d { net_out = rest })) ≡ true
    → vouches (some d) ≡ true
rest-vouches d m rest e h =
    subst (λ l. (d.is_ponged || any_answer l) ≡ true) (sym e) (longer d.is_ponged (is_answer m) h)
  where
    longer : (a b : Bool) → (a || any_answer rest) ≡ true → (a || (b || any_answer rest)) ≡ true
    longer true b h = refl
    longer false b h = or_true b (any_answer rest) h

connect-vouches : (o : Option NetGateConn) → vouches (some (connect o)) ≡ true → vouches o ≡ true
unfolding connect establish_connection ping_net_gate imme_send_to_net_gate
connect-vouches none h = absurd (false≢true h)
connect-vouches (some c) h = h

send-vouches :
    (bytes : Bytes) (c : NetGateConn)
    → vouches (some (send_to_net_gate bytes c)) ≡ true
    → vouches (some c) ≡ true
unfolding send_to_net_gate
send-vouches bytes c h = elim (Bool-cases c.is_ponged) [
  | inl e ↦ rw e refl
  | inr e ↦
      subst
        (λ b.
          vouches (
            some (
              if b
              then record c { net_out = c.net_out ++ message bytes ∷ [] }
              else record c { pending_messages = c.pending_messages ++ bytes ∷ [] }))
          ≡ true)
        e h
]

ping-vouches : (c : NetGateConn) → vouches (some (ping_net_gate c)) ≡ true → vouches (some c) ≡ true
unfolding ping_net_gate imme_send_to_net_gate
ping-vouches c h = elim (Bool-cases c.is_ponged) [
  | inl e ↦ rw e refl
  | inr e ↦
      let pinged =
        subst
          (λ b.
            vouches (
              some (
                if b then c else record (imme_send_to_net_gate ping c) { retries = suc c.retries }))
            ≡ true)
          e h in
      subst (λ b. (c.is_ponged || b) ≡ true) (any_answer-ping c.net_out) pinged
]

Step-Inv : {e f : Ends} → Step e f → Inv e → Inv f
Step-Inv {e} connects i = record {
  known = λ v. i.known (connect-vouches e.here v);
  known_there = λ v. refl;
}
Step-Inv (sends c bytes h) i = record {
  known = λ v. i.known (ap vouches h ∙ send-vouches bytes c v);
  known_there = λ v. refl;
}
Step-Inv (retries c h) i = record {
  known = λ v. i.known (ap vouches h ∙ ping-vouches c v);
  known_there = λ v. refl;
}
Step-Inv (receives d m rest c h k r) i = record { known = λ v. refl; known_there = λ v. refl }
Step-Inv (loses d m rest h k) i = record {
  known = λ v. refl;
  known_there = λ v. i.known_there (ap vouches h ∙ rest-vouches d m rest k v);
}
Step-Inv turns i = record { known = i.known_there; known_there = i.known }

Reach-Inv : {e : Ends} → Reach e → Inv e
Reach-Inv start = record {
  known = λ h. absurd (false≢true h);
  known_there = λ h. absurd (false≢true h);
}
Reach-Inv (later r st) = Step-Inv st (Reach-Inv r)

-- In every run, with either net gate the first to ping, and with pings repeated or lost: the handler
-- of whatever arrives next does not throw. A pong and a message that follows it find the
-- connection that they belong to.
pub on_receive-found :
    {e : Ends} (d : NetGateConn) (m : Sent) (rest : List Sent)
    → Reach e
    → e.there ≡ some d
    → d.net_out ≡ m ∷ rest
    → on_receive m e.here ≢ none
unfolding on_receive
on_receive-found {e = e} d m rest r h k = by_message m k e.here known
  where
    known : any_answer d.net_out ≡ true → is_some e.here ≡ true
    known a =
        (Reach-Inv r).known_there (ap vouches h ∙ or_true d.is_ponged (any_answer d.net_out) a)

    by_message :
        (m : Sent)
        → d.net_out ≡ m ∷ rest
        → (o : Option NetGateConn) → (any_answer d.net_out ≡ true → is_some o ≡ true)
        → on_receive m o ≢ none
    by_message ping k o f = unfold on_receive in cc
    by_message pong k none f = λ e. absurd (false≢true (f (ap any_answer k)))
    by_message pong k (some c) f = unfold on_receive in cc
    by_message (message bytes) k none f = λ e. absurd (false≢true (f (ap any_answer k)))
    by_message (message bytes) k (some c) f = unfold on_receive in cc
