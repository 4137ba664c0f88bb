-- ===== src/NetGate/Connection/Order.antt =====
-- The messages for a peer are sent in order, and none before the pong (core/src/net_gate.cpp).
use zaf.Prelude.{
  ◌≡◌, refl, ap, sym, subst, ◌∙◌, Bool, true, false, List, [], ◌∷◌, ◌++◌, append_assoc, append-nil,
  inl, inr, Bool-cases, if◌then◌else◌, arith,
}
use mathlib.Core.Bool.{false≢true}
use zaf.Serial.{Bytes}
use zaf.NetGate.Connection.{
  Sent, ping, pong, message, messages, NetGateConn, establish_connection, Event, send, on_ping,
  on_pong, retry, on_event, run,
}

-- The messages among what was sent; those of the events.
abbrev pub messages_of : List Sent → List Bytes
messages_of [] = []
messages_of (ping ∷ l) = messages_of l
messages_of (pong ∷ l) = messages_of l
messages_of (message m ∷ l) = m ∷ messages_of l

abbrev pub requested : List Event → List Bytes
requested [] = []
requested (send m ∷ es) = m ∷ requested es
requested (on_ping ∷ es) = requested es
requested (on_pong ∷ es) = requested es
requested (retry ∷ es) = requested es

messages_of-append : (l r : List Sent) → messages_of (l ++ r) ≡ messages_of l ++ messages_of r
messages_of-append [] r = refl
messages_of-append (ping ∷ l) r = messages_of-append l r
messages_of-append (pong ∷ l) r = messages_of-append l r
messages_of-append (message m ∷ l) r = ap (λ x. m ∷ x) (messages_of-append l r)

messages_of-messages : (ms : List Bytes) → messages_of (messages ms) ≡ ms
messages_of-messages [] = refl
messages_of-messages (m ∷ ms) = ap (λ x. m ∷ x) (messages_of-messages ms)

-- All messages so far, sent or pending; which of the two is the pong's to say.
record IsOrdered (all : List Bytes) (c : NetGateConn) : Type 0 where
  total : messages_of c.net_out ++ c.pending_messages ≡ all
  ponged : c.is_ponged ≡ true → c.pending_messages ≡ []
  waiting : c.is_ponged ≡ false → messages_of c.net_out ≡ []

extra :
    (m : Sent) (all : List Bytes) (c : NetGateConn)
    → messages_of (m ∷ []) ≡ []
    → IsOrdered all c
    → IsOrdered all (record c { net_out = c.net_out ++ m ∷ [] })
extra m all c e v = record {
  total = ap (λ l. l ++ c.pending_messages) same ∙ v.total;
  ponged = v.ponged;
  waiting = λ w. same ∙ v.waiting w;
}
  where
    same : messages_of (c.net_out ++ m ∷ []) ≡ messages_of c.net_out
    same =
        messages_of-append c.net_out (m ∷ [])
        ∙ ap (λ l. messages_of c.net_out ++ l) e
        ∙ append-nil (messages_of c.net_out)

on_event-IsOrdered :
    (e : Event) (all : List Bytes) (c : NetGateConn)
    → IsOrdered all c
    → IsOrdered (all ++ requested (e ∷ [])) (on_event e c)
unfolding on_event
on_event-IsOrdered (send m) all c v = elim (Bool-cases c.is_ponged) [
  | inl p ↦ rw p (record {
    total =
        rw (v.ponged p, append-nil, messages_of-append c.net_out (message m ∷ []))
          (ap (λ l. l ++ m ∷ [])
            (sym (append-nil (messages_of c.net_out))
              ∙ ap (λ l. messages_of c.net_out ++ l) (sym (v.ponged p))
              ∙ v.total));
    ponged = λ h. v.ponged p;
    waiting = λ h. absurd (false≢true (sym h));
  })
  | inr p ↦ rw p (record {
    total =
        sym (append_assoc (messages_of c.net_out) c.pending_messages (m ∷ []))
        ∙ ap (λ l. l ++ m ∷ []) v.total;
    ponged = λ h. absurd (false≢true h);
    waiting = λ h. v.waiting p;
  })
]
on_event-IsOrdered on_ping all c v = rw (append-nil all) (extra pong all c refl v)
on_event-IsOrdered on_pong all c v = elim (Bool-cases c.is_ponged) [
  | inl p ↦
      rw (append-nil all, p)
        (record {
          total = v.total;
          ponged = λ h. v.ponged p;
          waiting = λ h. absurd (false≢true (sym h));
        })
  | inr p ↦
      rw (append-nil all, p)
        (record {
          total =
              append-nil (messages_of (c.net_out ++ messages c.pending_messages))
              ∙ messages_of-append c.net_out (messages c.pending_messages)
              ∙ ap (λ l. messages_of c.net_out ++ l) (messages_of-messages c.pending_messages)
              ∙ v.total;
          ponged = λ h. refl;
          waiting = λ h. absurd (false≢true (sym h));
        })
]
on_event-IsOrdered retry all c v = elim (Bool-cases c.is_ponged) [
  | inl p ↦
      rw (append-nil all, p)
        (record {
          total = v.total;
          ponged = λ h. v.ponged p;
          waiting = λ h. absurd (false≢true (sym h));
        })
  | inr p ↦
      let w = extra ping all c refl v in
      rw (append-nil all, p)
        (record {
          total = w.total;
          ponged = λ h. absurd (false≢true h);
          waiting = λ h. w.waiting p;
        })
]

requested-cons :
    (e : Event) (es : List Event) → requested (e ∷ []) ++ requested es ≡ requested (e ∷ es)
requested-cons (send m) es = refl
requested-cons on_ping es = refl
requested-cons on_pong es = refl
requested-cons retry es = refl

run-IsOrdered :
    (es : List Event) (all : List Bytes) (c : NetGateConn)
    → IsOrdered all c
    → IsOrdered (all ++ requested es) (run es c)
unfolding run
run-IsOrdered [] all c v = rw (append-nil all) v
run-IsOrdered (e ∷ es) all c v =
    subst (λ l. IsOrdered l (run es (on_event e c)))
      (append_assoc all (requested (e ∷ [])) (requested es)
        ∙ ap (λ l. all ++ l) (requested-cons e es))
      (run-IsOrdered es (all ++ requested (e ∷ [])) (on_event e c) (on_event-IsOrdered e all c v))

run-split :
    (es : List Event)
    → (messages_of (run es establish_connection).net_out
        ≡ (if (run es establish_connection).is_ponged then requested es else []))
      × ((run es establish_connection).pending_messages
          ≡ (if (run es establish_connection).is_ponged then [] else requested es))
unfolding establish_connection
run-split es = elim (Bool-cases (run es establish_connection).is_ponged) [
  | inl p ↦ rw p (
    sym (append-nil (messages_of (run es establish_connection).net_out))
        ∙ ap (λ l. messages_of (run es establish_connection).net_out ++ l) (sym (v.ponged p))
        ∙ v.total,
    v.ponged p,
  )
  | inr p ↦ rw p (
    v.waiting p,
    ap (λ l. l ++ (run es establish_connection).pending_messages) (sym (v.waiting p)) ∙ v.total,
  )
]
  where
    v : IsOrdered (requested es) (run es establish_connection)
    v =
        run-IsOrdered es [] establish_connection
          (record { total = refl; ponged = λ h. refl; waiting = λ h. refl })

-- Whether a pong is among the events.
abbrev pub has_pong : List Event → Bool
has_pong [] = false
has_pong (on_pong ∷ es) = true
has_pong (send m ∷ es) = has_pong es
has_pong (on_ping ∷ es) = has_pong es
has_pong (retry ∷ es) = has_pong es

send-is_ponged :
    (bytes : Bytes) (c : NetGateConn) → (on_event (send bytes) c).is_ponged ≡ c.is_ponged
unfolding on_event
send-is_ponged bytes c = by_test c.is_ponged refl
  where
    by_test :
        (b : Bool)
        → c.is_ponged ≡ b
        → (if b
            then record c { net_out = c.net_out ++ message bytes ∷ [] }
            else record c { pending_messages = c.pending_messages ++ bytes ∷ [] }).is_ponged
          ≡ c.is_ponged
    by_test true e = refl
    by_test false e = refl

retry-is_ponged : (c : NetGateConn) → (on_event retry c).is_ponged ≡ c.is_ponged
unfolding on_event
retry-is_ponged c = ground arith

on_pong-is_ponged : (c : NetGateConn) → (on_event on_pong c).is_ponged ≡ true
unfolding on_event
on_pong-is_ponged c = ground arith

run-is_ponged :
    (es : List Event) (c : NetGateConn)
    → (run es c).is_ponged ≡ (if c.is_ponged then true else has_pong es)
unfolding run
run-is_ponged [] c = ground arith
run-is_ponged (on_pong ∷ es) c =
    run-is_ponged es (on_event on_pong c) ∙ rw (on_pong-is_ponged c) (ground arith)
run-is_ponged (send m ∷ es) c =
    run-is_ponged es (on_event (send m) c)
    ∙ ap (λ b. if b then true else has_pong es) (send-is_ponged m c)
run-is_ponged (on_ping ∷ es) c = run-is_ponged es (on_event on_ping c) ∙ (unfold on_event in refl)
run-is_ponged (retry ∷ es) c =
    run-is_ponged es (on_event retry c)
    ∙ ap (λ b. if b then true else has_pong es) (retry-is_ponged c)

-- Whatever happens to a new connection: as long as no pong has come no message was sent and all messages
-- for the peer are pending, in order; once one has come all were sent, in order, and none is pending.
pub run-order :
    (es : List Event)
    → (messages_of (run es establish_connection).net_out
        ≡ (if has_pong es then requested es else []))
      × ((run es establish_connection).pending_messages
          ≡ (if has_pong es then [] else requested es))
unfolding establish_connection
run-order es =
    let ponged : (run es establish_connection).is_ponged ≡ has_pong es =
      run-is_ponged es establish_connection in
    let split = run-split es in
    (
      split.0 ∙ ap (λ b. if b then requested es else []) ponged,
      split.1 ∙ ap (λ b. if b then [] else requested es) ponged,
    )
