-- ===== src/NetGate/Sender/Delivery.antt =====
-- From a `NetGate::Sender` to the `Receiver` on the other machine (core/src/net_gate.cpp): what the
-- receiver delivers of the batches that the sender sent.
use mathlib.Core.Option.{some-injective}
use zaf.Prelude.{
  ℕ, ◌≡◌, refl, subst, Bool, true, false, Option, none, some, List, [], ◌∷◌, ◌++◌, append_assoc,
  append-nil, if◌then◌else◌,
}
use zaf.Serial.{Bytes}
use zaf.Serial.Codec.{◌>>=◌}
use zaf.Message.{MessageBytes}
use zaf.NetGate.Sender.{
  Mail, termination, Sender, handle, handle_all, consume_swsr, flush_byte_buffer,
}
use zaf.NetGate.Sender.Steps.{
  forwarded, forwarded_all, Step, arrive, terminate, receive, consume, Reach, begin, next,
}
use zaf.NetGate.Sender.Conservation.{IsConserved, handle-IsConserved, flush_byte_buffer-IsConserved}

module _ (url : Bytes → ℕ → Bytes) (connect : Bytes → Bool) where
  handle_all-IsConserved :
      (accepted : List MessageBytes) (ms : List Mail) (s s' : Sender)
      → IsConserved accepted s
      → handle_all url connect ms s ≡ some s'
      → IsConserved (accepted ++ forwarded_all url connect ms s) s'
  unfolding handle_all forwarded_all
  handle_all-IsConserved accepted [] s s' v h =
      rw (append-nil) (subst (IsConserved accepted) (some-injective _ _ h) v)
  handle_all-IsConserved accepted (m ∷ ms) s s' v h =
      go (handle url connect m s) refl h
        (λ t w k. handle_all-IsConserved (accepted ++ forwarded m) ms t s' w k)
    where
      Rest : Type 0
      Rest =
          (t : Sender)
          → IsConserved (accepted ++ forwarded m) t
          → handle_all url connect ms t ≡ some s'
          → IsConserved ((accepted ++ forwarded m) ++ forwarded_all url connect ms t) s'

      on :
          (b : Bool) (t : Sender)
          → IsConserved (accepted ++ forwarded m) t
          → (if b then handle_all url connect ms t else some t) ≡ some s'
          → Rest
          → IsConserved
              ((accepted ++ forwarded m) ++ (if b then forwarded_all url connect ms t else []))
              s'
      on true t w h rest = rest t w h
      on false t w h rest =
          rw (append-nil (accepted ++ forwarded m))
            (subst (IsConserved (accepted ++ forwarded m)) (some-injective _ _ h) w)

      go :
          (o : Option Sender)
          → handle url connect m s ≡ o
          → (o >>= λ t. if t.activated then handle_all url connect ms t else some t) ≡ some s'
          → Rest
          → IsConserved
              (accepted
                ++ (forwarded m ++ elim o [
                  | none ↦ []
                  | some t ↦ if t.activated then forwarded_all url connect ms t else []
                ]))
              s'
      go none e h rest = cc
      go (some t) e h rest =
          subst (λ l. IsConserved l s')
            (append_assoc accepted (forwarded m)
              (if t.activated then forwarded_all url connect ms t else []))
            (on t.activated t (handle-IsConserved url connect accepted m s t v e) h rest)

  consume_swsr-IsConserved :
      (accepted : List MessageBytes) (ms : List Mail) (s s' : Sender)
      → IsConserved accepted s
      → consume_swsr url connect ms s ≡ some s'
      → IsConserved (accepted ++ forwarded_all url connect ms s) s'
  unfolding consume_swsr
  consume_swsr-IsConserved accepted ms s s' v h = go (handle_all url connect ms s) refl h
    where
      go :
          (o : Option Sender)
          → handle_all url connect ms s ≡ o
          → (o >>= λ t. some (flush_byte_buffer t)) ≡ some s'
          → IsConserved (accepted ++ forwarded_all url connect ms s) s'
      go none e h = cc
      go (some t) e h =
          subst (IsConserved (accepted ++ forwarded_all url connect ms s)) (some-injective _ _ h)
            (flush_byte_buffer-IsConserved _ t (handle_all-IsConserved accepted ms s t v e))

  moved :
      (accepted : List MessageBytes) (s : Sender) (inbox : List Mail) (n : ℕ)
      → IsConserved accepted s
      → IsConserved accepted (record s { inbox = inbox; terminations = n })
  moved accepted s inbox n v = record { carries = v.carries; connected = v.connected }

  Step-IsConserved :
      {accepted ms : List MessageBytes} {s s' : Sender}
      → Step url connect ms s s'
      → IsConserved accepted s
      → IsConserved (accepted ++ ms) s'
  Step-IsConserved {accepted} (arrive {s} m h) v =
      rw (append-nil accepted) (moved accepted s (s.inbox ++ m ∷ []) s.terminations v)
  Step-IsConserved {accepted} (terminate {s} n h) v =
      rw (append-nil accepted) (moved accepted s (s.inbox ++ termination ∷ []) n v)
  Step-IsConserved {accepted} (receive {s} {s'} m rest a e h) v =
      handle-IsConserved url connect accepted m (record s { inbox = rest }) s'
        (moved accepted s rest s.terminations v) h
  Step-IsConserved {accepted} (consume {s} {s'} mails n a e h) v =
      consume_swsr-IsConserved accepted mails (record s { terminations = n }) s'
        (moved accepted s s.inbox n v) h

  -- In every run each message that the sender took on is in a batch that was sent, in the buffer or
  -- pending, once and in the order in which it came.
  pub Reach-IsConserved :
      {accepted : List MessageBytes} {s : Sender}
      → Reach url connect accepted s
      → IsConserved accepted s
  Reach-IsConserved begin = record {
    carries = record {
      sent = [];
      buffered = [];
      all = refl;
      out_eq = refl;
      buffer_eq = refl;
      num_eq = refl;
    };
    connected = λ h. refl;
  }
  Reach-IsConserved (next r step) = Step-IsConserved step (Reach-IsConserved r)
