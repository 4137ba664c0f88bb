-- ===== src/NetGate/Sender/Stopped.antt =====
-- The runs of a `NetGate::Sender` (core/src/net_gate.cpp) up to where it stops.
use mathlib.Core.Bool.{false≢true}
use mathlib.Core.Option.{some-injective}
use zaf.Prelude.{
  ℕ, ◌+◌, ◌≡◌, refl, ap, sym, subst, ◌∙◌, Bool, true, false, Option, none, some, List, [], ◌∷◌,
  ◌==◌, ==→eq, Bool-cases, inl, inr, if◌then◌else◌, arith,
}
use zaf.Serial.{Bytes}
use zaf.Serial.Codec.{◌>>=◌}
use zaf.Message.{MessageBytes}
use zaf.NetGate.Sender.{
  Mail, data_conn_req, termination, flush_buffer, forward_message, Sender, new_sender, empty,
  push_to_buffer, push_all, flush_byte_buffer, on_termination, on_forward_message, on_data_conn_req,
  handle, handle_all, consume_swsr,
}
use zaf.NetGate.Sender.Steps.{
  count_terminations, Step, arrive, terminate, receive, consume, Reach, begin, next,
}
use zaf.NetGate.Sender.Timely.{
  has_flush, flush_first, count-append, has_flush-append, flush_first-append, IsTimely,
}
use zaf.NetGate.Sender.Shutdown.{handle-IsTimely, handle_all-IsTimely, flushed}

-- Between two steps; a sender that has stopped has nothing in its buffer.
pub record IsSettled (s : Sender) : Type 0 where
  pub timely : IsTimely 0 s
  pub done : s.activated ≡ false → s.num_buffered_messages ≡ 0

push_all-activated : (ms : List MessageBytes) (s : Sender) → (push_all ms s).activated ≡ s.activated
unfolding push_all push_to_buffer
push_all-activated [] s = refl
push_all-activated (m ∷ ms) s = push_all-activated ms (push_to_buffer m s)

on_forward_message-activated :
    (m : MessageBytes) (s : Sender) → (on_forward_message m s).activated ≡ s.activated
unfolding on_forward_message
on_forward_message-activated m s = elim (Bool-cases (empty s.connected_url)) [
  | inl e ↦ rw e refl
  | inr e ↦ rw e refl
]

-- Without the first message of its queue.
popped :
    (m : Mail) (ms : List Mail) (s : Sender)
    → s.inbox ≡ m ∷ ms
    → (has_flush (m ∷ ms) ≡ true → has_flush ms ≡ true)
    → (flush_first (m ∷ ms) ≡ true → flush_first ms ≡ true)
    → IsTimely 0 s
    → IsTimely (count_terminations (m ∷ []) + 0) (record s { inbox = ms })
popped m ms s e keeps stays v = record {
  idle = v.idle;
  scheduled = λ n. keeps (ap has_flush (sym e) ∙ v.scheduled n);
  ahead = λ f n. stays (ap flush_first (sym e) ∙ v.ahead f n);
  one_termination =
      omega (arith, v.one_termination, ap count_terminations e, count-append (m ∷ []) ms);
  stopped = v.stopped;
}

-- The termination that stops the sender finds its buffer empty.
on_termination-done :
    (ms : List Mail) (s : Sender)
    → s.activated ≡ true
    → s.inbox ≡ termination ∷ ms
    → IsTimely 0 s
    → (on_termination (record s { inbox = ms })).activated ≡ false
    → (on_termination (record s { inbox = ms })).num_buffered_messages ≡ 0
unfolding on_termination flush_first
on_termination-done ms s a e v = elim (Bool-cases s.forward_any_message) [
  | inl f ↦ rw f (λ h. absurd (false≢true (sym h ∙ a)))
  | inr f ↦ rw f (λ h. elim (Bool-cases (s.num_buffered_messages == 0)) [
    | inl n ↦ ==→eq _ _ n
    | inr n ↦ absurd (false≢true (ap flush_first (sym e) ∙ v.ahead f n))
  ])
]

running : (s : Sender) → IsTimely 0 s → s.activated ≡ true → IsSettled s
running s v a = record { timely = v; done = λ h. absurd (false≢true (sym h ∙ a)) }

module _ (url : Bytes → ℕ → Bytes) (connect : Bytes → Bool) where
  on_data_conn_req-activated :
      (host : Bytes) (port : ℕ) (s s' : Sender)
      → on_data_conn_req url connect host port s ≡ some s'
      → s'.activated ≡ s.activated
  unfolding on_data_conn_req
  on_data_conn_req-activated host port s s' h = go (connect (url host port)) h
    where
      linked : Sender
      linked = record s { connected_url = url host port }

      go :
          (b : Bool)
          → (if b
              then some (record (push_all s.pending_messages linked) { pending_messages = [] })
              else none)
            ≡ some s'
          → s'.activated ≡ s.activated
      go true h =
          ap (λ t. t.activated) (sym (some-injective _ _ h))
          ∙ push_all-activated s.pending_messages linked
      go false h = cc

  -- The first message of the queue.
  receive-IsSettled :
      (m : Mail) (ms : List Mail) (s s' : Sender)
      → s.activated ≡ true
      → s.inbox ≡ m ∷ ms
      → IsTimely 0 s
      → handle url connect m (record s { inbox = ms }) ≡ some s'
      → IsSettled s'
  unfolding handle count_terminations has_flush flush_first
  receive-IsSettled (data_conn_req host port) ms s s' a e v h =
      running s'
        (handle-IsTimely url connect 0 (data_conn_req host port) (record s { inbox = ms }) s' a
          (popped (data_conn_req host port) ms s e (λ k. k) (λ k. k) v) h)
        (on_data_conn_req-activated host port (record s { inbox = ms }) s' h ∙ a)
  receive-IsSettled termination ms s s' a e v h = record {
    timely =
        handle-IsTimely url connect 0 termination (record s { inbox = ms }) s' a
          (popped termination ms s e (λ k. k) (λ k. absurd (false≢true k)) v) h;
    done =
        subst (λ t. t.activated ≡ false → t.num_buffered_messages ≡ 0) (some-injective _ _ h)
          (on_termination-done ms s a e v);
  }
  receive-IsSettled flush_buffer ms s s' a e v h =
      let f =
        flushed 0 (record s { inbox = ms }) v.idle
          (omega (arith, v.one_termination, ap count_terminations e)) v.stopped in
      subst IsSettled (some-injective _ _ h) (record { timely = f.0; done = λ k. f.1 })
  receive-IsSettled (forward_message bytes) ms s s' a e v h =
      running s'
        (handle-IsTimely url connect 0 (forward_message bytes) (record s { inbox = ms }) s' a
          (popped (forward_message bytes) ms s e (λ k. k) (λ k. k) v) h)
        (ap (λ t. t.activated) (sym (some-injective _ _ h))
          ∙ on_forward_message-activated bytes (record s { inbox = ms })
          ∙ a)

  consume-IsSettled :
      (ms : List Mail) (n : ℕ) (s s' : Sender)
      → s.activated ≡ true
      → s.terminations ≡ n + count_terminations ms
      → IsTimely 0 s
      → consume_swsr url connect ms (record s { terminations = n }) ≡ some s'
      → IsSettled s'
  unfolding consume_swsr
  consume-IsSettled ms n s s' a e v h =
      go (handle_all url connect ms (record s { terminations = n })) refl h
    where
      due : IsTimely (count_terminations ms) (record s { terminations = n })
      due = record {
        idle = v.idle;
        scheduled = v.scheduled;
        ahead = v.ahead;
        one_termination = omega (arith, v.one_termination);
        stopped = v.stopped;
      }

      go :
          (o : Option Sender)
          → handle_all url connect ms (record s { terminations = n }) ≡ o
          → (o >>= λ t. some (flush_byte_buffer t)) ≡ some s'
          → IsSettled s'
      go none k h = cc
      go (some t) k h =
          let w = handle_all-IsTimely url connect ms (record s { terminations = n }) t a due k in
          let f = flushed 0 t w.idle w.one_termination w.stopped in
          subst IsSettled (some-injective _ _ h) (record { timely = f.0; done = λ k. f.1 })

  Step-IsSettled :
      {ms : List MessageBytes} {s s' : Sender}
      → Step url connect ms s s'
      → IsSettled s
      → IsSettled s'
  unfolding count_terminations
  Step-IsSettled (arrive {s} m none_in) v = record {
    timely = record {
      idle = v.timely.idle;
      scheduled = λ n. has_flush-append s.inbox (m ∷ []) (v.timely.scheduled n);
      ahead = λ f n. flush_first-append s.inbox (m ∷ []) (v.timely.ahead f n);
      one_termination = omega (arith, v.timely.one_termination, count-append s.inbox (m ∷ []));
      stopped = v.timely.stopped;
    };
    done = v.done;
  }
  Step-IsSettled (terminate {s} n e) v = record {
    timely = record {
      idle = v.timely.idle;
      scheduled = λ k. has_flush-append s.inbox (termination ∷ []) (v.timely.scheduled k);
      ahead = λ f k. flush_first-append s.inbox (termination ∷ []) (v.timely.ahead f k);
      one_termination =
          omega (arith, v.timely.one_termination, count-append s.inbox (termination ∷ []));
      stopped = v.timely.stopped;
    };
    done = v.done;
  }
  Step-IsSettled (receive {s} {s'} m rest a e h) v = receive-IsSettled m rest s s' a e v.timely h
  Step-IsSettled (consume {s} {s'} mails n a e h) v = consume-IsSettled mails n s s' a e v.timely h

  pub Reach-IsSettled :
      {accepted : List MessageBytes} {s : Sender} → Reach url connect accepted s → IsSettled s
  unfolding count_terminations
  Reach-IsSettled begin = running new_sender start refl
    where
      start : IsTimely 0 new_sender
      start = record {
        idle = λ h. refl;
        scheduled = λ h. absurd (false≢true (sym h));
        ahead = λ f h. absurd (false≢true (sym h));
        one_termination = omega arith;
        stopped = λ h. absurd (false≢true (sym h));
      }
  Reach-IsSettled (next r step) = Step-IsSettled step (Reach-IsSettled r)
