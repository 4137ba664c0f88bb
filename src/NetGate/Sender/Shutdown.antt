-- ===== src/NetGate/Sender/Shutdown.antt =====
-- When a `NetGate::Sender` (core/src/net_gate.cpp) stops, nothing is left in it: the termination is
-- sent again as long as something was forwarded, and a flush is ahead of it.
use mathlib.Core.Bool.{false≢true}
use mathlib.Core.Option.{some-injective}
use zaf.Prelude.{
  ℕ, suc, ◌+◌, ◌≤◌, ◌≡◌, refl, sym, subst, ◌∙◌, Bool, true, false, not, Option, none, some, List,
  [], ◌∷◌, ◌==◌, ==→eq, Bool-cases, inl, inr, if◌then◌else◌, arith,
}
use zaf.Serial.{Bytes}
use zaf.Serial.Codec.{◌>>=◌}
use zaf.Message.{MessageBytes}
use zaf.NetGate.Sender.{
  Mail, data_conn_req, termination, flush_buffer, forward_message, Sender, empty, push_all,
  flush_byte_buffer, on_termination, on_forward_message, on_data_conn_req, handle, handle_all,
}
use zaf.NetGate.Sender.Steps.{count_terminations}
use zaf.NetGate.Sender.Timely.{
  count-append, has_flush-first, IsTimely, push_to_buffer-IsTimely, push_all-IsTimely,
}

empty-eq : {A : Type 0} (l : List A) → empty l ≡ true → l ≡ []
unfolding empty
empty-eq [] h = refl
empty-eq (x ∷ xs) h = absurd (false≢true h)

not-true : (b : Bool) → not b ≡ false → b ≡ true
not-true true h = refl
not-true false h = absurd (false≢true (sym h))

on_termination-IsTimely :
    (extra : ℕ) (s : Sender)
    → s.activated ≡ true
    → IsTimely (suc extra) s
    → IsTimely extra (on_termination s)
unfolding on_termination
on_termination-IsTimely extra s a v = elim (Bool-cases s.forward_any_message) [
  | inl f ↦ rw f (record {
    idle = λ g. empty-eq s.pending_messages (not-true (empty s.pending_messages) g);
    scheduled = v.scheduled;
    ahead = λ g n. has_flush-first s.inbox (omega (arith, v.one_termination)) (v.scheduled n);
    one_termination = omega (arith, v.one_termination);
    stopped = λ h. absurd (false≢true (sym h ∙ a));
  })
  | inr f ↦ rw f (record {
    idle = λ g. v.idle f;
    scheduled = v.scheduled;
    ahead = λ g. v.ahead f;
    one_termination = omega (arith, v.one_termination);
    stopped = λ h. refl;
  })
]

on_forward_message-IsTimely :
    (extra : ℕ) (m : MessageBytes) (s : Sender)
    → s.activated ≡ true
    → IsTimely extra s
    → IsTimely extra (on_forward_message m s)
unfolding on_forward_message
on_forward_message-IsTimely extra m s a v = elim (Bool-cases (empty s.connected_url)) [
  | inl e ↦ rw e (record {
    idle = λ g. absurd (false≢true (sym g));
    scheduled = v.scheduled;
    ahead = λ g. absurd (false≢true (sym g));
    one_termination = v.one_termination;
    stopped = λ h. absurd (false≢true (sym h ∙ a));
  })
  | inr e ↦
      rw e
        (push_to_buffer-IsTimely extra m (record s { forward_any_message = true }) refl
          forwarding).1
]
  where
    forwarding : IsTimely extra (record s { forward_any_message = true })
    forwarding = record {
      idle = λ g. absurd (false≢true (sym g));
      scheduled = v.scheduled;
      ahead = λ g. absurd (false≢true (sym g));
      one_termination = v.one_termination;
      stopped = λ h. absurd (false≢true (sym h ∙ a));
    }

pub fewer : (k n : ℕ) (s : Sender) → k ≤ n → IsTimely n s → IsTimely k s
fewer k n s h v = record {
  idle = v.idle;
  scheduled = v.scheduled;
  ahead = v.ahead;
  one_termination = omega (arith, v.one_termination);
  stopped = v.stopped;
}

-- An empty buffer asks for nothing.
pub flushed :
    (extra : ℕ) (s : Sender)
    → (s.forward_any_message ≡ false → s.pending_messages ≡ [])
    → count_terminations s.inbox + s.terminations + extra ≤ 1
    → (s.activated ≡ false → s.forward_any_message ≡ false)
    → IsTimely extra (flush_byte_buffer s) × ((flush_byte_buffer s).num_buffered_messages ≡ 0)
unfolding flush_byte_buffer
flushed extra s idle one stopped = elim (Bool-cases (s.num_buffered_messages == 0)) [
  | inl e ↦ rw e (
    record {
      idle = idle;
      scheduled = λ h. absurd (false≢true (sym h ∙ e));
      ahead = λ g h. absurd (false≢true (sym h ∙ e));
      one_termination = one;
      stopped = stopped;
    },
    ==→eq _ _ e,
  )
  | inr e ↦ rw e (
    record {
      idle = idle;
      scheduled = λ h. absurd (false≢true (sym h));
      ahead = λ g h. absurd (false≢true (sym h));
      one_termination = one;
      stopped = stopped;
    },
    refl,
  )
]

module _ (url : Bytes → ℕ → Bytes) (connect : Bytes → Bool) where
  on_data_conn_req-IsTimely :
      (extra : ℕ) (host : Bytes) (port : ℕ) (s s' : Sender)
      → s.activated ≡ true
      → IsTimely extra s
      → on_data_conn_req url connect host port s ≡ some s'
      → IsTimely extra s'
  unfolding on_data_conn_req push_all
  on_data_conn_req-IsTimely extra host port s s' a v h = go (connect (url host port)) h
    where
      linked : Sender
      linked = record s { connected_url = url host port }

      linked-IsTimely : IsTimely extra linked
      linked-IsTimely = record {
        idle = v.idle;
        scheduled = v.scheduled;
        ahead = v.ahead;
        one_termination = v.one_termination;
        stopped = v.stopped;
      }

      cleared :
          (t : Sender) → IsTimely extra t → IsTimely extra (record t { pending_messages = [] })
      cleared t w = record {
        idle = λ g. refl;
        scheduled = w.scheduled;
        ahead = w.ahead;
        one_termination = w.one_termination;
        stopped = w.stopped;
      }

      settled :
          (ms : List MessageBytes)
          → (s.forward_any_message ≡ false → ms ≡ [])
          → IsTimely extra (push_all ms linked)
      settled [] i = linked-IsTimely
      settled (m ∷ ms) i = elim (Bool-cases s.forward_any_message) [
        | inl f ↦ (push_all-IsTimely extra (m ∷ ms) linked f linked-IsTimely).1
        | inr f ↦ let no : m ∷ ms ≡ [] = i f in cc
      ]

      go :
          (b : Bool)
          → (if b
              then some (record (push_all s.pending_messages linked) { pending_messages = [] })
              else none)
            ≡ some s'
          → IsTimely extra s'
      go true h =
          subst (IsTimely extra) (some-injective _ _ h)
            (cleared (push_all s.pending_messages linked) (settled s.pending_messages v.idle))
      go false h = cc

  -- A message of a round of consumption.
  pub handle-IsTimely :
      (extra : ℕ) (m : Mail) (s s' : Sender)
      → s.activated ≡ true
      → IsTimely (count_terminations (m ∷ []) + extra) s
      → handle url connect m s ≡ some s'
      → IsTimely extra s'
  unfolding handle count_terminations
  handle-IsTimely extra (data_conn_req host port) s s' a v h =
      on_data_conn_req-IsTimely extra host port s s' a (fewer extra (0 + extra) s (omega arith) v) h
  handle-IsTimely extra termination s s' a v h =
      subst (IsTimely extra) (some-injective _ _ h)
        (on_termination-IsTimely extra s a (fewer (suc extra) (1 + extra) s (omega arith) v))
  handle-IsTimely extra flush_buffer s s' a v h =
      subst (IsTimely extra) (some-injective _ _ h)
        (flushed extra s v.idle (omega (arith, v.one_termination)) v.stopped).0
  handle-IsTimely extra (forward_message bytes) s s' a v h =
      subst (IsTimely extra) (some-injective _ _ h)
        (on_forward_message-IsTimely extra bytes s a (fewer extra (0 + extra) s (omega arith) v))

  pub handle_all-IsTimely :
      (ms : List Mail) (s s' : Sender)
      → s.activated ≡ true
      → IsTimely (count_terminations ms) s
      → handle_all url connect ms s ≡ some s'
      → IsTimely 0 s'
  unfolding handle_all
  handle_all-IsTimely [] s s' a v h =
      subst (IsTimely 0) (some-injective _ _ h) (fewer 0 _ s (omega arith) v)
  handle_all-IsTimely (m ∷ ms) s s' a v h =
      go (handle url connect m s) refl h (λ t b w k. handle_all-IsTimely ms t s' b w k)
    where
      Rest : Type 0
      Rest =
          (t : Sender)
          → t.activated ≡ true
          → IsTimely (count_terminations ms) t
          → handle_all url connect ms t ≡ some s'
          → IsTimely 0 s'

      on :
          (b : Bool) (t : Sender)
          → t.activated ≡ b
          → IsTimely (count_terminations ms) t
          → (if b then handle_all url connect ms t else some t) ≡ some s'
          → Rest
          → IsTimely 0 s'
      on true t e w h rest = rest t e w h
      on false t e w h rest =
          subst (IsTimely 0) (some-injective _ _ h)
            (fewer 0 (count_terminations ms) t (omega arith) w)

      go :
          (o : Option Sender)
          → handle url connect m s ≡ o
          → (o >>= λ t. if t.activated then handle_all url connect ms t else some t) ≡ some s'
          → Rest
          → IsTimely 0 s'
      go none e h rest = cc
      go (some t) e h rest =
          on t.activated t refl
            (handle-IsTimely (count_terminations ms) m s t a
              (fewer _ (count_terminations (m ∷ ms)) s (omega (arith, count-append (m ∷ []) ms)) v)
              e)
            h rest
