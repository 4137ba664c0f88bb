-- ===== src/NetGate/Sender/Timely.antt =====
-- What a `NetGate::Sender` (core/src/net_gate.cpp) has on its own queue: a flush while its buffer
-- holds something, and at most one termination.
use mathlib.Core.Bool.{false≢true}
use zaf.Prelude.{
  ℕ, ◌+◌, ◌≤◌, ◌≡◌, refl, sym, ◌∙◌, Bool, true, false, List, [], ◌∷◌, ◌++◌, ◌==◌, Bool-cases, inl,
  inr, arith,
}
use zaf.Message.{MessageBytes}
use zaf.NetGate.Sender.{
  Mail, data_conn_req, termination, flush_buffer, forward_message, Sender, push_to_buffer, push_all,
}
use zaf.NetGate.Sender.Steps.{count_terminations}

-- A flush is in the queue; it is ahead of every termination.
unfoldable pub has_flush : List Mail → Bool
has_flush [] = false
has_flush (flush_buffer ∷ ms) = true
has_flush (termination ∷ ms) = has_flush ms
has_flush (data_conn_req host port ∷ ms) = has_flush ms
has_flush (forward_message bytes ∷ ms) = has_flush ms

unfoldable pub flush_first : List Mail → Bool
flush_first [] = false
flush_first (flush_buffer ∷ ms) = true
flush_first (termination ∷ ms) = false
flush_first (data_conn_req host port ∷ ms) = flush_first ms
flush_first (forward_message bytes ∷ ms) = flush_first ms

pub count-append :
    (ms ns : List Mail)
    → count_terminations (ms ++ ns) ≡ count_terminations ms + count_terminations ns
unfolding count_terminations
count-append [] ns = omega arith
count-append (flush_buffer ∷ ms) ns = count-append ms ns
count-append (termination ∷ ms) ns = omega (arith, count-append ms ns)
count-append (data_conn_req host port ∷ ms) ns = count-append ms ns
count-append (forward_message bytes ∷ ms) ns = count-append ms ns

pub has_flush-append : (ms ns : List Mail) → has_flush ms ≡ true → has_flush (ms ++ ns) ≡ true
unfolding has_flush
has_flush-append [] ns h = absurd (false≢true h)
has_flush-append (flush_buffer ∷ ms) ns h = refl
has_flush-append (termination ∷ ms) ns h = has_flush-append ms ns h
has_flush-append (data_conn_req host port ∷ ms) ns h = has_flush-append ms ns h
has_flush-append (forward_message bytes ∷ ms) ns h = has_flush-append ms ns h

has_flush-snoc : (ms : List Mail) → has_flush (ms ++ flush_buffer ∷ []) ≡ true
unfolding has_flush
has_flush-snoc [] = refl
has_flush-snoc (flush_buffer ∷ ms) = refl
has_flush-snoc (termination ∷ ms) = has_flush-snoc ms
has_flush-snoc (data_conn_req host port ∷ ms) = has_flush-snoc ms
has_flush-snoc (forward_message bytes ∷ ms) = has_flush-snoc ms

pub flush_first-append : (ms ns : List Mail) → flush_first ms ≡ true → flush_first (ms ++ ns) ≡ true
unfolding flush_first
flush_first-append [] ns h = absurd (false≢true h)
flush_first-append (flush_buffer ∷ ms) ns h = refl
flush_first-append (termination ∷ ms) ns h = absurd (false≢true h)
flush_first-append (data_conn_req host port ∷ ms) ns h = flush_first-append ms ns h
flush_first-append (forward_message bytes ∷ ms) ns h = flush_first-append ms ns h

pub has_flush-first :
    (ms : List Mail) → count_terminations ms ≡ 0 → has_flush ms ≡ true → flush_first ms ≡ true
unfolding flush_first has_flush count_terminations
has_flush-first [] c h = h
has_flush-first (flush_buffer ∷ ms) c h = refl
has_flush-first (termination ∷ ms) c h = absurd (omega arith)
has_flush-first (data_conn_req host port ∷ ms) c h = has_flush-first ms c h
has_flush-first (forward_message bytes ∷ ms) c h = has_flush-first ms c h

-- `extra` terminations are in a round of consumption and not yet handled.
pub record IsTimely (extra : ℕ) (s : Sender) : Type 0 where
  pub idle : s.forward_any_message ≡ false → s.pending_messages ≡ []
  pub scheduled : (s.num_buffered_messages == 0) ≡ false → has_flush s.inbox ≡ true
  pub ahead :
      s.forward_any_message ≡ false
      → (s.num_buffered_messages == 0) ≡ false
      → flush_first s.inbox ≡ true
  pub one_termination : count_terminations s.inbox + s.terminations + extra ≤ 1
  pub stopped : s.activated ≡ false → s.forward_any_message ≡ false

pub push_to_buffer-IsTimely :
    (extra : ℕ) (m : MessageBytes) (s : Sender)
    → s.forward_any_message ≡ true
    → IsTimely extra s
    → ((push_to_buffer m s).forward_any_message ≡ true) × IsTimely extra (push_to_buffer m s)
unfolding push_to_buffer count_terminations
push_to_buffer-IsTimely extra m s f v = (
  f,
  elim (Bool-cases (s.num_buffered_messages == 0)) [
    | inl e ↦ record {
      idle = v.idle;
      scheduled = λ h. rw e (has_flush-snoc s.inbox);
      ahead = λ g. absurd (false≢true (sym g ∙ f));
      one_termination =
          rw e (omega (arith, v.one_termination, count-append s.inbox (flush_buffer ∷ [])));
      stopped = v.stopped;
    }
    | inr e ↦ record {
      idle = v.idle;
      scheduled = λ h. rw e (v.scheduled e);
      ahead = λ g. absurd (false≢true (sym g ∙ f));
      one_termination = rw e v.one_termination;
      stopped = v.stopped;
    }
  ],
)

pub push_all-IsTimely :
    (extra : ℕ) (ms : List MessageBytes) (s : Sender)
    → s.forward_any_message ≡ true
    → IsTimely extra s
    → ((push_all ms s).forward_any_message ≡ true) × IsTimely extra (push_all ms s)
unfolding push_all
push_all-IsTimely extra [] s f v = (f, v)
push_all-IsTimely extra (m ∷ ms) s f v =
    let w = push_to_buffer-IsTimely extra m s f v in
    push_all-IsTimely extra ms (push_to_buffer m s) w.0 w.1
