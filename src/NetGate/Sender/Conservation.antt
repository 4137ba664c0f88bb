-- ===== src/NetGate/Sender/Conservation.antt =====
-- A `NetGate::Sender` (core/src/net_gate.cpp) neither loses, repeats nor reorders the messages that
-- it takes on: each is in a batch that was sent, in the buffer or pending.
use zaf.Prelude.{
  ℕ, ◌%◌, ◌^◌, ◌≡◌, refl, ap, ap₂, sym, subst, ◌∙◌, Bool, true, false, none, some, List, [], ◌∷◌,
  ◌++◌, length, length-append, map, append_assoc, append-nil, ◌==◌, Bool-cases, inl, inr,
  if◌then◌else◌, arith,
}
use mathlib.Core.Bool.{false≢true}
use mathlib.Core.Option.{some-injective}
use zaf.Serial.{Bytes, to_bytes}
use zaf.Message.{MessageBytes}
use zaf.NetGate.{Batch}
use zaf.NetGate.Sender.{
  Mail, data_conn_req, termination, flush_buffer, forward_message, Sender, empty, push_to_buffer,
  push_all, flush_byte_buffer, on_termination, on_forward_message, on_data_conn_req, handle,
}
use zaf.NetGate.Sender.Steps.{forwarded}

abbrev pub bytes_of : MessageBytes → Bytes
bytes_of m = m.header ++ m.content

abbrev pub bytes_of_all : List MessageBytes → Bytes
bytes_of_all [] = []
bytes_of_all (m ∷ ms) = bytes_of m ++ bytes_of_all ms

-- The two parts in which several messages are sent.
abbrev pub as_batch : List MessageBytes → Batch
as_batch ms = record {
  num_messages = to_bytes 4 (length ms % 2 ^ 32);
  message_bytes = bytes_of_all ms;
}

abbrev pub concat : List (List MessageBytes) → List MessageBytes
concat [] = []
concat (ms ∷ mss) = ms ++ concat mss

-- How the messages taken on, but for those that wait, are spread over the batches and the buffer.
pub record Carries (accepted waiting : List MessageBytes) (buffer : Bytes) (num : ℕ)
    (out : List Batch) : Type 0 where
  pub sent : List (List MessageBytes)
  pub buffered : List MessageBytes
  pub all : concat sent ++ (buffered ++ waiting) ≡ accepted
  pub out_eq : out ≡ map as_batch sent
  pub buffer_eq : buffer ≡ bytes_of_all buffered
  pub num_eq : num ≡ length buffered % 2 ^ 32

pub bytes_of_all-append :
    (ms ns : List MessageBytes) → bytes_of_all (ms ++ ns) ≡ bytes_of_all ms ++ bytes_of_all ns
bytes_of_all-append [] ns = refl
bytes_of_all-append (m ∷ ms) ns =
    ap (λ l. bytes_of m ++ l) (bytes_of_all-append ms ns)
    ∙ sym (append_assoc (bytes_of m) (bytes_of_all ms) (bytes_of_all ns))

concat-snoc :
    (mss : List (List MessageBytes)) (ms : List MessageBytes)
    → concat (mss ++ ms ∷ []) ≡ concat mss ++ ms
concat-snoc [] ms = append-nil ms
concat-snoc (ns ∷ mss) ms = rw (concat-snoc mss ms, append_assoc)

map-snoc :
    (mss : List (List MessageBytes)) (ms : List MessageBytes)
    → map as_batch (mss ++ ms ∷ []) ≡ map as_batch mss ++ as_batch ms ∷ []
map-snoc [] ms = refl
map-snoc (ns ∷ mss) ms = ap (λ l. as_batch ns ∷ l) (map-snoc mss ms)

CarriesIn : List MessageBytes → List MessageBytes → Sender → Type 0
CarriesIn accepted waiting s =
    Carries accepted waiting s.byte_buffer s.num_buffered_messages s.net_out

push_to_buffer-Carries :
    (accepted waiting : List MessageBytes) (m : MessageBytes) (s : Sender)
    → CarriesIn accepted (m ∷ waiting) s
    → CarriesIn accepted waiting (push_to_buffer m s)
unfolding CarriesIn push_to_buffer
push_to_buffer-Carries accepted waiting m s c = record {
  sent = c.sent;
  buffered = c.buffered ++ m ∷ [];
  all = ap (λ l. concat c.sent ++ l) (append_assoc c.buffered (m ∷ []) waiting) ∙ c.all;
  out_eq = c.out_eq;
  buffer_eq = ap (λ l. l ++ bytes_of m) c.buffer_eq ∙ snoc c.buffered;
  num_eq = omega (arith, c.num_eq, length-append c.buffered (m ∷ []));
}
  where
    snoc : (ms : List MessageBytes) → bytes_of_all ms ++ bytes_of m ≡ bytes_of_all (ms ++ m ∷ [])
    snoc ms =
        sym (
          bytes_of_all-append ms (m ∷ [])
          ∙ ap (λ l. bytes_of_all ms ++ l) (append-nil (bytes_of m)))

push_all-Carries :
    (accepted ms waiting : List MessageBytes) (s : Sender)
    → CarriesIn accepted (ms ++ waiting) s
    → CarriesIn accepted waiting (push_all ms s)
unfolding push_all
push_all-Carries accepted [] waiting s c = c
push_all-Carries accepted (m ∷ ms) waiting s c =
    push_all-Carries accepted ms waiting (push_to_buffer m s)
      (push_to_buffer-Carries accepted (ms ++ waiting) m s c)

flush_byte_buffer-Carries :
    (accepted waiting : List MessageBytes) (s : Sender)
    → CarriesIn accepted waiting s
    → CarriesIn accepted waiting (flush_byte_buffer s)
unfolding CarriesIn flush_byte_buffer
flush_byte_buffer-Carries accepted waiting s c = elim (Bool-cases (s.num_buffered_messages == 0)) [
  | inl e ↦ rw e c
  | inr e ↦ rw e (record {
    sent = c.sent ++ c.buffered ∷ [];
    buffered = [];
    all = rw (concat-snoc c.sent c.buffered, append_assoc) c.all;
    out_eq =
        ap₂ (λ l b. l ++ b ∷ []) c.out_eq
          (ap₂ (λ n b. record { num_messages = to_bytes 4 n; message_bytes = b }) c.num_eq
            c.buffer_eq)
        ∙ sym (map-snoc c.sent c.buffered);
    buffer_eq = refl;
    num_eq = refl;
  })
]

-- What is pending counts as waiting; nothing is pending once the sender is connected.
pub record IsConserved (accepted : List MessageBytes) (s : Sender) : Type 0 where
  pub carries : Carries accepted s.pending_messages s.byte_buffer s.num_buffered_messages s.net_out
  pub connected : empty s.connected_url ≡ false → s.pending_messages ≡ []

Carries-snoc :
    (accepted waiting : List MessageBytes) (m : MessageBytes) (buffer : Bytes) (num : ℕ)
    (out : List Batch)
    → Carries accepted waiting buffer num out
    → Carries (accepted ++ m ∷ []) (waiting ++ m ∷ []) buffer num out
Carries-snoc accepted waiting m buffer num out c = record {
  sent = c.sent;
  buffered = c.buffered;
  all = rw (sym c.all, append_assoc, append_assoc);
  out_eq = c.out_eq;
  buffer_eq = c.buffer_eq;
  num_eq = c.num_eq;
}

push_to_buffer-same :
    (m : MessageBytes) (s : Sender)
    → ((push_to_buffer m s).connected_url ≡ s.connected_url)
      × ((push_to_buffer m s).pending_messages ≡ s.pending_messages)
unfolding push_to_buffer
push_to_buffer-same m s = (refl, refl)

flush-same :
    (s : Sender)
    → ((flush_byte_buffer s).connected_url ≡ s.connected_url)
      × ((flush_byte_buffer s).pending_messages ≡ s.pending_messages)
unfolding flush_byte_buffer
flush-same s = elim (Bool-cases (s.num_buffered_messages == 0)) [
  | inl e ↦ rw e (refl, refl)
  | inr e ↦ rw e (refl, refl)
]

pub flush_byte_buffer-IsConserved :
    (accepted : List MessageBytes) (s : Sender)
    → IsConserved accepted s
    → IsConserved accepted (flush_byte_buffer s)
unfolding CarriesIn
flush_byte_buffer-IsConserved accepted s v = record {
  carries =
      subst
        (λ w.
          Carries accepted w (flush_byte_buffer s).byte_buffer
            (flush_byte_buffer s).num_buffered_messages (flush_byte_buffer s).net_out)
        (sym (flush-same s).1) (flush_byte_buffer-Carries accepted s.pending_messages s v.carries);
  connected = λ h. (flush-same s).1 ∙ v.connected (ap empty (sym (flush-same s).0) ∙ h);
}

on_termination-IsConserved :
    (accepted : List MessageBytes) (s : Sender)
    → IsConserved accepted s
    → IsConserved accepted (on_termination s)
unfolding on_termination
on_termination-IsConserved accepted s v = elim (Bool-cases s.forward_any_message) [
  | inl e ↦ rw e (record { carries = v.carries; connected = v.connected })
  | inr e ↦ rw e (record { carries = v.carries; connected = v.connected })
]

on_forward_message-IsConserved :
    (accepted : List MessageBytes) (m : MessageBytes) (s : Sender)
    → IsConserved accepted s
    → IsConserved (accepted ++ m ∷ []) (on_forward_message m s)
unfolding on_forward_message CarriesIn
on_forward_message-IsConserved accepted m s v = elim (Bool-cases (empty s.connected_url)) [
  | inl e ↦ rw e (record {
    carries =
        Carries-snoc accepted s.pending_messages m s.byte_buffer s.num_buffered_messages s.net_out
          v.carries;
    connected = λ h. absurd (false≢true (sym h ∙ e));
  })
  | inr e ↦ rw e (record {
    carries =
        subst
          (λ w.
            Carries (accepted ++ m ∷ []) w (push_to_buffer m s).byte_buffer
              (push_to_buffer m s).num_buffered_messages (push_to_buffer m s).net_out)
          (sym (v.connected e)) (pushed e);
    connected = λ h. v.connected e;
  })
]
  where
    pushed : empty s.connected_url ≡ false → CarriesIn (accepted ++ m ∷ []) [] (push_to_buffer m s)
    pushed e = push_to_buffer-Carries (accepted ++ m ∷ []) [] m s (
        subst
          (λ w.
            Carries (accepted ++ m ∷ []) (w ++ m ∷ []) s.byte_buffer s.num_buffered_messages
              s.net_out)
          (v.connected e)
          (Carries-snoc accepted s.pending_messages m s.byte_buffer s.num_buffered_messages
            s.net_out v.carries))

module _ (url : Bytes → ℕ → Bytes) (connect : Bytes → Bool) where
  on_data_conn_req-IsConserved :
      (accepted : List MessageBytes) (host : Bytes) (port : ℕ) (s s' : Sender)
      → IsConserved accepted s
      → on_data_conn_req url connect host port s ≡ some s'
      → IsConserved accepted s'
  unfolding on_data_conn_req CarriesIn
  on_data_conn_req-IsConserved accepted host port s s' v h = go (connect (url host port)) h
    where
      linked : Sender
      linked = record s { connected_url = url host port }

      moved :
          IsConserved accepted
            (record (push_all s.pending_messages linked) { pending_messages = [] })
      moved = record {
        carries = push_all-Carries accepted s.pending_messages [] linked (
            subst (λ w. Carries accepted w s.byte_buffer s.num_buffered_messages s.net_out)
              (sym (append-nil s.pending_messages)) v.carries);
        connected = λ e. refl;
      }

      go :
          (b : Bool)
          → (if b
              then some (record (push_all s.pending_messages linked) { pending_messages = [] })
              else none)
            ≡ some s'
          → IsConserved accepted s'
      go true h = subst (IsConserved accepted) (some-injective _ _ h) moved
      go false h = cc

  pub handle-IsConserved :
      (accepted : List MessageBytes) (m : Mail) (s s' : Sender)
      → IsConserved accepted s
      → handle url connect m s ≡ some s'
      → IsConserved (accepted ++ forwarded m) s'
  unfolding handle forwarded
  handle-IsConserved accepted (data_conn_req host port) s s' v h =
      rw (append-nil) (on_data_conn_req-IsConserved accepted host port s s' v h)
  handle-IsConserved accepted termination s s' v h = rw (append-nil) (
      subst (IsConserved accepted) (some-injective _ _ h) (on_termination-IsConserved accepted s v))
  handle-IsConserved accepted flush_buffer s s' v h = rw (append-nil) (
      subst (IsConserved accepted) (some-injective _ _ h)
        (flush_byte_buffer-IsConserved accepted s v))
  handle-IsConserved accepted (forward_message bytes) s s' v h =
      subst (IsConserved (accepted ++ bytes ∷ [])) (some-injective _ _ h)
        (on_forward_message-IsConserved accepted bytes s v)
