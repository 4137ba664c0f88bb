-- ===== src/NetGate/Sender/EndToEnd.antt =====
-- From a `NetGate::Sender` to the `Receiver` on the other machine (core/src/net_gate.cpp): what the
-- receiver delivers of the batches that the sender sent.
use mathlib.Core.List.{head-eq_of_cons-eq, tail-eq_of_cons-eq}
use zaf.Prelude.{
  ℕ, suc, ◌+◌, ◌%◌, ◌^◌, ◌<◌, ◌≡◌, refl, ap, ap₂, sym, subst, ◌∙◌, Bool, false, some, List, [], ◌∷◌,
  ◌++◌, length, length-append, map, append_assoc, append-nil, arith,
}
use zaf.Serial.{Bytes, to_bytes}
use zaf.Serial.Containers.{All}
use zaf.Actor.{NetSenderRef}
use zaf.Message.{MessageBytes}
use zaf.NetGate.{receive_once_from_net, receive_all}
use zaf.NetGate.Wire.{
  Envelope, IsSendable, packed, header_of, delivery, joined, batch_of,
  receive_once_from_net-batch_of,
}
use zaf.NetGate.Sender.{Sender}
use zaf.NetGate.Sender.Steps.{Reach}
use zaf.NetGate.Sender.Conservation.{Carries, as_batch, bytes_of_all, bytes_of_all-append, concat}
use zaf.NetGate.Sender.Delivery.{Reach-IsConserved}
use zaf.NetGate.Sender.Stopped.{IsSettled, Reach-IsSettled}

abbrev packed_all : List Envelope → List MessageBytes
packed_all = map packed

bytes_of_all-packed : (es : List Envelope) → bytes_of_all (packed_all es) ≡ joined es
bytes_of_all-packed [] = refl
bytes_of_all-packed (e ∷ es) =
    append_assoc (header_of e) e.content (bytes_of_all (packed_all es))
    ∙ ap (λ l. header_of e ++ (e.content ++ l)) (bytes_of_all-packed es)

length-packed : (es : List Envelope) → length (packed_all es) ≡ length es
length-packed [] = refl
length-packed (e ∷ es) = ap suc (length-packed es)

length-zero : {A : Type 0} (l : List A) → length l ≡ 0 → l ≡ []
length-zero [] h = refl
length-zero (x ∷ xs) h = absurd (omega (arith, h))

-- A part of packed envelopes is a part of the envelopes.
packed_split :
    (ms ns : List MessageBytes) (es : List Envelope)
    → ms ++ ns ≡ packed_all es
    → (e₁ e₂ : List Envelope) × (es ≡ e₁ ++ e₂) × (ms ≡ packed_all e₁) × (ns ≡ packed_all e₂)
packed_split [] ns es h = ([], es, refl, refl, h)
packed_split (m ∷ ms) ns [] h = cc
packed_split (m ∷ ms) ns (e ∷ es) h =
    let rest = packed_split ms ns es (tail-eq_of_cons-eq h) in
    (
      e ∷ rest.0,
      rest.1,
      ap (λ l. e ∷ l) rest.2,
      ap₂ (λ x l. x ∷ l) (head-eq_of_cons-eq h) rest.3,
      rest.4,
    )

All-split : {A : Type 0} (P : A → Type 0) (xs ys : List A) → All P (xs ++ ys) → All P xs × All P ys
All-split P [] ys h = (tt, h)
All-split P (x ∷ xs) ys h = let rest = All-split P xs ys h.1 in ((h.0, rest.0), rest.1)

map-append_delivery :
    (info : NetSenderRef) (xs ys : List Envelope)
    → map (delivery info) (xs ++ ys) ≡ map (delivery info) xs ++ map (delivery info) ys
map-append_delivery info [] ys = refl
map-append_delivery info (x ∷ xs) ys =
    ap (λ l. delivery info x ∷ l) (map-append_delivery info xs ys)

as_batch-packed : (es : List Envelope) → length es < 2 ^ 32 → as_batch (packed_all es) ≡ batch_of es
as_batch-packed es h =
    let n : length (packed_all es) % 2 ^ 32 ≡ length es = omega (arith, length-packed es) in
    ap₂ (λ n b. record { num_messages = to_bytes 4 n; message_bytes = b }) n
      (bytes_of_all-packed es)

-- Batches that hold packed envelopes are delivered as those, in order.
receive_all-sent :
    (info : NetSenderRef) (sent : List (List MessageBytes)) (es : List Envelope)
    → concat sent ≡ packed_all es
    → All IsSendable es
    → length es < 2 ^ 32
    → receive_all info (map as_batch sent) ≡ some (map (delivery info) es)
unfolding receive_all
receive_all-sent info [] [] h a n = refl
receive_all-sent info [] (e ∷ es) h a n = cc
receive_all-sent info (ms ∷ sent) es h a n =
    let parts = packed_split ms (concat sent) es h in
    let fit = All-split IsSendable parts.0 parts.1 (subst (All IsSendable) parts.2 a) in
    let size : length parts.0 + length parts.1 < 2 ^ 32 =
      omega (arith, ap length parts.2, length-append parts.0 parts.1) in
    let once : receive_once_from_net info (as_batch ms) ≡ some (map (delivery info) parts.0) =
      ap (receive_once_from_net info) (ap as_batch parts.3 ∙ as_batch-packed parts.0 (omega arith))
      ∙ receive_once_from_net-batch_of info parts.0 (omega arith) fit.0 in
    rw (
      once,
      receive_all-sent info sent parts.1 parts.4 fit.1 (omega arith),
      parts.2,
      map-append_delivery info parts.0 parts.1,
    )

module _ (url : Bytes → ℕ → Bytes) (connect : Bytes → Bool) where
  -- At any time of a run that has taken on fewer than 2 ^ 32 messages, each fit for the format, the
  -- receiver delivers the first ones from what was sent, in order, and the sender holds the bytes of
  -- all the others.
  pub receive_all-Reach :
      (info : NetSenderRef) (es : List Envelope) (s : Sender)
      → Reach url connect (map packed es) s
      → All IsSendable es
      → length es < 2 ^ 32
      → (e₁ e₂ : List Envelope) × (es ≡ e₁ ++ e₂)
        × (receive_all info s.net_out ≡ some (map (delivery info) e₁))
        × (s.byte_buffer ++ bytes_of_all s.pending_messages ≡ joined e₂)
  receive_all-Reach info es s r a n =
      let c = (Reach-IsConserved url connect r).carries in
      let parts = packed_split (concat c.sent) (c.buffered ++ s.pending_messages) es c.all in
      let fit = All-split IsSendable parts.0 parts.1 (subst (All IsSendable) parts.2 a) in
      let size : length parts.0 < 2 ^ 32 =
        omega (arith, ap length parts.2, length-append parts.0 parts.1) in
      (
        parts.0,
        parts.1,
        parts.2,
        ap (receive_all info) c.out_eq ∙ receive_all-sent info c.sent parts.0 parts.3 fit.0 size,
        ap (λ l. l ++ bytes_of_all s.pending_messages) c.buffer_eq
            ∙ sym (bytes_of_all-append c.buffered s.pending_messages)
            ∙ ap bytes_of_all parts.4
            ∙ bytes_of_all-packed parts.1,
      )

  -- When the sender has stopped, the receiver delivers all messages that the sender took on, in
  -- order, if they are fewer than 2 ^ 32 and fit the format.
  pub receive_all-stopped :
      (info : NetSenderRef) (es : List Envelope) (s : Sender)
      → Reach url connect (map packed es) s
      → All IsSendable es
      → length es < 2 ^ 32
      → s.activated ≡ false
      → receive_all info s.net_out ≡ some (map (delivery info) es)
  receive_all-stopped info es s r a n stop =
      ap (receive_all info) c.out_eq ∙ receive_all-sent info c.sent es everything a n
    where
      c : Carries (map packed es) s.pending_messages s.byte_buffer s.num_buffered_messages s.net_out
      c = (Reach-IsConserved url connect r).carries

      settled : IsSettled s
      settled = Reach-IsSettled url connect r

      few : length c.buffered < 2 ^ 32
      few = omega (
        arith,
        ap length c.all,
        length-append (concat c.sent) (c.buffered ++ s.pending_messages),
        length-append c.buffered s.pending_messages,
        length-packed es,
      )

      no_buffered : c.buffered ≡ []
      no_buffered = length-zero c.buffered (omega (arith, few, c.num_eq, settled.done stop))

      everything : concat c.sent ≡ packed_all es
      everything =
          sym (append-nil (concat c.sent))
          ∙ ap₂ (λ b p. concat c.sent ++ (b ++ p)) (sym no_buffered)
              (sym (settled.timely.idle (settled.timely.stopped stop)))
          ∙ c.all
