-- ===== src/Requests/Aside.antt =====
-- What `on_reply` and the other actions of a handler (core/src/actor_behavior.cpp) do to the ordinary
-- messages: they put some aside.
use mathlib.Core.Option.{some-injective}
use zaf.Prelude.{
  ℕ, suc, ◌-◌, ◌≡◌, refl, ap, sym, subst, ◌∙◌, true, Option, none, some, List, [], ◌∷◌, ◌++◌, ◌==◌,
  if◌then◌else◌, append_assoc, append-nil, inl, inr, Bool-cases, if-both, arith,
}
use zaf.Serial.Codec.{◌>>=◌}
use zaf.Requests.{
  Incoming, response, message, Behavior, Action, request, await, drop, deactivate, on_incoming,
  receive_nested, find_request, erase_request, on_reply, act, act_all,
}

module _ {B : Type 0} where
  -- The ordinary messages among those that arrive.
  abbrev pub messages : List (Incoming B) → List ℕ
  messages [] = []
  messages (response id b ∷ rest) = messages rest
  messages (message m ∷ rest) = m ∷ messages rest

  -- The ordinary messages that are not yet handled, in order.
  abbrev pub ahead : Behavior B → List ℕ
  ahead s = s.pending_messages ++ messages s.inbox

  -- From `s` to `t` some messages, and nothing else, have gone from the inbox to the end of those put
  -- aside.
  pub record Kept (s t : Behavior B) : Type 0 where
    pub extra : List ℕ
    pub pending : t.pending_messages ≡ s.pending_messages ++ extra
    pub arrived : messages s.inbox ≡ extra ++ messages t.inbox
    pub handled : t.handled ≡ s.handled
    pub waiting : t.waiting_for_response ≡ s.waiting_for_response

  Kept-trans : {s t u : Behavior B} → Kept s t → Kept t u → Kept s u
  Kept-trans {s} k l = record {
    extra = k.extra ++ l.extra;
    pending =
        l.pending
        ∙ ap (λ p. p ++ l.extra) k.pending
        ∙ append_assoc s.pending_messages k.extra l.extra;
    arrived = k.arrived ∙ ap (λ m. k.extra ++ m) l.arrived ∙ sym (append_assoc k.extra l.extra _);
    handled = l.handled ∙ k.handled;
    waiting = l.waiting ∙ k.waiting;
  }

  -- A change of other fields.
  Kept-same :
      (s t : Behavior B)
      → t.pending_messages ≡ s.pending_messages
      → t.inbox ≡ s.inbox
      → t.handled ≡ s.handled
      → t.waiting_for_response ≡ s.waiting_for_response
      → Kept s t
  Kept-same s t e1 e2 e3 e4 = record {
    extra = [];
    pending = e1 ∙ sym (append-nil s.pending_messages);
    arrived = ap messages (sym e2);
    handled = e3;
    waiting = e4;
  }

  pub ahead-Kept : {s t : Behavior B} → Kept s t → ahead t ≡ ahead s
  ahead-Kept {s} {t} k =
      ap (λ p. p ++ messages t.inbox) k.pending
      ∙ append_assoc s.pending_messages k.extra (messages t.inbox)
      ∙ ap (λ m. s.pending_messages ++ m) (sym k.arrived)

  on_incoming-Kept :
      (id : ℕ) (x : Incoming B) (rest : List (Incoming B)) (s : Behavior B)
      → s.inbox ≡ x ∷ rest
      → Kept s (on_incoming id x (record s { inbox = rest }))
  unfolding on_incoming
  on_incoming-Kept id (response q b) rest s e =
      if-both (Kept s) (q == id)
        (record {
          extra = [];
          pending = sym (append-nil s.pending_messages);
          arrived = ap messages e;
          handled = refl;
          waiting = refl;
        })
        (record {
          extra = [];
          pending = sym (append-nil s.pending_messages);
          arrived = ap messages e;
          handled = refl;
          waiting = refl;
        })
  on_incoming-Kept id (message m) rest s e = record {
    extra = m ∷ [];
    pending = refl;
    arrived = ap messages e;
    handled = refl;
    waiting = refl;
  }

  inbox-on_incoming :
      (id : ℕ) (x : Incoming B) (s : Behavior B) → (on_incoming id x s).inbox ≡ s.inbox
  unfolding on_incoming
  inbox-on_incoming id (response q b) s =
      if-both (λ (t : Behavior B). t.inbox ≡ s.inbox) (q == id) refl refl
  inbox-on_incoming id (message m) s = refl

  receive_nested-Kept :
      (id : ℕ) (l : List (Incoming B)) (s t : Behavior B)
      → s.inbox ≡ l
      → receive_nested id l s ≡ some t
      → Kept s t
  unfolding receive_nested
  receive_nested-Kept id [] s t e h = cc
  receive_nested-Kept id (x ∷ rest) s t e h =
      let u = on_incoming id x (record s { inbox = rest }) in
      let k = on_incoming-Kept id x rest s e in
      elim (Bool-cases u.activated) [
        | inl b ↦ Kept-trans k (
            receive_nested-Kept id rest u t (inbox-on_incoming id x (record s { inbox = rest }))
              ((rw b at h)))
        | inr b ↦ subst (Kept s) (some-injective _ _ (rw b at h)) k
      ]

  -- A stored response changes no message; an awaited one leaves what the nested loop leaves.
  on_reply-Kept : (id : ℕ) (s t : Behavior B) → on_reply id s ≡ some t → Kept s t
  unfolding on_reply
  on_reply-Kept id s t h = by_find (find_request id s.unfinished_requests) h
    where
      erased : List (ℕ × Option B)
      erased = erase_request id s.unfinished_requests

      waiting : Behavior B
      waiting = record s {
        unfinished_requests = erased;
        waiting_for_response = suc s.waiting_for_response;
        activated = true;
      }

      after : Behavior B → Behavior B
      after u = record u {
        activated = if s.activated then true else u.activated;
        waiting_for_response = u.waiting_for_response - 1;
      }

      by_response :
          (o : Option (Behavior B))
          → receive_nested id s.inbox waiting ≡ o
          → (o >>= λ u. some (after u)) ≡ some t
          → Kept s t
      by_response none e g = cc
      by_response (some u) e g =
          let k = receive_nested-Kept id s.inbox waiting u refl e in
          subst (Kept s) (some-injective _ _ g) (record {
            extra = k.extra;
            pending = k.pending;
            arrived = k.arrived;
            handled = k.handled;
            waiting = omega (arith, k.waiting);
          })

      by_find :
          (o : Option (Option B))
          → (o >>= λ stored. elim stored [
            | some b ↦
                some
                  (record s { unfinished_requests = erased; replies = s.replies ++ (id, b) ∷ [] })
            | none ↦ receive_nested id s.inbox waiting >>= λ u. some (after u)
          ])
            ≡ some t
          → Kept s t
      by_find none g = cc
      by_find (some (some b)) g =
          subst (Kept s) (some-injective _ _ g) (Kept-same s _ refl refl refl refl)
      by_find (some none) g = by_response (receive_nested id s.inbox waiting) refl g

  act-Kept : (a : Action) (s t : Behavior B) → act a s ≡ some t → Kept s t
  unfolding act
  act-Kept request s t h = subst (Kept s) (some-injective _ _ h) (Kept-same s _ refl refl refl refl)
  act-Kept (await id) s t h = on_reply-Kept id s t h
  act-Kept (drop id) s t h =
      subst (Kept s) (some-injective _ _ h) (Kept-same s _ refl refl refl refl)
  act-Kept deactivate s t h =
      subst (Kept s) (some-injective _ _ h) (Kept-same s _ refl refl refl refl)

  pub act_all-Kept : (l : List Action) (s t : Behavior B) → act_all l s ≡ some t → Kept s t
  unfolding act_all
  act_all-Kept [] s t h = subst (Kept s) (some-injective _ _ h) (Kept-same s s refl refl refl refl)
  act_all-Kept (a ∷ rest) s t h = go (act a s) refl h (λ u. act_all-Kept rest u t)
    where
      go :
          (o : Option (Behavior B))
          → act a s ≡ o
          → (o >>= λ u. act_all rest u) ≡ some t
          → ((u : Behavior B) → act_all rest u ≡ some t → Kept u t)
          → Kept s t
      go none e g more = cc
      go (some u) e g more = Kept-trans (act-Kept a s u e) (more u g)
