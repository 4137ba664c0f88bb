-- ===== src/Requests/Order.antt =====
-- Waiting for responses (core/src/actor_behavior.cpp) puts ordinary messages aside, and the actor
-- handles them later in the order of their arrival.
use mathlib.Core.Option.{some-injective}
use zaf.Prelude.{
  ℕ, zero, suc, ◌≡◌, refl, ap, ap₂, sym, subst, ◌∙◌, Bool, true, false, Option, none, some, List,
  [], ◌∷◌, ◌++◌, ◌==◌, if◌then◌else◌, append_assoc, eq→==,
}
use zaf.Serial.Codec.{◌>>=◌}
use zaf.Requests.{
  Incoming, response, message, Behavior, Action, store_response, act_all, pop_front,
  receive_from_socket, inner_receive_once, receive, receive_loop,
}
use zaf.Requests.Aside.{messages, ahead, ahead-Kept, act_all-Kept}

module _ {B : Type 0} where
  -- What is handled, and then what is ahead.
  abbrev pub all_messages : Behavior B → List ℕ
  all_messages s = s.handled ++ ahead s

  record Received (s t : Behavior B) : Type 0 where
    order : all_messages t ≡ all_messages s
    waiting : t.waiting_for_response ≡ s.waiting_for_response

  module _ (handler : ℕ → List Action) where
    receive_from_socket-Received :
        (s t : Behavior B)
        → s.pending_messages ≡ []
        → receive_from_socket handler s ≡ some t
        → Received s t
    unfolding receive_from_socket
    receive_from_socket-Received s t p h = by_inbox s.inbox refl h
      where
        by_inbox :
            (l : List (Incoming B))
            → s.inbox ≡ l
            → elim l [
              | [] ↦ none
              | x ∷ rest ↦ elim x [
                | response id b ↦ some (store_response id b (record s { inbox = rest }))
                | message m ↦
                    act_all (handler m) (record s { inbox = rest; handled = s.handled ++ m ∷ [] })
              ]
            ]
              ≡ some t
            → Received s t
        by_inbox [] e g = cc
        by_inbox (response id b ∷ rest) e g = subst (Received s) (some-injective _ _ g) (record {
          order = ap (λ l. s.handled ++ (s.pending_messages ++ messages l)) (sym e);
          waiting = refl;
        })
        by_inbox (message m ∷ rest) e g =
            let k = act_all-Kept (handler m) _ t g in
            record {
              order =
                  ap₂ (λ x y. x ++ y) k.handled (ahead-Kept k)
                  ∙ ap (λ l. (s.handled ++ m ∷ []) ++ (l ++ messages rest)) p
                  ∙ append_assoc s.handled (m ∷ []) (messages rest)
                  ∙ ap₂ (λ l k. s.handled ++ (l ++ messages k)) (sym p) (sym e);
              waiting = k.waiting;
            }

    inner_receive_once-Received :
        (s t : Behavior B)
        → s.waiting_for_response ≡ 0
        → inner_receive_once handler s ≡ some t
        → Received s t
    unfolding inner_receive_once
    inner_receive_once-Received s t w h = by_pending s.pending_messages refl h
      where
        put_off : List ℕ → Behavior B → Behavior B
        put_off l u = record u { pending_messages = l }

        after :
            (m : ℕ) (rest : List ℕ)
            → s.pending_messages ≡ m ∷ rest
            → (o : Option (Behavior B))
            → act_all (handler m) (record s { handled = s.handled ++ m ∷ [] }) ≡ o
            → (o >>= λ u. some (put_off (pop_front u.pending_messages) u)) ≡ some t
            → Received s t
        after m rest p none e g = cc
        after m rest p (some u) e g =
            let k = act_all-Kept (handler m) _ u e in
            let left : pop_front u.pending_messages ≡ rest ++ k.extra =
              ap pop_front (k.pending ∙ ap (λ l. l ++ k.extra) p) in
            subst (Received s) (some-injective _ _ g) (record {
              order =
                  ap₂ (λ x y. x ++ (y ++ messages u.inbox)) k.handled left
                  ∙ ap (λ l. (s.handled ++ m ∷ []) ++ l)
                      (append_assoc rest k.extra (messages u.inbox)
                        ∙ ap (λ l. rest ++ l) (sym k.arrived))
                  ∙ append_assoc s.handled (m ∷ []) (rest ++ messages s.inbox)
                  ∙ ap (λ l. s.handled ++ (l ++ messages s.inbox)) (sym p);
              waiting = k.waiting;
            })

        by_pending :
            (l : List ℕ)
            → s.pending_messages ≡ l
            → elim l [
              | [] ↦ receive_from_socket handler s
              | m ∷ rest ↦
                  if s.waiting_for_response == 0
                  then (act_all (handler m) (record s { handled = s.handled ++ m ∷ [] }) >>= λ u.
                      some (put_off (pop_front u.pending_messages) u))
                  else receive_from_socket handler s
            ]
              ≡ some t
            → Received s t
        by_pending [] p g = receive_from_socket-Received s t p g
        by_pending (m ∷ rest) p g =
            after m rest p (act_all (handler m) (record s { handled = s.handled ++ m ∷ [] })) refl
              (rw (eq→== s.waiting_for_response 0 w) at g)

    receive_loop-keeps_order :
        (fuel : ℕ) (s t : Behavior B)
        → s.waiting_for_response ≡ 0
        → receive_loop handler fuel s ≡ some t
        → all_messages t ≡ all_messages s
    unfolding receive_loop
    receive_loop-keeps_order zero s t w h = ap all_messages (sym (some-injective _ _ h))
    receive_loop-keeps_order (suc fuel) s t w h =
        by_test s.activated (inner_receive_once handler s) refl h
          (λ u. receive_loop-keeps_order fuel u t)
      where
        by_test :
            (b : Bool) (o : Option (Behavior B))
            → inner_receive_once handler s ≡ o
            → (if b then (o >>= λ u. receive_loop handler fuel u) else some s) ≡ some t
            → ((u : Behavior B)
                → u.waiting_for_response ≡ 0
                → receive_loop handler fuel u ≡ some t
                → all_messages t ≡ all_messages u)
            → all_messages t ≡ all_messages s
        by_test false o e g more = ap all_messages (sym (some-injective _ _ g))
        by_test true none e g more = cc
        by_test true (some u) e g more =
            let r = inner_receive_once-Received s u w e in more u (r.waiting ∙ w) g ∙ r.order

    -- If an actor that waits for no response receives any number of messages, with handlers that
    -- request, wait for replies and give requests up as they like, the ordinary messages that it has
    -- handled, then those put aside, then those still to arrive are together the list that they were
    -- before: each is handled at most once and in the order of arrival.
    pub receive-keeps_order :
        (fuel : ℕ) (s t : Behavior B)
        → s.waiting_for_response ≡ 0
        → receive handler fuel s ≡ some t
        → all_messages t ≡ all_messages s
    unfolding receive
    receive-keeps_order fuel s t w h =
        receive_loop-keeps_order fuel (record s { activated = true }) t w h
