-- ===== src/NetGate/Lookup/Answered.antt =====
-- Every lookup is answered once (core/src/net_gate.cpp), whether the actor is registered before or
-- after the request for it.
use zaf.Prelude.{
  ℕ, suc, ◌≡◌, refl, ap, sym, subst, ◌∙◌, Option, none, some, List, [], ◌∷◌, ◌++◌, count,
  count-append, append-nil, append_assoc, arith,
}
use mathlib.Core.Option.{some-injective}
use zaf.NetGate.Lookup.{
  Gates, assign, replies, request_if_first, on_actor_lookup_req, on_actor_registration,
  on_remote_actor_lookup_req, on_remote_actor_lookup_rep, asks, registers, owner_receives,
  asker_receives, Reach, start, later,
}
use zaf.NetGate.Lookup.Entries.{
  some_waiting, names, AnsweredOnce, some_waiting-snoc, count-request, count-request_other,
  count-replies, count-replies_other, count-names, self, by_name, assign_self, assign_other,
  hit_self, hit_other,
}

asks-AnsweredOnce :
    (name requester : ℕ) (g : Gates)
    → ((k : ℕ) → AnsweredOnce g k)
    → (k : ℕ) → AnsweredOnce (on_actor_lookup_req name requester g) k
unfolding on_actor_lookup_req
asks-AnsweredOnce name requester g h =
    let waiting = g.actor_lookup_requesters name in
    by_name (AnsweredOnce (on_actor_lookup_req name requester g)) name
      (record {
        order = rw (self name) (
            ap (λ l. l ++ requester ∷ []) (h name).order
            ∙ append_assoc (g.answered name) waiting (requester ∷ []));
        one_request = omega (
          arith,
          (h name).one_request,
          ap some_waiting (assign_self name (waiting ++ requester ∷ []) g.actor_lookup_requesters),
          some_waiting-snoc waiting requester,
          count-append name g.to_owner (request_if_first name waiting),
          count-request name waiting (hit_self name),
        );
        kept = (h name).kept;
      })
      (λ k e. record {
        order = rw e (h k).order;
        one_request = omega (
          arith,
          (h k).one_request,
          ap some_waiting
              (assign_other name (waiting ++ requester ∷ []) g.actor_lookup_requesters k e),
          count-append k g.to_owner (request_if_first name waiting),
          count-request_other k name waiting (hit_other k name e),
        );
        kept = (h k).kept;
      })

registers-AnsweredOnce :
    (name actor : ℕ) (g : Gates)
    → ((k : ℕ) → AnsweredOnce g k)
    → (k : ℕ) → AnsweredOnce (on_actor_registration name actor g) k
unfolding on_actor_registration
registers-AnsweredOnce name actor g h =
    let sent = replies name actor (g.requesters name) in
    by_name (AnsweredOnce (on_actor_registration name actor g)) name
      (record {
        order = (h name).order;
        one_request = omega (
          arith,
          (h name).one_request,
          assign_self name 0 g.requesters,
          count-names name g.to_asker sent,
          count-replies name actor (g.requesters name) (hit_self name),
        );
        kept = rw (self name) refl;
      })
      (λ k e. record {
        order = (h k).order;
        one_request = omega (
          arith,
          (h k).one_request,
          assign_other name 0 g.requesters k e,
          count-names k g.to_asker sent,
          count-replies_other k name actor (g.requesters name) (hit_other k name e),
        );
        kept = rw e (h k).kept;
      })

owner_receives-AnsweredOnce :
    (name : ℕ) (rest : List ℕ) (g : Gates)
    → g.to_owner ≡ name ∷ rest
    → ((k : ℕ) → AnsweredOnce g k)
    → (k : ℕ) → AnsweredOnce (on_remote_actor_lookup_req name (record g { to_owner = rest })) k
unfolding on_remote_actor_lookup_req
owner_receives-AnsweredOnce name rest g e h = by_actor (g.actor name) refl
  where
    more : ℕ
    more = suc (g.requesters name)

    by_actor :
        (o : Option ℕ)
        → g.actor name ≡ o
        → (k : ℕ)
        → AnsweredOnce
            (elim o [
              | none ↦ record g { to_owner = rest; requesters = assign name more g.requesters }
              | some a ↦ record g { to_owner = rest; to_asker = g.to_asker ++ (name, a) ∷ [] }
            ])
            k
    by_actor none o =
        by_name
          (AnsweredOnce (record g { to_owner = rest; requesters = assign name more g.requesters }))
          name
          (record {
            order = (h name).order;
            one_request = omega (
              arith,
              (h name).one_request,
              ap (count name) e,
              hit_self name,
              assign_self name more g.requesters,
            );
            kept = rw o refl;
          })
          (λ k d. record {
            order = (h k).order;
            one_request = omega (
              arith,
              (h k).one_request,
              ap (count k) e,
              hit_other k name d,
              assign_other name more g.requesters k d,
            );
            kept = rw d (h k).kept;
          })
    by_actor (some a) o =
        by_name
          (AnsweredOnce (record g { to_owner = rest; to_asker = g.to_asker ++ (name, a) ∷ [] }))
          name
          (record {
            order = (h name).order;
            one_request = omega (
              arith,
              (h name).one_request,
              ap (count name) e,
              hit_self name,
              count-names name g.to_asker ((name, a) ∷ []),
            );
            kept = (h name).kept;
          })
          (λ k d. record {
            order = (h k).order;
            one_request = omega (
              arith,
              (h k).one_request,
              ap (count k) e,
              hit_other k name d,
              count-names k g.to_asker ((name, a) ∷ []),
            );
            kept = (h k).kept;
          })

asker_receives-AnsweredOnce :
    (name actor : ℕ) (rest : List (ℕ × ℕ)) (g g' : Gates)
    → g.to_asker ≡ (name, actor) ∷ rest
    → on_remote_actor_lookup_rep name actor (record g { to_asker = rest }) ≡ some g'
    → ((k : ℕ) → AnsweredOnce g k)
    → (k : ℕ) → AnsweredOnce g' k
unfolding on_remote_actor_lookup_rep
asker_receives-AnsweredOnce name actor rest g g' e r h =
    by_waiting (g.actor_lookup_requesters name) refl r
  where
    done : List ℕ → Gates
    done l = record g {
      to_asker = rest;
      actor_lookup_requesters = assign name [] g.actor_lookup_requesters;
      answered = assign name (g.answered name ++ l) g.answered;
    }

    by_waiting :
        (l : List ℕ)
        → g.actor_lookup_requesters name ≡ l
        → elim l [ [] ↦ none | x ∷ xs ↦ some (done (x ∷ xs)) ] ≡ some g'
        → (k : ℕ) → AnsweredOnce g' k
    by_waiting [] w r = cc
    by_waiting (x ∷ xs) w r =
        by_name (AnsweredOnce g') name
          (subst (λ u. AnsweredOnce u name) (some-injective _ _ r)
            (record {
              order = rw (self name) (
                  (h name).order
                  ∙ ap (λ l. g.answered name ++ l) w
                  ∙ sym (append-nil (g.answered name ++ x ∷ xs)));
              one_request = omega (
                arith,
                (h name).one_request,
                ap (λ l. count name (names l)) e,
                hit_self name,
                ap some_waiting w,
                ap some_waiting (assign_self name [] g.actor_lookup_requesters),
              );
              kept = (h name).kept;
            }))
          (λ k d.
            subst (λ u. AnsweredOnce u k) (some-injective _ _ r)
              (record {
                order = rw d (h k).order;
                one_request = omega (
                  arith,
                  (h k).one_request,
                  ap (λ l. count k (names l)) e,
                  hit_other k name d,
                  ap some_waiting (assign_other name [] g.actor_lookup_requesters k d),
                );
                kept = (h k).kept;
              }))

-- In every run of lookups and registrations, with requests and replies under way as long as they like,
-- each requester of a name has been answered or still waits, each once and in the order of the asking.
-- While someone waits for a name exactly one request for it is on its way, kept by the owner until the
-- registration, or answered by a reply on its way, and while nobody waits there is none; the owner
-- keeps none for a name that is registered.
pub Reach-AnsweredOnce : {g : Gates} → Reach g → (name : ℕ) → AnsweredOnce g name
Reach-AnsweredOnce start = λ name. record { order = refl; one_request = refl; kept = refl }
Reach-AnsweredOnce (later r (asks name requester)) =
    asks-AnsweredOnce name requester _ (Reach-AnsweredOnce r)
Reach-AnsweredOnce (later r (registers name actor)) =
    registers-AnsweredOnce name actor _ (Reach-AnsweredOnce r)
Reach-AnsweredOnce (later r (owner_receives name rest e)) =
    owner_receives-AnsweredOnce name rest _ e (Reach-AnsweredOnce r)
Reach-AnsweredOnce (later r (asker_receives name actor rest e k)) =
    asker_receives-AnsweredOnce name actor rest _ _ e k (Reach-AnsweredOnce r)
