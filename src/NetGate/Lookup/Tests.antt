-- ===== src/NetGate/Lookup/Tests.antt =====
-- Two local actors ask for the same remote actor (core/src/net_gate.cpp), which is registered after the
-- request has come.
use zaf.Prelude.{◌≡◌, refl, [], ◌∷◌, ◌==◌, if◌then◌else◌}
use zaf.NetGate.Lookup.{
  Gates, on_actor_lookup_req, on_actor_registration, on_remote_actor_lookup_req,
  on_remote_actor_lookup_rep, Reach, start, later, asks, registers, owner_receives, asker_receives,
  initial,
}
use zaf.NetGate.Lookup.Entries.{AnsweredOnce}
use zaf.NetGate.Lookup.Answered.{Reach-AnsweredOnce}

abbrev before : Gates
before = on_actor_registration 1 77 (
    on_remote_actor_lookup_req 1
      (record (on_actor_lookup_req 1 11 (on_actor_lookup_req 1 10 initial)) { to_owner = [] }))

abbrev after : Gates
after = record before {
  to_asker = [];
  actor_lookup_requesters = λ n. if n == 1 then [] else before.actor_lookup_requesters n;
  answered = λ n. if n == 1 then 10 ∷ 11 ∷ [] else [];
}

reached : Reach after
unfolding on_actor_lookup_req on_actor_registration on_remote_actor_lookup_req
    on_remote_actor_lookup_rep
reached =
    later
      (later (later (later (later start (asks 1 10)) (asks 1 11)) (owner_receives 1 [] refl))
        (registers 1 77))
      (asker_receives 1 77 [] refl refl)

Reach-AnsweredOnce_example : AnsweredOnce after 1
Reach-AnsweredOnce_example = Reach-AnsweredOnce reached 1

both_answered : after.answered 1 ≡ 10 ∷ 11 ∷ []
both_answered = refl
