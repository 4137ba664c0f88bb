-- ===== src/Life/Tests.antt =====
-- An actor (core/src/actor_behavior.cpp) that sends twice to one peer and gets three messages, one of
-- which it takes over and one of which it never handles.
use zaf.Prelude.{true, false, ◌≡◌, refl, some, [], ◌∷◌}
use zaf.Serial.Codec.{◌>>=◌}
use zaf.Life.{
  ActorLife, take, put_aside, contains, initialize_actor, send, receive_message, terminate_actor,
  Lives, begins, sends, arrives, receives,
}
use zaf.Life.Released.{IsReleased, terminate_actor-IsReleased}

abbrev at_end : ActorLife
at_end = record {
  initialized = true;
  actor_id = 5;
  connected_receivers = 7 ∷ 5 ∷ [];
  connections = 7 ∷ 5 ∷ [];
  sent = (7, 70) ∷ (7, 71) ∷ [];
  pending_messages = 92 ∷ [];
  inbox = 93 ∷ [];
  deleted = [];
  taken = 91 ∷ [];
}

life : Lives (93 ∷ 92 ∷ 91 ∷ []) at_end
unfolding initialize_actor send receive_message
life =
    receives put_aside
      (receives take
        (arrives 93 (arrives 92 (arrives 91 (sends 7 71 (sends 7 70 (begins 5 refl)))))) refl)
      refl

terminate_actor-IsReleased_example :
    (b : ActorLife) × (terminate_actor at_end ≡ some b) × IsReleased (93 ∷ 92 ∷ 91 ∷ []) b
terminate_actor-IsReleased_example = terminate_actor-IsReleased life

-- After a second initialization the peer counts as connected, and is not.
not_connected_again :
    (do
      ended ← terminate_actor at_end
      again ← initialize_actor 6 ended
      some (contains 7 (send 7 72 again).connections))
    ≡ some false
unfolding terminate_actor initialize_actor send contains
not_connected_again = refl
