-- ===== src/BehaviorX/Connect/Tests.antt =====
-- Actor 5 sends to actor 1 (core/src/actor_behavior_x.cpp): the queue is registered, then used.
use mathlib.Core.Logic.{◌≢◌}
use zaf.Prelude.{ℕ, true, ◌≡◌, refl, none, [], ◌∷◌, arith}
use zaf.BehaviorX.{register_swsr_queue, notify_swsr_queue}
use zaf.BehaviorX.Connect.{
  notification, Links, link, set_link, send, setup_swsr_connection, push_message, Reach, start,
  later, sends, registers, initial,
}
use zaf.BehaviorX.Connect.Linked.{notify-found}
use zaf.BehaviorX.Connect.Erased.{notify-erased}

abbrev sent : Links ℕ
sent = set_link 5 (send 7 (link 5 (initial 1))) (initial 1)

abbrev registered : Links ℕ
registered =
    set_link 5 (record (link 5 sent) { notices = notification ∷ [] })
      (record sent { receiver = register_swsr_queue 5 sent.receiver })

to_registered : Reach 4 100 1 registered
unfolding send setup_swsr_connection push_message
to_registered =
    later (later start (sends 5 7 refl (omega arith))) (registers 5 (notification ∷ []) refl)

alive : (link 5 registered).is_writing_by_sender ≡ true
unfolding send setup_swsr_connection push_message register_swsr_queue
alive = refl

notify-found_example : notify_swsr_queue 5 registered.receiver ≢ none
notify-found_example = notify-found 5 [] to_registered alive refl

notify-erased_example :
    (s : Links ℕ) × Reach 1 100 1 s
    × ((link 5 s).notices ≡ notification ∷ [])
    × ((link 5 s).items ≡ 8 ∷ [])
    × (notify_swsr_queue 5 s.receiver ≡ none)
notify-erased_example = notify-erased 1 100 1 5 (omega arith) (λ e. absurd (omega (arith, e))) 8
