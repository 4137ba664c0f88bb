-- ===== src/Requests/Tests.antt =====
-- An actor (core/src/actor_behavior.cpp) with two requests, whose responses arrive in the other order,
-- among ordinary messages.
use zaf.Prelude.{ℕ, ◌≡◌, refl, true, false, none, some, List, [], ◌∷◌, ◌==◌, if◌then◌else◌, arith}
use zaf.Requests.{
  Incoming, response, message, Behavior, Action, request, await, drop, deactivate, on_reply,
  receive, act_all, find_request,
}
use zaf.Requests.Order.{all_messages, receive-keeps_order}
use zaf.Requests.Reply.{Replied, on_reply-Replied}

abbrev arrivals : List (Incoming ℕ)
arrivals = message 10 ∷ message 20 ∷ response 1 71 ∷ message 30 ∷ response 0 70 ∷ message 40 ∷ []

abbrev fresh : Behavior ℕ
fresh = record {
  unfinished_requests = [];
  pending_messages = [];
  waiting_for_response = 0;
  request_id = 0;
  activated = true;
  inbox = arrivals;
  handled = [];
  replies = [];
}

-- The handler of 10 requests twice and waits for both, the first one first; that of 40 stops.
abbrev handlers : ℕ → List Action
handlers m =
    if m == 10
    then request ∷ request ∷ await 0 ∷ await 1 ∷ []
    else if m == 40
    then deactivate ∷ []
    else []

abbrev finished : Behavior ℕ
finished = record {
  unfinished_requests = [];
  pending_messages = [];
  waiting_for_response = 0;
  request_id = 2;
  activated = false;
  inbox = [];
  handled = 10 ∷ 20 ∷ 30 ∷ 40 ∷ [];
  replies = (0, 70) ∷ (1, 71) ∷ [];
}

to_the_end : receive handlers 9 fresh ≡ some finished
unfolding receive
to_the_end = refl

receive-keeps_order_example : all_messages finished ≡ all_messages fresh
receive-keeps_order_example = receive-keeps_order handlers 9 fresh finished refl to_the_end

abbrev asked : Behavior ℕ
asked = record fresh { unfinished_requests = (1, none) ∷ (0, none) ∷ []; request_id = 2 }

found : find_request 0 asked.unfinished_requests ≡ some none
unfolding find_request
found = refl

on_reply-Replied_example :
    (t : Behavior ℕ) × (on_reply 0 asked ≡ some t)
    × Replied 0 70
        (message 10 ∷ message 20 ∷ response 1 71 ∷ message 30 ∷ [])
        (message 40 ∷ [])
        asked
        t
on_reply-Replied_example =
    on_reply-Replied 0 70 (message 10 ∷ message 20 ∷ response 1 71 ∷ message 30 ∷ [])
      (message 40 ∷ []) asked found refl (omega arith, tt)

-- A request that was given up: its response is dropped.
given_up :
    act_all (request ∷ drop 0 ∷ await 0 ∷ []) (record fresh { inbox = response 0 70 ∷ [] }) ≡ none
unfolding act_all
given_up = refl
