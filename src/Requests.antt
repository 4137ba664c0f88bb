-- ===== src/Requests.antt =====
-- Requests and responses of an actor (core/src/actor_behavior.cpp, core/zaf/actor_behavior.hpp):
-- RequestHandler with its nested `receive`, stored responses, and the messages that are put aside.
-- `B` is the type of the bodies of responses. An ordinary message is a number; what its handler does
-- with requests is a list of actions. `inbox` is what arrives at the actor's socket, now and later, in
-- order. A handler of a reply changes nothing that is modelled here but the list of the replies.
pub mod Aside
pub mod Order
pub mod Reply
mod Tests
use zaf.Prelude.{
  ℕ, zero, suc, ◌+◌, ◌-◌, ◌%◌, ◌^◌, Bool, true, false, Option, none, some, List, [], ◌∷◌, ◌++◌,
  ◌==◌, if◌then◌else◌,
}
use zaf.Serial.Codec.{◌>>=◌}

pub data Incoming (B : Type 0) : Type 0 where
  response : (req_id : ℕ) (body : B) → Incoming B
  message : (m : ℕ) → Incoming B

-- `handled` and `replies` are no members: they list the messages given to the actor's handlers, and
-- the bodies given to handlers of replies.
pub record Behavior (B : Type 0) : Type 0 where
  pub unfinished_requests : List (ℕ × Option B)
  pub pending_messages : List ℕ
  pub waiting_for_response : ℕ
  pub request_id : ℕ
  pub activated : Bool
  pub inbox : List (Incoming B)
  pub handled : List ℕ
  pub replies : List (ℕ × B)

-- What a handler does: `request`, `on_reply` of a RequestHandler, its destruction, `deactivate`.
pub data Action : Type 0 where
  request : Action
  await : (req_id : ℕ) → Action
  drop : (req_id : ℕ) → Action
  deactivate : Action

abbrev pub pop_front : List ℕ → List ℕ
pop_front [] = []
pop_front (m ∷ rest) = rest

module _ {B : Type 0} where
  -- `unfinished_requests`: `find`, `erase`, `emplace` and the assignment to a found entry. A body that
  -- is not there is a null pointer.
  unfoldable pub find_request : ℕ → List (ℕ × Option B) → Option (Option B)
  find_request id [] = none
  find_request id (x ∷ xs) = if id == x.0 then some x.1 else find_request id xs

  unfoldable pub erase_request : ℕ → List (ℕ × Option B) → List (ℕ × Option B)
  erase_request id [] = []
  erase_request id (x ∷ xs) = if id == x.0 then xs else x ∷ erase_request id xs

  unfoldable pub store_body : ℕ → B → List (ℕ × Option B) → List (ℕ × Option B)
  store_body id b [] = []
  store_body id b (x ∷ xs) = if id == x.0 then (x.0, some b) ∷ xs else x ∷ store_body id b xs

  unfoldable pub emplace_request : ℕ → List (ℕ × Option B) → List (ℕ × Option B)
  unfolding find_request
  emplace_request id l = elim (find_request id l) [ none ↦ (id, none) ∷ l | some o ↦ l ]

  unfoldable pub store_response : ℕ → B → Behavior B → Behavior B
  unfolding store_body
  store_response id b s = record s { unfinished_requests = store_body id b s.unfinished_requests }

  -- The two handlers of the nested `receive` in `on_reply`.
  unfoldable pub on_incoming : ℕ → Incoming B → Behavior B → Behavior B
  unfolding store_response
  on_incoming id (response req_id b) s =
      if req_id == id
      then record s { replies = s.replies ++ (id, b) ∷ []; activated = false }
      else store_response req_id b s
  on_incoming id (message m) s = record s { pending_messages = s.pending_messages ++ m ∷ [] }

  -- The loop of the nested `receive`; `none` if it waits for ever.
  unfoldable pub receive_nested : ℕ → List (Incoming B) → Behavior B → Option (Behavior B)
  unfolding on_incoming
  receive_nested id [] s = none
  receive_nested id (x ∷ rest) s =
      let t = on_incoming id x (record s { inbox = rest }) in
      let more = receive_nested id rest t in if t.activated then more else some t

  -- `on_reply`; `none` also if there is no such request.
  unfoldable pub on_reply : ℕ → Behavior B → Option (Behavior B)
  unfolding find_request erase_request receive_nested
  on_reply id s = do
    stored ← find_request id s.unfinished_requests
    let erased = erase_request id s.unfinished_requests
    elim stored [
      | some b ↦
          some (record s { unfinished_requests = erased; replies = s.replies ++ (id, b) ∷ [] })
      | none ↦ do
        t ← receive_nested id s.inbox (record s {
          unfinished_requests = erased;
          waiting_for_response = suc s.waiting_for_response;
          activated = true;
        })
        some (record t {
          activated = if s.activated then true else t.activated;
          waiting_for_response = t.waiting_for_response - 1;
        })
    ]

  unfoldable pub act : Action → Behavior B → Option (Behavior B)
  unfolding emplace_request on_reply
  act request s = some (record s {
    unfinished_requests = emplace_request s.request_id s.unfinished_requests;
    request_id = (s.request_id + 1) % 2 ^ 32;
  })
  act (await id) s = on_reply id s
  act (drop id) s = some (record s { unfinished_requests = erase_request id s.unfinished_requests })
  act deactivate s = some (record s { activated = false })

  unfoldable pub act_all : List Action → Behavior B → Option (Behavior B)
  unfolding act
  act_all [] s = some s
  act_all (a ∷ rest) s = do t ← act a s; act_all rest t

  module _ (handler : ℕ → List Action) where
    -- A message from the socket, by the actor's handlers and the Response handler of its constructor.
    unfoldable pub receive_from_socket : Behavior B → Option (Behavior B)
    unfolding store_response act_all
    receive_from_socket s = elim s.inbox [
      | [] ↦ none
      | x ∷ rest ↦ elim x [
        | response id b ↦ some (store_response id b (record s { inbox = rest }))
        | message m ↦ act_all (handler m) (record s { inbox = rest; handled = s.handled ++ m ∷ [] })
      ]
    ]

    -- `inner_receive_once`: a message that was put aside is handled first, and taken off afterwards.
    unfoldable pub inner_receive_once : Behavior B → Option (Behavior B)
    unfolding receive_from_socket
    inner_receive_once s = elim s.pending_messages [
      | [] ↦ receive_from_socket s
      | m ∷ rest ↦
          if s.waiting_for_response == 0
          then (do
            t ← act_all (handler m) (record s { handled = s.handled ++ m ∷ [] })
            some (record t { pending_messages = pop_front t.pending_messages }))
          else receive_from_socket s
    ]

    -- The loop of `receive`, for at most `fuel` messages.
    unfoldable pub receive_loop : ℕ → Behavior B → Option (Behavior B)
    unfolding inner_receive_once
    receive_loop zero s = some s
    receive_loop (suc fuel) s =
        if s.activated then (inner_receive_once s >>= λ t. receive_loop fuel t) else some s

    unfoldable pub receive : ℕ → Behavior B → Option (Behavior B)
    unfolding receive_loop
    receive fuel s = receive_loop fuel (record s { activated = true })
