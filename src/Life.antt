-- ===== src/Life.antt =====
-- The life of an actor from its initialization to its termination (core/src/actor_behavior.cpp): the
-- peers that its send socket is connected to, and the messages that it owns.
-- Peers and messages are numbers. `connections` is what the send socket is connected to; `deleted` and
-- `taken` list the messages that were deleted, and those that a handler took over.
pub mod Released
mod Tests
use zaf.Prelude.{
  ℕ, ◌≡◌, Bool, true, false, Option, none, some, List, [], ◌∷◌, ◌++◌, ◌==◌, if◌then◌else◌,
}
use zaf.Serial.Codec.{◌>>=◌}

pub record ActorLife : Type 0 where
  pub initialized : Bool
  pub actor_id : ℕ
  pub connected_receivers : List ℕ
  pub connections : List ℕ
  pub sent : List (ℕ × ℕ)
  pub pending_messages : List ℕ
  pub inbox : List ℕ
  pub deleted : List ℕ
  pub taken : List ℕ

-- What a handler does with the current message: nothing, `take_current_message`, or, for the default
-- handler of a nested receive, put it aside.
pub data Use : Type 0 where
  look : Use
  take : Use
  put_aside : Use

unfoldable pub contains : ℕ → List ℕ → Bool
contains x [] = false
contains x (y ∷ ys) = if x == y then true else contains x ys

-- `disconnect`; `none` is the exception for a peer that is not connected.
unfoldable pub disconnect : ℕ → List ℕ → Option (List ℕ)
disconnect peer [] = none
disconnect peer (x ∷ xs) =
    let rest = disconnect peer xs in if peer == x then some xs else (rest >>= λ l. some (x ∷ l))

-- `terminate_send_socket`
unfoldable pub disconnect_all : List ℕ → List ℕ → Option (List ℕ)
unfolding disconnect
disconnect_all [] connections = some connections
disconnect_all (peer ∷ peers) connections = do
  rest ← disconnect peer connections
  disconnect_all peers rest

unfoldable pub initialize_actor : ℕ → ActorLife → Option ActorLife
unfolding contains
initialize_actor id a =
    if a.initialized
    then none
    else some (record a {
      initialized = true;
      actor_id = id;
      connected_receivers =
          if contains id a.connected_receivers
          then a.connected_receivers
          else id ∷ a.connected_receivers;
      connections = id ∷ [];
    })

unfoldable pub send : (receiver message : ℕ) → ActorLife → ActorLife
unfolding contains
send receiver message a =
    if contains receiver a.connected_receivers
    then record a { sent = a.sent ++ (receiver, message) ∷ [] }
    else record a {
      connected_receivers = receiver ∷ a.connected_receivers;
      connections = receiver ∷ a.connections;
      sent = a.sent ++ (receiver, message) ∷ [];
    }

-- `receive_once` with a message from the inbox, whose handler sets `current_message` to null if it
-- takes the message over; `none` if there is no message.
unfoldable pub receive_message : Use → ActorLife → Option ActorLife
receive_message how a = elim a.inbox [
  | [] ↦ none
  | m ∷ rest ↦ some (elim how [
    | look ↦ record a { inbox = rest; deleted = m ∷ a.deleted }
    | take ↦ record a { inbox = rest; taken = m ∷ a.taken }
    | put_aside ↦ record a { inbox = rest; pending_messages = a.pending_messages ++ m ∷ [] }
  ])
]

-- A message that was put aside is handled, deleted or taken, and leaves pending_messages.
unfoldable pub receive_pending : Bool → ActorLife → Option ActorLife
receive_pending takes a = elim a.pending_messages [
  | [] ↦ none
  | m ∷ rest ↦ some (
      if takes
      then record a { pending_messages = rest; taken = m ∷ a.taken }
      else record a { pending_messages = rest; deleted = m ∷ a.deleted })
]

-- `terminate_actor`: all that is owned is deleted, what is left in the inbox too.
unfoldable pub terminate_actor : ActorLife → Option ActorLife
unfolding disconnect_all
terminate_actor a =
    if a.initialized
    then (do
      rest ← disconnect_all a.connected_receivers a.connections
      some (record a {
        initialized = false;
        connections = rest;
        pending_messages = [];
        inbox = [];
        deleted = a.inbox ++ (a.pending_messages ++ a.deleted);
      }))
    else some a

abbrev pub newborn : ActorLife
newborn = record {
  initialized = false;
  actor_id = 0;
  connected_receivers = [];
  connections = [];
  sent = [];
  pending_messages = [];
  inbox = [];
  deleted = [];
  taken = [];
}

-- A life of an actor up to its termination, with the messages that have arrived.
pub data Lives : List ℕ → ActorLife → Type 0 where
  begins : (id : ℕ) {a : ActorLife} → initialize_actor id newborn ≡ some a → Lives [] a
  sends : {l : List ℕ} {a : ActorLife} (r m : ℕ) → Lives l a → Lives l (send r m a)
  arrives :
      {l : List ℕ} {a : ActorLife} (m : ℕ)
      → Lives l a
      → Lives (m ∷ l) (record a { inbox = a.inbox ++ m ∷ [] })
  receives :
      {l : List ℕ} {a b : ActorLife} (how : Use)
      → Lives l a
      → receive_message how a ≡ some b
      → Lives l b
  resumes :
      {l : List ℕ} {a b : ActorLife} (takes : Bool)
      → Lives l a
      → receive_pending takes a ≡ some b
      → Lives l b
