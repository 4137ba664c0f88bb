-- ===== src/NetGate/Lookup.antt =====
-- Lookups of registered actors between two net gates (core/src/net_gate.cpp, the handlers of
-- `NetGateActor`): the asker, whose local actors ask for actors of the owner by their names.
-- Names, actors and requesters are numbers. A map from names is a function; a name without an entry has
-- the empty list, or no actor.
pub mod Entries
pub mod Answered
mod Tests
use zaf.Prelude.{
  ℕ, zero, suc, ◌+◌, ◌≡◌, Bool, true, false, Option, none, some, List, [], ◌∷◌, ◌++◌, map, ◌==◌,
  if◌then◌else◌,
}
use zaf.Serial.Codec.{◌>>=◌}

-- `actor_lookup_requesters` of the asker's connection; `local_registered_actors` of the owner, with
-- each actor and the requests that came too early; what is on its way between the two, as
-- Connection/Order has it: RemoteActorLookupReq, and RemoteActorLookupRep with an actor. `asked` and
-- `answered` list the requesters of a name so far.
pub record Gates : Type 0 where
  pub actor_lookup_requesters : ℕ → List ℕ
  pub actor : ℕ → Option ℕ
  pub requesters : ℕ → ℕ
  pub to_owner : List ℕ
  pub to_asker : List (ℕ × ℕ)
  pub asked : ℕ → List ℕ
  pub answered : ℕ → List ℕ

-- An assignment to one entry.
abbrev pub assign : {A : Type 0} → ℕ → A → (ℕ → A) → ℕ → A
assign name v f k = if k == name then v else f k

abbrev pub replies : (name actor count : ℕ) → List (ℕ × ℕ)
replies name actor zero = []
replies name actor (suc n) = (name, actor) ∷ replies name actor n

abbrev pub request_if_first : ℕ → List ℕ → List ℕ
request_if_first name [] = name ∷ []
request_if_first name (x ∷ xs) = []

-- ActorLookupReq
unfoldable pub on_actor_lookup_req : (name requester : ℕ) → Gates → Gates
on_actor_lookup_req name requester g =
    let waiting = g.actor_lookup_requesters name in
    record g {
      actor_lookup_requesters = assign name (waiting ++ requester ∷ []) g.actor_lookup_requesters;
      to_owner = g.to_owner ++ request_if_first name waiting;
      asked = assign name (g.asked name ++ requester ∷ []) g.asked;
    }

-- ActorRegistration, of a local actor.
unfoldable pub on_actor_registration : (name actor : ℕ) → Gates → Gates
on_actor_registration name actor g = record g {
  actor = assign name (some actor) g.actor;
  requesters = assign name 0 g.requesters;
  to_asker = g.to_asker ++ replies name actor (g.requesters name);
}

-- RemoteActorLookupReq; the asker is the only peer that asks here, so its urls are counted.
unfoldable pub on_remote_actor_lookup_req : (name : ℕ) → Gates → Gates
on_remote_actor_lookup_req name g = elim (g.actor name) [
  | none ↦ record g { requesters = assign name (suc (g.requesters name)) g.requesters }
  | some a ↦ record g { to_asker = g.to_asker ++ (name, a) ∷ [] }
]

-- RemoteActorLookupRep; `none` is the use of an iterator at the end.
unfoldable pub on_remote_actor_lookup_rep : (name actor : ℕ) → Gates → Option Gates
on_remote_actor_lookup_rep name actor g = elim (g.actor_lookup_requesters name) [
  | [] ↦ none
  | x ∷ xs ↦ some (record g {
    actor_lookup_requesters = assign name [] g.actor_lookup_requesters;
    answered = assign name (g.answered name ++ x ∷ xs) g.answered;
  })
]

-- The two gates with their channels.
pub data Step : Gates → Gates → Type 0 where
  asks : {g : Gates} (name requester : ℕ) → Step g (on_actor_lookup_req name requester g)
  registers : {g : Gates} (name actor : ℕ) → Step g (on_actor_registration name actor g)
  owner_receives :
      {g : Gates} (name : ℕ) (rest : List ℕ)
      → g.to_owner ≡ name ∷ rest
      → Step g (on_remote_actor_lookup_req name (record g { to_owner = rest }))
  asker_receives :
      {g g' : Gates} (name actor : ℕ) (rest : List (ℕ × ℕ))
      → g.to_asker ≡ (name, actor) ∷ rest
      → on_remote_actor_lookup_rep name actor (record g { to_asker = rest }) ≡ some g'
      → Step g g'

abbrev pub initial : Gates
initial = record {
  actor_lookup_requesters = λ n. [];
  actor = λ n. none;
  requesters = λ n. 0;
  to_owner = [];
  to_asker = [];
  asked = λ n. [];
  answered = λ n. [];
}

pub data Reach : Gates → Type 0 where
  start : Reach initial
  later : {g h : Gates} → Reach g → Step g h → Reach h
