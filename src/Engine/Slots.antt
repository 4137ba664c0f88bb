-- ===== src/Engine/Slots.antt =====
-- The three vectors of an executor (core/src/actor_engine.cpp) as one list of slots, each an actor with
-- its handlers and its poll item. An executor that is made of slots never reads out of range.
use zaf.Prelude.{
  ℕ, ◌≡◌, refl, sym, ◌∙◌, false, List, [], ◌∷◌, ◌++◌, map, length, move_back, map-append,
  map-move_back, pop_back-exchange_back, length-move_back, length-append, arith,
}
use zaf.Engine.{PollItem, Executor, listen_to_actor, remove_actor}

pub record Slot (H : Type 0) : Type 0 where
  pub actor : ℕ
  pub handler : H
  pub item : PollItem

module _ {H : Type 0} where
  abbrev pub of_slots : List (Slot H) → Executor H
  of_slots l = record {
    actors = map (λ x. x.actor) l;
    handlers = map (λ x. x.handler) l;
    poll_items = map (λ x. x.item) l;
    num_poll_items = length l;
  }

  abbrev executor : List ℕ → List H → List PollItem → ℕ → Executor H
  executor a h p n = record { actors = a; handlers = h; poll_items = p; num_poll_items = n }

  pub executor-eq :
      {a a' : List ℕ} {h h' : List H} {p p' : List PollItem} {n n' : ℕ}
      → a ≡ a'
      → h ≡ h'
      → p ≡ p'
      → n ≡ n'
      → executor a h p n ≡ executor a' h' p' n'
  executor-eq e1 e2 e3 e4 = rw (e1, e2, e3, e4) refl

  abbrev pub new_slot : (actor : ℕ) (handler : H) (socket : ℕ) → Slot H
  new_slot actor handler socket = record {
    actor = actor;
    handler = handler;
    item = record { socket = socket; revents = false };
  }

  pub listen_to_actor-of_slots :
      (actor : ℕ) (handler : H) (socket : ℕ) (l : List (Slot H))
      → listen_to_actor actor handler socket (of_slots l)
        ≡ of_slots (l ++ new_slot actor handler socket ∷ [])
  unfolding listen_to_actor
  listen_to_actor-of_slots actor handler socket l =
      let x = new_slot actor handler socket ∷ [] in
      executor-eq (sym (map-append (λ x. x.actor) l x)) (sym (map-append (λ x. x.handler) l x))
        (sym (map-append (λ x. x.item) l x)) (omega (arith, length-append l x))

  pub remove_actor-of_slots :
      (i : ℕ) (l : List (Slot H)) → remove_actor i (of_slots l) ≡ of_slots (move_back l i)
  unfolding remove_actor
  remove_actor-of_slots i l =
      executor-eq (map-move_back (λ x. x.actor) l i)
        (pop_back-exchange_back (map (λ x. x.handler) l) i ∙ map-move_back (λ x. x.handler) l i)
        (map-move_back (λ x. x.item) l i) (sym (length-move_back l i))
