-- ===== src/Engine/Pool/Tests.antt =====
-- Two executors (core/src/actor_engine.cpp): an actor is spawned on the first one, and given to the
-- second one. A further actor deactivates itself in its start, and nobody has it any more.
use zaf.Prelude.{ℕ, ◌+◌, refl, Bool, false, not, List, [], ◌∷◌, ◌==◌, map, arith}
use zaf.Engine.{Executor, new_actor, rebalance, actor_transfer, listen_to_actor, on_command}
use zaf.Engine.Slots.{Slot, of_slots}
use zaf.Engine.Pool.{Pool, initialize, spawn, Steps, spawns, asks, obeys, none_yet, later}
use zaf.Engine.Pool.Conserved.{Conserved, Steps-Conserved}

abbrev start_log : ℕ → List ℕ → Bool × List ℕ
start_log actor w = (not (actor == 8), actor ∷ w)

abbrev handlers_of : ℕ → ℕ
handlers_of actor = 10 + actor

abbrev receive_log : ℕ → ℕ → List ℕ → Bool × List ℕ
receive_log actor handler w = (not (actor == 9), w)

abbrev stop_log : ℕ → List ℕ → List ℕ
stop_log actor w = w

abbrev owns : List (ℕ × ℕ)
owns = (0, 10) ∷ (1, 11) ∷ []

abbrev slot : ℕ → Slot ℕ
slot actor = record {
  actor = actor;
  handler = 10 + actor;
  item = record { socket = 10 + actor; revents = false };
}

abbrev executors : List ℕ → List ℕ → List (Executor ℕ)
executors l r = of_slots (map slot l) ∷ of_slots (map slot r) ∷ []

abbrev at_end : Pool ℕ (List ℕ)
at_end = record {
  executors = executors (0 ∷ []) (1 ∷ 7 ∷ []);
  in_flight = [];
  next_executor = 2;
  world = 8 ∷ 7 ∷ [];
  spawned = 8 ∷ 7 ∷ [];
  stopped = [];
  abandoned = 8 ∷ [];
}

abbrev Run : Pool ℕ (List ℕ) → Type 0
Run = Steps start_log handlers_of handlers_of receive_log stop_log (initialize handlers_of owns [])

run : Run at_end
unfolding initialize spawn on_command listen_to_actor
run =
    later
      (later
        (later
          (later
            (later (later (later none_yet (spawns 7 (omega arith))) (spawns 8 (omega arith)))
              (obeys [] _ _ [] _ (new_actor 7) _ refl refl (omega arith) refl))
            (obeys (_ ∷ []) _ _ [] _ (new_actor 8) _ refl refl (omega arith) refl))
          (asks 0 1 5))
        (obeys [] _ _ [] _ (rebalance 1 5) _ refl refl (omega arith) refl))
      (obeys (_ ∷ []) _ _ [] _ (actor_transfer 7 17) _ refl refl (omega arith) refl)

Steps-Conserved_example : Conserved at_end
Steps-Conserved_example =
    Steps-Conserved start_log handlers_of handlers_of receive_log stop_log owns [] run
