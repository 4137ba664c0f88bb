-- ===== src/Engine/Tests.antt =====
-- An executor (core/src/actor_engine.cpp) with three actors, of which the first deactivates itself.
use zaf.Prelude.{
  ℕ, ◌+◌, ◌≡◌, refl, Bool, true, false, not, some, List, [], ◌∷◌, ◌==◌, leb, if◌then◌else◌, length,
}
use zaf.Engine.{serve_from, on_rebalance, stop_executor}
use zaf.Engine.Load.{LoadInfo, count_round, load_rebalance}
use zaf.Engine.Slots.{Slot, of_slots}
use zaf.Engine.Rounds.{Round, serve_from-serves_once}

abbrev slot : ℕ → Bool → Slot ℕ
slot actor readable = record {
  actor = actor;
  handler = 10 + actor;
  item = record { socket = 100 + actor; revents = readable };
}

-- The world is the list of what happened: 20 + a for a call of the actor a, 30 + a for its end.
abbrev serve_log : ℕ → ℕ → List ℕ → Bool × List ℕ
serve_log actor handler s = (not (actor == 1), (20 + actor) ∷ s)

abbrev retire_log : ℕ → List ℕ → List ℕ
retire_log actor s = (30 + actor) ∷ s

abbrev three : List (Slot ℕ)
three = slot 1 true ∷ slot 2 false ∷ slot 3 true ∷ []

serves_once_example :
    Round serve_log retire_log
      (slot 0 false ∷ [])
      three
      []
      (serve_from serve_log retire_log (length three) 1 (of_slots (slot 0 false ∷ three)) [])
serves_once_example = serve_from-serves_once serve_log retire_log (slot 0 false) three []

-- The third actor takes the place of the first one, and is served there.
one_round :
    serve_from serve_log retire_log 3 1 (of_slots (slot 0 false ∷ three)) []
    ≡ some (of_slots (slot 0 false ∷ slot 3 true ∷ slot 2 false ∷ []), 23 ∷ 31 ∷ 21 ∷ [])
unfolding serve_from
one_round = refl

given_away :
    on_rebalance 4 (of_slots (slot 0 false ∷ three))
    ≡ some (of_slots (slot 0 false ∷ slot 1 true ∷ slot 3 true ∷ []), some (2, 12))
unfolding on_rebalance
given_away = refl

at_the_end : (stop_executor retire_log (of_slots (slot 0 false ∷ three)) []).1 ≡ 33 ∷ 32 ∷ 31 ∷ []
unfolding stop_executor
at_the_end = refl

unfoldable insert_by : (ℕ → ℕ) → ℕ → List ℕ → List ℕ
insert_by f x [] = x ∷ []
insert_by f x (y ∷ ys) = if leb (f x) (f y) then x ∷ y ∷ ys else y ∷ insert_by f x ys

unfoldable sort_by : (ℕ → ℕ) → List ℕ → List ℕ
unfolding insert_by
sort_by f [] = []
sort_by f (x ∷ xs) = insert_by f x (sort_by f xs)

abbrev loads : LoadInfo
loads = record { executor_load_counts = 9 ∷ 2 ∷ 4 ∷ 5 ∷ []; need_load_rebalance = false }

-- The executor with the fewest rounds gives an actor to the one with the most.
slowest_gives :
    (load_rebalance (λ slow fast. leb (slow + slow) fast) sort_by (0 ∷ 1 ∷ 2 ∷ 3 ∷ []) loads).0
    ≡ (1, 0) ∷ []
unfolding load_rebalance sort_by
slowest_gives = refl

due_at_period : (count_round 10 0 loads).1 ≡ true
unfolding count_round
due_at_period = refl
