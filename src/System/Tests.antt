-- ===== src/System/Tests.antt =====
-- Ids and routing ids (core/src/actor_system.cpp, core/src/actor_behavior.cpp) on concrete actors.
use zaf.Prelude.{ℕ, ◌+◌, ◌*◌, ◌≡◌, refl, true, false, [], ◌∷◌, arith}
use zaf.Actor.{local_is_set}
use zaf.System.{spawned}
use zaf.System.Ids.{spawned-null}
use zaf.System.Routing.{get_routing_id-distinct}

spawned-null_example : local_is_set (spawned (100000 * 2 + 99999)) ≡ false
spawned-null_example = spawned-null 2 (omega arith)

abbrev an_id : ℕ
an_id = 20417

get_routing_id-distinct_example : (an_id ≡ an_id) × (true ≡ true)
get_routing_id-distinct_example =
    get_routing_id-distinct an_id an_id true true (122 ∷ []) (omega arith) (omega arith) refl
