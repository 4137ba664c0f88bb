-- ===== src/Group/Tests.antt =====
-- A group (core/src/actor_group.cpp) with two actors, of which one is detached and the other ends while
-- the thread sleeps.
use zaf.Prelude.{refl, [], arith}
use zaf.Group.{
  ActorGroup, on_all_actors_done, compare_alive, notify_alive, compare_zero, compare_detached,
  inc_num_alive_actors, dec_num_alive_actors, inc_num_detached_actors, go_on, Reach, start, later,
  spawns, ends, detaches, continues, waits_for_alive, waits_for_all,
}
use zaf.Group.Awake.{SleepsRightly, Reach-SleepsRightly}

abbrev at_end : ActorGroup
at_end = record {
  num_alive_actors = 1;
  num_detached_actors = 1;
  waiter = on_all_actors_done;
  calls = [];
}

reached : Reach at_end
unfolding inc_num_alive_actors dec_num_alive_actors inc_num_detached_actors go_on
reached =
    later
      (later
        (later
          (later
            (later
              (later
                (later (later (later (later start spawns) spawns) (detaches (omega arith)))
                  (continues [] [] (compare_detached 1) refl))
                (waits_for_alive (λ e. absurd (omega (arith, e)))))
              (ends (omega arith)))
            (continues [] [] (compare_alive 1) refl))
          (continues [] [] (notify_alive 1) refl))
        (continues [] [] (compare_zero 1) refl))
      (waits_for_all (λ e. absurd (omega (arith, e))) refl)

Reach-SleepsRightly_example : SleepsRightly on_all_actors_done at_end
Reach-SleepsRightly_example = Reach-SleepsRightly reached refl
