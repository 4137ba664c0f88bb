-- ===== src/System/Ids.antt =====
-- Which ids actors get (core/src/actor_system.cpp).
use zaf.Prelude.{ℕ, zero, suc, ◌+◌, ◌*◌, ◌%◌, ◌^◌, ◌<◌, ◌≡◌, ◌≢◌, refl, ap, sym, ◌∙◌, false, arith}
use zaf.Actor.{local_is_set}
use zaf.System.{get_next_available_actor_id, counter, spawned}

counter-eq : (n : ℕ) → n + 1 < 2 ^ 32 → counter n ≡ n + 1
unfolding counter get_next_available_actor_id
counter-eq zero h = refl
counter-eq (suc n) h = omega (arith, counter-eq n (omega arith))

spawned-eq : (n : ℕ) → n + 1 < 2 ^ 32 → (spawned n).local_actor_id ≡ (n + 1) % 100000
unfolding spawned get_next_available_actor_id
spawned-eq n h = ap (λ c. c % 100000) (counter-eq n h)

-- Two actors have the same id only if a multiple of MaxActorId of actors was spawned from the one to
-- the other, as long as the counter has not wrapped around.
pub spawned-distinct :
    (m n : ℕ)
    → n + 1 < 2 ^ 32
    → m < n
    → n < m + 100000
    → (spawned m).local_actor_id ≢ (spawned n).local_actor_id
spawned-distinct m n h l k e = omega (arith, sym (spawned-eq m (omega arith)) ∙ e ∙ spawned-eq n h)

-- The actor that is spawned after 99999 others, or any multiple of MaxActorId more, gets the handle
-- that stands for no actor.
pub spawned-null :
    (k : ℕ) → 100000 * k + 100000 < 2 ^ 32 → local_is_set (spawned (100000 * k + 99999)) ≡ false
unfolding local_is_set
spawned-null k h =
    let zero_id : (spawned (100000 * k + 99999)).local_actor_id ≡ 0 =
      spawned-eq (100000 * k + 99999) (omega arith) ∙ omega arith in
    rw zero_id
