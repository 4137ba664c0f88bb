-- ===== src/NetGate/Facade.antt =====
-- The class `NetGate` (core/src/net_gate.cpp), which starts a `NetGateActor` and tells it to end.
-- An actor is named by its id; a handle with id 0 is not set, and nothing is sent to it. `spawn` is the
-- id of the actor that actor_sys.spawn starts, `none` if it throws.
use mathlib.Core.Bool.{false≢true}
use zaf.Prelude.{
  append-nil, ℕ, zero, suc, ◌<◌, ◌≤◌, ◌≡◌, refl, ap, sym, ◌∙◌, Bool, true, false, Option, none,
  some, List, [], ◌∷◌, ◌++◌, ◌==◌, if◌then◌else◌, length, ne→==, arith,
}

-- `is_initialized` tells whether `actor_sys` is set. `spawned` and `ended` are the NetGateActors that
-- were started and the receivers of a Termination, in order.
record Facade : Type 0 where
  is_initialized : Bool
  net_gate_actor : ℕ
  spawned : List ℕ
  ended : List ℕ

unfoldable new_net_gate : Facade
new_net_gate = record { is_initialized = false; net_gate_actor = 0; spawned = []; ended = [] }

-- The gate afterwards, and whether there was no exception. `actor_sys` stays set if spawn throws.
unfoldable initialize_net_gate : Option ℕ → Facade → Facade × Bool
initialize_net_gate spawn g = if g.is_initialized then (g, false) else elim spawn [
  | some id ↦ (
    record {
      is_initialized = true;
      net_gate_actor = id;
      spawned = g.spawned ++ id ∷ [];
      ended = g.ended;
    },
    true,
  )
  | none ↦ (record g { is_initialized = true }, false)
]

-- A Termination is sent to the actor, and its handle is reset. `actor_sys` stays set.
unfoldable terminate_net_gate : Facade → Facade
terminate_net_gate g =
    if g.is_initialized
    then record g {
      net_gate_actor = 0;
      ended = if g.net_gate_actor == 0 then g.ended else g.ended ++ g.net_gate_actor ∷ [];
    }
    else g

-- `none` is the exception.
unfoldable get_actor : Facade → Option ℕ
get_actor g = if g.is_initialized then some g.net_gate_actor else none

abbrev Sets : Option ℕ → Type 0
Sets none = Unit
Sets (some id) = 0 < id

-- Any calls, where spawn gives handles that are set.
data Reach : Facade → Type 0 where
  starts : Reach new_net_gate
  initializes :
      {g : Facade} (spawn : Option ℕ) → Reach g → Sets spawn → Reach (initialize_net_gate spawn g).0
  terminates : {g : Facade} → Reach g → Reach (terminate_net_gate g)

-- The actor of the gate, if it has one.
abbrev own : ℕ → List ℕ
own zero = []
own (suc id) = suc id ∷ []

record Inv (g : Facade) : Type 0 where
  few : length g.spawned ≤ 1
  ended_rest : g.spawned ≡ g.ended ++ own g.net_gate_actor
  before : g.is_initialized ≡ false → g.spawned ≡ []
  unset : g.is_initialized ≡ false → g.net_gate_actor ≡ 0

either-Inv :
    (b : Bool) (x y : Facade × Bool) → Inv x.0 → (b ≡ false → Inv y.0) → Inv (if b then x else y).0
either-Inv true x y i f = i
either-Inv false x y i f = f refl

initialize_net_gate-Inv :
    (spawn : Option ℕ) (g : Facade) → Sets spawn → Inv g → Inv (initialize_net_gate spawn g).0
unfolding initialize_net_gate
initialize_net_gate-Inv none g h i = either-Inv g.is_initialized _ _ i (λ b. record {
  few = i.few;
  ended_rest = i.ended_rest;
  before = λ e. absurd (false≢true (sym e));
  unset = λ e. absurd (false≢true (sym e));
})
initialize_net_gate-Inv (some zero) g h i = absurd (omega (arith, h))
initialize_net_gate-Inv (some (suc id)) g h i = either-Inv g.is_initialized _ _ i (λ b.
    let none_yet : g.spawned ≡ [] = i.before b in
    record {
      few = rw none_yet (omega arith);
      ended_rest =
          ap (λ l. l ++ suc id ∷ [])
            (i.ended_rest ∙ ap (λ n. g.ended ++ own n) (i.unset b) ∙ append-nil g.ended);
      before = λ e. absurd (false≢true (sym e));
      unset = λ e. absurd (false≢true (sym e));
    })

terminate_net_gate-Inv : (g : Facade) → Inv g → Inv (terminate_net_gate g)
unfolding terminate_net_gate
terminate_net_gate-Inv g i = by_test g.is_initialized refl
  where
    by_handle : (n : ℕ) → g.ended ++ own n ≡ (if n == 0 then g.ended else g.ended ++ n ∷ []) ++ []
    by_handle zero = refl
    by_handle (suc n) =
        rw (ne→== (suc n) 0 (λ e. omega (arith, e))) (sym (append-nil (g.ended ++ suc n ∷ [])))

    after : Facade
    after = record g {
      net_gate_actor = 0;
      ended = if g.net_gate_actor == 0 then g.ended else g.ended ++ g.net_gate_actor ∷ [];
    }

    by_test : (b : Bool) → g.is_initialized ≡ b → Inv (if b then after else g)
    by_test true b = record {
      few = i.few;
      ended_rest = i.ended_rest ∙ by_handle g.net_gate_actor;
      before = i.before;
      unset = λ e. refl;
    }
    by_test false b = i

Reach-Inv : {g : Facade} → Reach g → Inv g
unfolding new_net_gate
Reach-Inv starts = record {
  few = omega arith;
  ended_rest = refl;
  before = λ e. refl;
  unset = λ e. refl;
}
Reach-Inv (initializes {g} spawn r h) = initialize_net_gate-Inv spawn g h (Reach-Inv r)
Reach-Inv (terminates {g} r) = terminate_net_gate-Inv g (Reach-Inv r)

-- After any calls, in any order and each any number of times, at most one NetGateActor was started; it
-- was told to end at most once, and it was exactly if the gate has no handle of it any more.
Reach-ended_once :
    {g : Facade} → Reach g → (length g.spawned ≤ 1) × (g.spawned ≡ g.ended ++ own g.net_gate_actor)
Reach-ended_once r = let i = Reach-Inv r in (i.few, i.ended_rest)

-- A gate that was terminated, or initialized in vain, cannot be initialized again, and `actor()` gives a
-- handle that is not set, without an exception.
terminate_net_gate-final :
    (spawn : Option ℕ) (g : Facade)
    → g.is_initialized ≡ true
    → (initialize_net_gate spawn (terminate_net_gate g) ≡ (terminate_net_gate g, false))
      × (get_actor (terminate_net_gate g) ≡ some 0)
unfolding initialize_net_gate terminate_net_gate get_actor
terminate_net_gate-final spawn g b = rw b (refl, refl)
