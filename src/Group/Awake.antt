-- ===== src/Group/Awake.antt =====
-- No notification of `ActorGroup` (core/src/actor_group.cpp) is lost: the thread that waits for the actors
-- does not sleep when what it waits for holds and nobody is left to wake it.
use zaf.Prelude.{
  ℕ, suc, ◌-◌, ◌≤◌, ◌≡◌, ◌≢◌, refl, sym, subst, ◌∙◌, List, [], ◌∷◌, ◌++◌, ◌⊎◌, inl, inr, ◌==◌,
  Bool-cases, ==→ne, arith,
}
use zaf.Group.{
  Waiter, running, on_alive_actors_done, on_all_actors_done, CounterCall, compare_alive,
  notify_alive, compare_zero, compare_detached, notify_detached, ActorGroup, inc_num_alive_actors,
  dec_num_alive_actors, inc_num_detached_actors, dec_num_detached_actors, notify_alive_actors_done,
  notify_all_actors_done, go_on, Step, spawns, ends, detaches, attaches, continues, waits_for_alive,
  waits_for_all, wakes, Reach, start, later,
}

-- A call that will still notify alive_actors_done_cv if no counter changes any more.
abbrev pub WakesAlive : (alive detached : ℕ) → CounterCall → Type 0
WakesAlive a d (compare_alive n) = n ≡ a
WakesAlive a d (notify_alive n) = Unit
WakesAlive a d (compare_zero n) = ⊥
WakesAlive a d (compare_detached n) = n ≡ d
WakesAlive a d notify_detached = Unit

-- A call that will still notify all_actors_done_cv.
abbrev pub WakesAll : CounterCall → Type 0
WakesAll (compare_alive n) = n ≡ 0
WakesAll (notify_alive n) = n ≡ 0
WakesAll (compare_zero n) = n ≡ 0
WakesAll (compare_detached n) = ⊥
WakesAll notify_detached = ⊥

abbrev pub Any : (CounterCall → Type 0) → List CounterCall → Type 0
Any P [] = ⊥
Any P (c ∷ cs) = P c ⊎ Any P cs

module _ (P : CounterCall → Type 0) where
  Any-left : (xs ys : List CounterCall) → Any P xs → Any P (xs ++ ys)
  Any-left [] ys p = absurd p
  Any-left (x ∷ xs) ys (inl p) = inl p
  Any-left (x ∷ xs) ys (inr p) = inr (Any-left xs ys p)

  Any-right : (xs ys : List CounterCall) → Any P ys → Any P (xs ++ ys)
  Any-right [] ys p = p
  Any-right (x ∷ xs) ys p = inr (Any-right xs ys p)

  -- One call goes on.
  Any-replace :
      (before after new : List CounterCall) (c : CounterCall)
      → (P c → Any P new)
      → Any P (before ++ c ∷ after)
      → Any P (before ++ (new ++ after))
  Any-replace [] after new c f (inl p) = Any-left new after (f p)
  Any-replace [] after new c f (inr p) = Any-right new after p
  Any-replace (b ∷ before) after new c f (inl p) = inl p
  Any-replace (b ∷ before) after new c f (inr p) = inr (Any-replace before after new c f p)

-- While the thread sleeps and need not, some call will wake it.
abbrev pub Promise : Waiter → (alive detached : ℕ) → List CounterCall → Type 0
Promise running a d cs = Unit
Promise on_alive_actors_done a d cs = a ≡ d → Any (WakesAlive a d) cs
Promise on_all_actors_done a d cs = a ≡ 0 → Any WakesAll cs

record Kept (g : ActorGroup) : Type 0 where
  detached : g.num_detached_actors ≤ g.num_alive_actors
  promise : Promise g.waiter g.num_alive_actors g.num_detached_actors g.calls

-- A call that goes on keeps the promise, whoever wakes the thread.
module _ (g : ActorGroup) (before after : List CounterCall) where
  abbrev a : ℕ
  a = g.num_alive_actors

  abbrev det : ℕ
  det = g.num_detached_actors

  abbrev KeptBy : Waiter → CounterCall → Type 0
  KeptBy w c =
      Promise w a det (before ++ c ∷ after)
      → Promise (go_on c (record g { waiter = w })).1 a det
          (before ++ ((go_on c (record g { waiter = w })).0 ++ after))

  go_on-running : (c : CounterCall) → KeptBy running c
  unfolding go_on notify_alive_actors_done notify_all_actors_done
  go_on-running (compare_alive n) p = elim (Bool-cases (n == det)) [
    | inl e ↦ rw e tt
    | inr e ↦ rw e tt
  ]
  go_on-running (notify_alive n) p = tt
  go_on-running (compare_zero n) p = elim (Bool-cases (n == 0)) [
    | inl e ↦ rw e tt
    | inr e ↦ rw e tt
  ]
  go_on-running (compare_detached n) p = elim (Bool-cases (n == a)) [
    | inl e ↦ rw e tt
    | inr e ↦ rw e tt
  ]
  go_on-running notify_detached p = tt

  go_on-alive : (c : CounterCall) → KeptBy on_alive_actors_done c
  unfolding go_on notify_alive_actors_done notify_all_actors_done
  go_on-alive (compare_alive n) p = elim (Bool-cases (n == det)) [
    | inl e ↦ rw e λ q.
        Any-replace (WakesAlive a det) before after (notify_alive n ∷ []) (compare_alive n)
          (λ h. inl tt) (p q)
    | inr e ↦ rw e λ q.
        Any-replace (WakesAlive a det) before after (compare_zero n ∷ []) (compare_alive n)
          (λ h. absurd (==→ne n det e (h ∙ q))) (p q)
  ]
  go_on-alive (notify_alive n) p = tt
  go_on-alive (compare_zero n) p = elim (Bool-cases (n == 0)) [
    | inl e ↦
        rw e
          λ q. Any-replace (WakesAlive a det) before after [] (compare_zero n) (λ h. absurd h) (p q)
    | inr e ↦
        rw e
          λ q. Any-replace (WakesAlive a det) before after [] (compare_zero n) (λ h. absurd h) (p q)
  ]
  go_on-alive (compare_detached n) p = elim (Bool-cases (n == a)) [
    | inl e ↦ rw e λ q.
        Any-replace (WakesAlive a det) before after (notify_detached ∷ []) (compare_detached n)
          (λ h. inl tt) (p q)
    | inr e ↦ rw e λ q.
        Any-replace (WakesAlive a det) before after [] (compare_detached n)
          (λ h. absurd (==→ne n a e (h ∙ sym q))) (p q)
  ]
  go_on-alive notify_detached p = tt

  go_on-all : (c : CounterCall) → KeptBy on_all_actors_done c
  unfolding go_on notify_alive_actors_done notify_all_actors_done
  go_on-all (compare_alive n) p = elim (Bool-cases (n == det)) [
    | inl e ↦ rw e λ q.
        Any-replace WakesAll before after (notify_alive n ∷ []) (compare_alive n) (λ h. inl h) (p q)
    | inr e ↦ rw e λ q.
        Any-replace WakesAll before after (compare_zero n ∷ []) (compare_alive n) (λ h. inl h) (p q)
  ]
  go_on-all (notify_alive n) p = λ q.
      Any-replace WakesAll before after (compare_zero n ∷ []) (notify_alive n) (λ h. inl h) (p q)
  go_on-all (compare_zero n) p = elim (Bool-cases (n == 0)) [
    | inl e ↦ rw e tt
    | inr e ↦ rw e λ q.
        Any-replace WakesAll before after [] (compare_zero n) (λ h. absurd (==→ne n 0 e h)) (p q)
  ]
  go_on-all (compare_detached n) p = elim (Bool-cases (n == a)) [
    | inl e ↦ rw e λ q.
        Any-replace WakesAll before after (notify_detached ∷ []) (compare_detached n)
          (λ h. absurd h) (p q)
    | inr e ↦
        rw e λ q. Any-replace WakesAll before after [] (compare_detached n) (λ h. absurd h) (p q)
  ]
  go_on-all notify_detached p =
      λ q. Any-replace WakesAll before after [] notify_detached (λ h. absurd h) (p q)

  go_on-Promise : (c : CounterCall) (w : Waiter) → KeptBy w c
  go_on-Promise c running = go_on-running c
  go_on-Promise c on_alive_actors_done = go_on-alive c
  go_on-Promise c on_all_actors_done = go_on-all c

Step-Kept : {g h : ActorGroup} → Step g h → Kept g → Kept h
unfolding inc_num_alive_actors dec_num_alive_actors inc_num_detached_actors dec_num_detached_actors
Step-Kept (spawns {g}) k = record {
  detached = omega (arith, k.detached);
  promise = by_waiter g.waiter k.promise;
}
  where
    by_waiter :
        (w : Waiter)
        → Promise w g.num_alive_actors g.num_detached_actors g.calls
        → Promise w (suc g.num_alive_actors) g.num_detached_actors g.calls
    by_waiter running p = tt
    by_waiter on_alive_actors_done p = λ q. absurd (omega (arith, k.detached, q))
    by_waiter on_all_actors_done p = λ q. absurd (omega (arith, q))
Step-Kept (ends {g} h) k = record { detached = omega (arith, h); promise = by_waiter g.waiter }
  where
    by_waiter :
        (w : Waiter)
        → Promise w
            (g.num_alive_actors - 1)
            g.num_detached_actors
            (compare_alive (g.num_alive_actors - 1) ∷ g.calls)
    by_waiter running = tt
    by_waiter on_alive_actors_done = λ q. inl refl
    by_waiter on_all_actors_done = λ q. inl q
Step-Kept (detaches {g} h) k = record { detached = omega (arith, h); promise = by_waiter g.waiter }
  where
    by_waiter :
        (w : Waiter)
        → Promise w g.num_alive_actors
            (suc g.num_detached_actors)
            (compare_detached (suc g.num_detached_actors) ∷ g.calls)
    by_waiter running = tt
    by_waiter on_alive_actors_done = λ q. inl refl
    by_waiter on_all_actors_done = λ q. absurd (omega (arith, q, h))
Step-Kept (attaches {g} h) k = record {
  detached = omega (arith, k.detached);
  promise = by_waiter g.waiter k.promise;
}
  where
    by_waiter :
        (w : Waiter)
        → Promise w g.num_alive_actors g.num_detached_actors g.calls
        → Promise w g.num_alive_actors (g.num_detached_actors - 1) g.calls
    by_waiter running p = tt
    by_waiter on_alive_actors_done p = λ q. absurd (omega (arith, q, h, k.detached))
    by_waiter on_all_actors_done p = p
Step-Kept (continues {g} before after c e) k = record {
  detached = k.detached;
  promise =
      go_on-Promise g before after c g.waiter
        (subst (Promise g.waiter g.num_alive_actors g.num_detached_actors) e k.promise);
}
Step-Kept (waits_for_alive h) k = record { detached = k.detached; promise = λ q. absurd (h q) }
Step-Kept (waits_for_all h e) k = record { detached = k.detached; promise = λ q. absurd (h q) }
Step-Kept wakes k = record { detached = k.detached; promise = tt }

Reach-Kept : {g : ActorGroup} → Reach g → Kept g
Reach-Kept start = record { detached = omega arith; promise = tt }
Reach-Kept (later r st) = Step-Kept st (Reach-Kept r)

-- What the thread sleeps for does not hold.
abbrev pub SleepsRightly : Waiter → ActorGroup → Type 0
SleepsRightly running g = Unit
SleepsRightly on_alive_actors_done g = g.num_alive_actors ≢ g.num_detached_actors
SleepsRightly on_all_actors_done g = g.num_alive_actors ≢ 0

-- In every run in which the detached actors are at most the alive ones, once no call to a counter is
-- under way any more, the waiting thread sleeps on alive_actors_done_cv only if the numbers differ,
-- and on all_actors_done_cv only if some actor is alive.
pub Reach-SleepsRightly : {g : ActorGroup} → Reach g → g.calls ≡ [] → SleepsRightly g.waiter g
Reach-SleepsRightly {g} r e = by_waiter g.waiter (Reach-Kept r).promise
  where
    by_waiter :
        (w : Waiter)
        → Promise w g.num_alive_actors g.num_detached_actors g.calls
        → SleepsRightly w g
    by_waiter running p = tt
    by_waiter on_alive_actors_done p =
        λ q. subst (Any (WakesAlive g.num_alive_actors g.num_detached_actors)) e (p q)
    by_waiter on_all_actors_done p = λ q. subst (Any WakesAll) e (p q)
