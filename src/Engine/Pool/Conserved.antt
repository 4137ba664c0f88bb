-- ===== src/Engine/Pool/Conserved.antt =====
-- No actor of an engine is lost or held twice (core/src/actor_engine.cpp), whatever its executors do in
-- whatever order.
use zaf.Prelude.{
  ℕ, ◌+◌, ◌-◌, ◌%◌, ◌<◌, ◌≡◌, refl, ap, sym, subst, Bool, some, List, [], ◌∷◌, ◌++◌, map, length,
  count, count-append, arith,
}
use zaf.Engine.{
  Executor, Command, new_actor, rebalance, Outcome, on_command, serve_from, stop_executor,
}
use zaf.Engine.Slots.{new_slot}
use zaf.Engine.Pool.{
  Pool, launched, initialize, poll, spawn, serve, retire, forgotten, Step, spawns, asks, obeys,
  serves, leaves, Steps, none_yet, later,
}
use zaf.Engine.Slots.{new_slot}
use zaf.Engine.Pool.Held.{
  carries, carried, held, InStep, AllInStep, AllInStep-at, AllInStep-replace, count-held,
  count-carried, Obeyed, obeyed,
}
use zaf.Engine.Pool.Served.{Served, serves-Served, leaves-Served}

pub record Conserved {H W : Type 0} (p : Pool H W) : Type 0 where
  pub in_step : AllInStep p.executors
  pub total :
      (a : ℕ)
      → count a (held p.executors)
          + count a (carried p.in_flight)
          + count a p.stopped
          + count a p.abandoned
        ≡ count a p.spawned

module _ {H W : Type 0} (start : ℕ → W → Bool × W) (behavior : ℕ → H) (socket_of : ℕ → ℕ)
    (receive_once : ℕ → H → W → Bool × W) (stop : ℕ → W → W) where
  -- The replacement of one executor by what its loop, or the end of it, leaves.
  after_round-Conserved :
      (p : Pool H W) (before after : List (Executor H)) (e e' : Executor H) (s : W × List ℕ)
      → p.executors ≡ before ++ e ∷ after
      → Conserved p
      → Served e e' (p.world, p.stopped) s
      → Conserved (record p { executors = before ++ e' ∷ after; world = s.0; stopped = s.1 })
  after_round-Conserved p before after e e' s at k v = record {
    in_step = AllInStep-replace before after e e' (subst AllInStep at k.in_step) v.in_step;
    total = λ a. omega (
      arith,
      k.total a,
      ap (λ l. count a (held l)) at,
      v.total a,
      count-held a before after e,
      count-held a before after e',
    );
  }

  after_command-Conserved :
      (p : Pool H W) (before after : List (Executor H)) (e : Executor H)
      (sent_before sent_after : List (ℕ × Command H)) (c : Command H) (o : Outcome H W)
      → p.executors ≡ before ++ e ∷ after
      → p.in_flight ≡ sent_before ++ (length before, c) ∷ sent_after
      → Conserved p
      → Obeyed start behavior socket_of c e p.world o
      → Conserved (record p {
        executors = before ++ o.executor ∷ after;
        in_flight = (sent_before ++ sent_after) ++ o.sent;
        world = o.state;
        abandoned = forgotten start c p.world ++ p.abandoned;
      })
  after_command-Conserved p before after e sent_before sent_after c o at sent k v = record {
    in_step = AllInStep-replace before after e o.executor (subst AllInStep at k.in_step) v.in_step;
    total = λ a. omega (
      arith,
      k.total a,
      ap (λ l. count a (held l)) at,
      ap (λ l. count a (carried l)) sent,
      v.total a,
      count-held a before after e,
      count-held a before after o.executor,
      count-carried a sent_before ((length before, c) ∷ sent_after),
      count-append a (carries c) (carried sent_after),
      count-carried a (sent_before ++ sent_after) o.sent,
      count-carried a sent_before sent_after,
      count-append a (forgotten start c p.world) p.abandoned,
    );
  }

  running_slots :
      (c : Command H) (e : Executor H) (w : W) (o : Outcome H W)
      → InStep e
      → 0 < e.num_poll_items
      → on_command start behavior socket_of c e w ≡ some o
      → Obeyed start behavior socket_of c e w o
  running_slots c e w o ([], d) running h = absurd (omega (arith, ap (λ x. x.num_poll_items) d))
  running_slots c e w o (own ∷ l, d) running h =
      subst (λ x. Obeyed start behavior socket_of c x w o) (sym d)
        (obeyed start behavior socket_of c own l w o
          (subst (λ x. on_command start behavior socket_of c x w ≡ some o) d h))

  running_round :
      (e e' : Executor H) (readable : ℕ → Bool) (s s' : W × List ℕ)
      → InStep e
      → 0 < e.num_poll_items
      → serve_from (serve receive_once) (retire stop) (e.num_poll_items - 1) 1 (poll readable e) s
        ≡ some (e', s')
      → Served e e' s s'
  running_round e e' readable s s' ([], d) running h =
      absurd (omega (arith, ap (λ x. x.num_poll_items) d))
  running_round e e' readable s s' (own ∷ l, d) running h =
      subst (λ x. Served x e' s s') (sym d)
        (serves-Served receive_once stop readable own l e' s s' (
          subst
            (λ x.
              serve_from (serve receive_once) (retire stop) (x.num_poll_items - 1) 1
                (poll readable x) s
              ≡ some (e', s'))
            d h))

  Step-Conserved :
      {p q : Pool H W}
      → Step start behavior socket_of receive_once stop p q
      → Conserved p
      → Conserved q
  unfolding spawn
  Step-Conserved (spawns {p} actor h) k = record {
    in_step = k.in_step;
    total = λ a. omega (
      arith,
      k.total a,
      count-carried a p.in_flight ((p.next_executor % length p.executors, new_actor actor) ∷ []),
    );
  }
  Step-Conserved (asks {p} busy idle rand) k = record {
    in_step = k.in_step;
    total = λ a.
        omega (arith, k.total a, count-carried a p.in_flight ((busy, rebalance idle rand) ∷ []));
  }
  Step-Conserved (obeys {p} before after e sent_before sent_after c o at sent running h) k =
      let l = AllInStep-at before after e (subst AllInStep at k.in_step) in
      after_command-Conserved p before after e sent_before sent_after c o at sent k
        (running_slots c e p.world o l running h)
  Step-Conserved (serves {p} before after e e' readable s at running h) k =
      let l = AllInStep-at before after e (subst AllInStep at k.in_step) in
      after_round-Conserved p before after e e' s at k
        (running_round e e' readable (p.world, p.stopped) s l running h)
  Step-Conserved (leaves {p} before after e e' s at h) k =
      let l = AllInStep-at before after e (subst AllInStep at k.in_step) in
      after_round-Conserved p before after e e' s at k (
        subst (λ x. Served x e' (p.world, p.stopped) s) (sym l.1)
          (leaves-Served receive_once stop l.0 e' (p.world, p.stopped) s
            (subst (λ x. stop_executor (retire stop) x (p.world, p.stopped) ≡ (e', s)) l.1 h)))

  Steps-from :
      {p q : Pool H W}
      → Steps start behavior socket_of receive_once stop p q
      → Conserved p
      → Conserved q
  Steps-from none_yet k = k
  Steps-from (later r st) k = Step-Conserved st (Steps-from r k)

  initialize-Conserved : (owns : List (ℕ × H)) (w : W) → Conserved (initialize socket_of owns w)
  unfolding initialize
  initialize-Conserved owns w = record {
    in_step = in_step owns;
    total = λ a. omega (arith, empty a owns);
  }
    where
      in_step : (owns : List (ℕ × H)) → AllInStep (map (launched socket_of) owns)
      in_step [] = tt
      in_step (own ∷ owns) = ((new_slot own.0 own.1 (socket_of own.0) ∷ [], refl), in_step owns)

      empty : (a : ℕ) (owns : List (ℕ × H)) → count a (held (map (launched socket_of) owns)) ≡ 0
      empty a [] = refl
      empty a (own ∷ owns) = empty a owns

  -- In every run of an engine, from its initialization on, each actor is as often as it was spawned in
  -- one of these places, and in no other: held by an executor behind the executor itself, on its way
  -- to one with NewActor or ActorTransfer, stopped, or forgotten by NewActor because its own start
  -- deactivated it. The three vectors of every executor stay in step.
  pub Steps-Conserved :
      (owns : List (ℕ × H)) (w : W) {q : Pool H W}
      → Steps start behavior socket_of receive_once stop (initialize socket_of owns w) q
      → Conserved q
  Steps-Conserved owns w r = Steps-from r (initialize-Conserved owns w)
