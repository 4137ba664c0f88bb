-- ===== src/Engine/Pool/Held.antt =====
-- The actors that an executor of an engine holds, before and after a command
-- (core/src/actor_engine.cpp).
use mathlib.Core.List.Perm
use mathlib.Core.Option.{some-injective}
use zaf.Prelude.{
  ℕ, ◌+◌, ◌%◌, ◌<◌, ◌≡◌, refl, ap, sym, subst, ◌∙◌, Bool, true, Option, none, some, List, [], ◌∷◌,
  ◌++◌, map, length, get_or, move_back, count, hit, count-append, count-Perm, inl, inr, Bool-cases,
  map-append, move_back-Perm, arith,
}
use zaf.Serial.Codec.{◌>>=◌}
use zaf.Engine.{
  Executor, Command, new_actor, rebalance, actor_transfer, termination, Outcome, on_command,
  listen_to_actor,
}
use native.Mathlib.Nat.{mod-lt}
use zaf.Engine.Slots.{Slot, of_slots, new_slot, listen_to_actor-of_slots}
use zaf.Engine.Balance.{on_rebalance-of_slots}
use zaf.Engine.Pool.{forgotten}

-- The actors that an executor holds, without itself.
abbrev pub others : List ℕ → List ℕ
others [] = []
others (own ∷ actors) = actors

abbrev pub carries : {H : Type 0} → Command H → List ℕ
carries (new_actor actor) = actor ∷ []
carries (actor_transfer actor handler) = actor ∷ []
carries _ = []

abbrev pub carried : {H : Type 0} → List (ℕ × Command H) → List ℕ
carried [] = []
carried ((to, c) ∷ rest) = carries c ++ carried rest

abbrev pub held : {H : Type 0} → List (Executor H) → List ℕ
held [] = []
held (e ∷ es) = others e.actors ++ held es

-- The three vectors belong together.
abbrev pub InStep : {H : Type 0} → Executor H → Type 0
InStep {H} e = (l : List (Slot H)) × (e ≡ of_slots l)

abbrev pub AllInStep : {H : Type 0} → List (Executor H) → Type 0
AllInStep [] = Unit
AllInStep (e ∷ es) = InStep e × AllInStep es

module _ {H : Type 0} where
  pub AllInStep-at :
      (before after : List (Executor H)) (e : Executor H)
      → AllInStep (before ++ e ∷ after)
      → InStep e
  AllInStep-at [] after e h = h.0
  AllInStep-at (b ∷ before) after e h = AllInStep-at before after e h.1

  pub AllInStep-replace :
      (before after : List (Executor H)) (e e' : Executor H)
      → AllInStep (before ++ e ∷ after)
      → InStep e'
      → AllInStep (before ++ e' ∷ after)
  AllInStep-replace [] after e e' h k = (k, h.1)
  AllInStep-replace (b ∷ before) after e e' h k = (h.0, AllInStep-replace before after e e' h.1 k)

  pub count-held :
      (a : ℕ) (before after : List (Executor H)) (e : Executor H)
      → count a (held (before ++ e ∷ after))
        ≡ count a (held before) + count a (others e.actors) + count a (held after)
  count-held a [] after e = omega (arith, count-append a (others e.actors) (held after))
  count-held a (b ∷ before) after e = omega (
    arith,
    count-append a (others b.actors) (held (before ++ e ∷ after)),
    count-append a (others b.actors) (held before),
    count-held a before after e,
  )

  pub count-carried :
      (a : ℕ) (xs ys : List (ℕ × Command H))
      → count a (carried (xs ++ ys)) ≡ count a (carried xs) + count a (carried ys)
  count-carried a [] ys = omega arith
  count-carried a ((to, c) ∷ xs) ys = omega (
    arith,
    count-append a (carries c) (carried (xs ++ ys)),
    count-append a (carries c) (carried xs),
    count-carried a xs ys,
  )

  count-listen :
      (a actor : ℕ) (l : List (Slot H)) (x : Slot H)
      → x.actor ≡ actor
      → count a (map (λ y. y.actor) (l ++ x ∷ [])) ≡ count a (map (λ y. y.actor) l) + hit a actor
  count-listen a actor l x e =
      ap (count a) (map-append (λ y. y.actor) l (x ∷ []))
      ∙ omega (arith, count-append a (map (λ y. y.actor) l) (x.actor ∷ []), ap (hit a) e)

  count-listened :
      (a actor socket : ℕ) (handler : H) (own : Slot H) (l : List (Slot H))
      → count a (others (listen_to_actor actor handler socket (of_slots (own ∷ l))).actors)
        ≡ count a (map (λ y. y.actor) l) + hit a actor
  count-listened a actor socket handler own l =
      let x = new_slot actor handler socket in
      ap (λ e. count a (others e.actors)) (listen_to_actor-of_slots actor handler socket (own ∷ l))
      ∙ count-listen a actor l x refl

  listened-InStep :
      (actor socket : ℕ) (handler : H) (l : List (Slot H))
      → InStep (listen_to_actor actor handler socket (of_slots l))
  listened-InStep actor socket handler l =
      (l ++ new_slot actor handler socket ∷ [], listen_to_actor-of_slots actor handler socket l)

  map-actor-move_back :
      (a i : ℕ) (l : List (Slot H)) (d : Slot H)
      → i < length l
      → hit a (get_or l i d).actor + count a (map (λ y. y.actor) (move_back l i))
        ≡ count a (map (λ y. y.actor) l)
  map-actor-move_back a i l d h =
      count-Perm a (Perm.map (λ (y : Slot H). y.actor) (move_back-Perm l i d h))

module _ {H W : Type 0} (start : ℕ → W → Bool × W) (behavior : ℕ → H) (socket_of : ℕ → ℕ) where
  -- What an executor that is in step does with a command.
  pub record Obeyed (c : Command H) (e : Executor H) (w : W) (o : Outcome H W) : Type 0 where
    pub in_step : InStep o.executor
    pub total :
        (a : ℕ)
        → count a (others o.executor.actors)
            + count a (carried o.sent)
            + count a (forgotten start c w)
          ≡ count a (others e.actors) + count a (carries c)

  abbrev told : ℕ → W → Executor H × Option (ℕ × H) → Option (Outcome H W)
  told peer w r = some (record {
    executor = r.0;
    state = w;
    sent = elim r.1 [ none ↦ [] | some a ↦ (peer, actor_transfer a.0 a.1) ∷ [] ];
    activated = true;
  })

  pub obeyed :
      (c : Command H) (own : Slot H) (l : List (Slot H)) (w : W) (o : Outcome H W)
      → on_command start behavior socket_of c (of_slots (own ∷ l)) w ≡ some o
      → Obeyed c (of_slots (own ∷ l)) w o
  unfolding on_command
  obeyed (new_actor actor) own l w o h =
      subst (Obeyed (new_actor actor) (of_slots (own ∷ l)) w) (some-injective _ _ h)
        (elim (Bool-cases (start actor w).0) [
          | inl k ↦ record {
            in_step = rw k (listened-InStep actor (socket_of actor) (behavior actor) (own ∷ l));
            total = λ a.
                rw k
                  (omega (arith, count-listened a actor (socket_of actor) (behavior actor) own l));
          }
          | inr k ↦ record { in_step = rw k (own ∷ l, refl); total = λ a. rw k (omega arith) }
        ])
  obeyed (rebalance peer rand) own [] w o h =
      subst (Obeyed (rebalance peer rand) (of_slots (own ∷ [])) w) (some-injective _ _ h)
        (record { in_step = (own ∷ [], refl); total = λ a. omega arith })
  obeyed (rebalance peer rand) own (x ∷ xs) w o h =
      let l = x ∷ xs in
      let i = rand % length l in
      let inside : 0 < length l = omega arith in
      subst (Obeyed (rebalance peer rand) (of_slots (own ∷ l)) w)
        (some-injective _ _
          (sym (ap (λ r. r >>= told peer w) (on_rebalance-of_slots rand own l inside)) ∙ h))
        (record {
          in_step = (own ∷ move_back l i, refl);
          total = λ a. omega (arith, map-actor-move_back a i l own (mod-lt rand inside));
        })
  obeyed (actor_transfer actor handler) own l w o h =
      subst (Obeyed (actor_transfer actor handler) (of_slots (own ∷ l)) w) (some-injective _ _ h)
        (record {
          in_step = listened-InStep actor (socket_of actor) handler (own ∷ l);
          total = λ a. omega (arith, count-listened a actor (socket_of actor) handler own l);
        })
  obeyed termination own l w o h =
      subst (Obeyed termination (of_slots (own ∷ l)) w) (some-injective _ _ h)
        (record { in_step = (own ∷ l, refl); total = λ a. omega arith })
