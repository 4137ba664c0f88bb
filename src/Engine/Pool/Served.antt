-- ===== src/Engine/Pool/Served.antt =====
-- The actors that an executor of an engine holds, before and after a round of its loop and after its
-- end (core/src/actor_engine.cpp).
use mathlib.Core.List.Perm
use mathlib.Core.Option.{some-injective}
use zaf.Prelude.{
  ℕ, suc, ◌+◌, ◌-◌, ◌≡◌, refl, ap, ap₂, sym, ◌∙◌, Bool, some, List, [], ◌∷◌, map, length, count,
  count-append, count-Perm, inl, inr, Bool-cases, length-map, map-append, arith,
}
use zaf.Engine.{Executor, serve_from, retire_all, stop_executor}
use zaf.Engine.Slots.{Slot, of_slots, executor-eq}
use zaf.Engine.Rounds.{Round, serve_each, serve_from-serves_once}
use zaf.Engine.Pool.{poll, serve, retire}
use zaf.Engine.Pool.Held.{others, InStep}

-- What the round of an executor, or its end, does to the actors it holds.
pub record Served {H W : Type 0} (e e' : Executor H) (s s' : W × List ℕ) : Type 0 where
  pub in_step : InStep e'
  pub total :
      (a : ℕ) → count a (others e'.actors) + count a s'.1 ≡ count a (others e.actors) + count a s.1

module _ {H W : Type 0} (receive_once : ℕ → H → W → Bool × W) (stop : ℕ → W → W) where
  -- An actor that was served is kept or stopped.
  count-serve_each :
      (a : ℕ) (l : List (Slot H)) (s : W × List ℕ)
      → count a (map (λ y. y.actor) (serve_each (serve receive_once) (retire stop) l s).0)
          + count a (serve_each (serve receive_once) (retire stop) l s).1.1
        ≡ count a (map (λ y. y.actor) l) + count a s.1
  count-serve_each a [] s = omega arith
  count-serve_each a (x ∷ xs) s =
      let t = (serve receive_once x.actor x.handler s).1 in
      let on = count-serve_each a xs t in
      let off = count-serve_each a xs (retire stop x.actor t) in
      elim (Bool-cases (serve receive_once x.actor x.handler s).0) [
        | inl k ↦ rw k (omega (arith, on))
        | inr k ↦ rw k (omega (arith, off))
      ]

  count-retire_all :
      (a : ℕ) (l : List ℕ) (s : W × List ℕ)
      → count a (retire_all (retire stop) l s).1 ≡ count a l + count a s.1
  unfolding retire_all
  count-retire_all a [] s = omega arith
  count-retire_all a (x ∷ xs) s = omega (arith, count-retire_all a xs (retire stop x s))

  abbrev polled : (ℕ → Bool) → Slot H → Slot H
  polled readable x = record x {
    item = record { socket = x.item.socket; revents = readable x.item.socket };
  }

  map-polled :
      {A : Type 0} (f : Slot H → A) (g : A → A) (readable : ℕ → Bool)
      → ((x : Slot H) → g (f x) ≡ f (polled readable x))
      → (l : List (Slot H)) → map g (map f l) ≡ map f (map (polled readable) l)
  map-polled f g readable h [] = refl
  map-polled f g readable h (x ∷ xs) = ap₂ (λ y l. y ∷ l) (h x) (map-polled f g readable h xs)

  map-unpolled :
      {A : Type 0} (f : Slot H → A) (readable : ℕ → Bool)
      → ((x : Slot H) → f x ≡ f (polled readable x))
      → (l : List (Slot H)) → map f l ≡ map f (map (polled readable) l)
  map-unpolled f readable h [] = refl
  map-unpolled f readable h (x ∷ xs) = ap₂ (λ y l. y ∷ l) (h x) (map-unpolled f readable h xs)

  poll-of_slots :
      (readable : ℕ → Bool) (l : List (Slot H))
      → poll readable (of_slots l) ≡ of_slots (map (polled readable) l)
  unfolding poll
  poll-of_slots readable l =
      executor-eq (map-unpolled (λ x. x.actor) readable (λ x. refl) l)
        (map-unpolled (λ x. x.handler) readable (λ x. refl) l)
        (map-polled (λ x. x.item) _ readable (λ x. refl) l) (sym (length-map (polled readable) l))

  -- The length of the executor's vectors, less itself, is fuel enough.
  pub serves-Served :
      (readable : ℕ → Bool) (own : Slot H) (l : List (Slot H)) (e' : Executor H) (s s' : W × List ℕ)
      → serve_from
          (serve receive_once)
          (retire stop)
          (suc (length l) - 1)
          1
          (poll readable (of_slots (own ∷ l)))
          s
        ≡ some (e', s')
      → Served (of_slots (own ∷ l)) e' s s'
  serves-Served readable own l e' s s' h = record {
    in_step = (polled readable own ∷ r.left, ap (λ x. x.0) out);
    total = λ a. omega (
      arith,
      ap (λ x. count a (others x.0.actors)) out,
      ap (λ x. count a x.1.1) out,
      count-serve_each a r.order s,
      count-Perm a (Perm.map (λ (y : Slot H). y.actor) r.all),
      ap (count a) (map-append (λ (y : Slot H). y.actor) r.order r.skipped),
      count-append a (map (λ (y : Slot H). y.actor) r.order) (map (λ y. y.actor) r.skipped),
      count-Perm a (Perm.map (λ (y : Slot H). y.actor) r.kept),
      ap (count a) (map-append (λ (y : Slot H). y.actor) kept r.skipped),
      count-append a (map (λ (y : Slot H). y.actor) kept) (map (λ y. y.actor) r.skipped),
      ap (count a) (map-unpolled (λ x. x.actor) readable (λ x. refl) l),
    );
  }
    where
      ready : List (Slot H)
      ready = map (polled readable) l

      r : Round (serve receive_once) (retire stop) (polled readable own ∷ []) ready s (
          serve_from
            (serve receive_once)
            (retire stop)
            (length ready)
            1
            (of_slots (polled readable own ∷ ready))
            s)
      r = serve_from-serves_once (serve receive_once) (retire stop) (polled readable own) ready s

      kept : List (Slot H)
      kept = (serve_each (serve receive_once) (retire stop) r.order s).0

      fuel : suc (length l) - 1 ≡ length ready
      fuel = omega (arith, length-map (polled readable) l)

      out :
          ◌≡◌ {A = Executor H × (W × List ℕ)}
            (e', s')
            (
              of_slots (polled readable own ∷ r.left),
              (serve_each (serve receive_once) (retire stop) r.order s).1,
            )
      out = some-injective _ _ (
          sym h
          ∙ ap₂ (λ n e. serve_from (serve receive_once) (retire stop) n 1 e s) fuel
              (poll-of_slots readable (own ∷ l))
          ∙ r.returns)

  pub leaves-Served :
      (l : List (Slot H)) (e' : Executor H) (s s' : W × List ℕ)
      → stop_executor (retire stop) (of_slots l) s ≡ (e', s')
      → Served (of_slots l) e' s s'
  unfolding stop_executor
  leaves-Served [] e' s s' h = record {
    in_step = ([], sym (ap (λ x. x.0) h));
    total = λ a. omega (arith, ap (λ x. count a (others x.0.actors)) h, ap (λ x. count a x.1.1) h);
  }
  leaves-Served (own ∷ l) e' s s' h = record {
    in_step = ([], sym (ap (λ x. x.0) h));
    total = λ a. omega (
      arith,
      ap (λ x. count a (others x.0.actors)) h,
      ap (λ x. count a x.1.1) h,
      count-retire_all a (map (λ y. y.actor) l) s,
    );
  }
