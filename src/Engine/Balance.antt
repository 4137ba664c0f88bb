-- ===== src/Engine/Balance.antt =====
-- Rebalancing (core/src/actor_engine.cpp): an executor gives one of its actors to a peer.
use zaf.Prelude.{
  ℕ, zero, suc, ◌+◌, ◌-◌, ◌%◌, ◌<◌, ◌≡◌, refl, ap, sym, ◌∙◌, Bool, true, false, some, List, [], ◌∷◌,
  map, length, get_or, move_back, back, pop_back, exchange_back, ◌==◌, ==→eq, ne→==, if◌then◌else◌,
  length-move_back, length-map, back-exchange_back, pop_back-exchange_back, map-move_back,
  get_or-map, arith,
}
use zaf.Engine.{Executor, swap_to_back, take_last, on_rebalance}
use native.Mathlib.Nat.{mod-lt}
use zaf.Engine.Slots.{Slot, of_slots, executor-eq}

module _ {ℓ} {A : Type ℓ} where
  -- An element of `x ∷ l` behind the first one stays behind it.
  move_back-behind :
      (x : A) (l : List A) (i : ℕ) → i < length l → move_back (x ∷ l) (suc i) ≡ x ∷ move_back l i
  move_back-behind x [] i h = absurd (omega arith)
  move_back-behind x (y ∷ ys) zero h = refl
  move_back-behind x (y ∷ ys) (suc i) h = refl

  -- Without the swap, which the code leaves out for the last element.
  back-last : (l : List A) (i : ℕ) (d : A) → length l ≡ suc i → back l ≡ some (get_or l i d)
  back-last [] i d h = absurd (omega arith)
  back-last (x ∷ []) zero d h = refl
  back-last (x ∷ []) (suc i) d h = absurd (omega arith)
  back-last (x ∷ y ∷ ys) zero d h = absurd (omega arith)
  back-last (x ∷ y ∷ ys) (suc i) d h = back-last (y ∷ ys) i d (omega arith)

  pop_back-last : (l : List A) (i : ℕ) → length l ≡ suc i → pop_back l ≡ move_back l i
  pop_back-last [] i h = refl
  pop_back-last (x ∷ []) zero h = refl
  pop_back-last (x ∷ []) (suc i) h = absurd (omega arith)
  pop_back-last (x ∷ y ∷ ys) zero h = absurd (omega arith)
  pop_back-last (x ∷ y ∷ ys) (suc i) h =
      ap (λ l. x ∷ l) (pop_back-last (y ∷ ys) i (omega arith))
      ∙ sym (move_back-behind x (y ∷ ys) i (omega arith))

  abbrev pub exchanged : Bool → List A → ℕ → List A
  exchanged b l i = if b then l else exchange_back l i

  pub back-exchanged :
      (b : Bool) (l : List A) (i : ℕ) (d : A)
      → (i == length l - 1) ≡ b
      → i < length l
      → back (exchanged b l i) ≡ some (get_or l i d)
  back-exchanged true l i d e h = back-last l i d (omega (arith, ==→eq i (length l - 1) e))
  back-exchanged false l i d e h = back-exchange_back l i d h

  pub pop_back-exchanged :
      (b : Bool) (l : List A) (i : ℕ)
      → (i == length l - 1) ≡ b
      → i < length l
      → pop_back (exchanged b l i) ≡ move_back l i
  pop_back-exchanged true l i e h = pop_back-last l i (omega (arith, ==→eq i (length l - 1) e))
  pop_back-exchanged false l i e h = pop_back-exchange_back l i

module _ {H : Type 0} where
  -- The executor before its last actor is taken, with `b` for the test that skips the swaps.
  swapped : (b : Bool) (i : ℕ) (l : List (Slot H)) → Executor H
  swapped b i l = record {
    actors = exchanged b (map (λ x. x.actor) l) i;
    handlers = exchanged b (map (λ x. x.handler) l) i;
    poll_items = exchanged b (map (λ x. x.item) l) i;
    num_poll_items = length l;
  }

  swap_to_back-swapped :
      (b : Bool) (i : ℕ) (l : List (Slot H))
      → (if b then of_slots l else swap_to_back i (of_slots l)) ≡ swapped b i l
  unfolding swap_to_back swapped
  swap_to_back-swapped true i l = refl
  swap_to_back-swapped false i l = refl

  take_last-swapped :
      (b : Bool) (i : ℕ) (l : List (Slot H)) (d : Slot H)
      → (i == length l - 1) ≡ b
      → i < length l
      → take_last (swapped b i l)
        ≡ some (of_slots (move_back l i), some ((get_or l i d).actor, (get_or l i d).handler))
  unfolding take_last swapped
  take_last-swapped b i l d e h =
      rw (last (λ x. x.actor), last (λ x. x.handler))
        (ap (λ r. some (r, some ((get_or l i d).actor, (get_or l i d).handler)))
          (executor-eq (rest (λ x. x.actor)) (rest (λ x. x.handler)) (rest (λ x. x.item))
            (sym (length-move_back l i))))
    where
      last :
          {A : Type 0} (f : Slot H → A) → back (exchanged b (map f l) i) ≡ some (f (get_or l i d))
      last f =
          back-exchanged b (map f l) i (f d) (rw (length-map f l) e) (omega (arith, length-map f l))
          ∙ ap some (get_or-map f l i d)

      rest :
          {A : Type 0} (f : Slot H → A) → pop_back (exchanged b (map f l) i) ≡ map f (move_back l i)
      rest f =
          pop_back-exchanged b (map f l) i (rw (length-map f l) e) (omega (arith, length-map f l))
          ∙ map-move_back f l i

  -- An executor with one actor or more of its own gives away one of them, never itself, with that
  -- actor's handlers, and keeps all others.
  pub on_rebalance-of_slots :
      (rand : ℕ) (own : Slot H) (l : List (Slot H))
      → 0 < length l
      → on_rebalance rand (of_slots (own ∷ l))
        ≡ some (
          of_slots (own ∷ move_back l (rand % length l)),
          some ((get_or l (rand % length l) own).actor, (get_or l (rand % length l) own).handler),
        )
  unfolding on_rebalance
  on_rebalance-of_slots rand own l h =
      let i = rand % length l in
      let k : i < length l = mod-lt rand h in
      let b = suc i == length (own ∷ l) - 1 in
      rw (ne→== (suc (length l)) 1 (λ e. omega (arith, e))) (
        ap (λ j. take_last (choice j)) index
        ∙ ap take_last (swap_to_back-swapped b (suc i) (own ∷ l))
        ∙ take_last-swapped b (suc i) (own ∷ l) own refl (omega arith)
        ∙ ap (λ m. some (of_slots m, some ((get_or l i own).actor, (get_or l i own).handler)))
            (move_back-behind own l i k))
    where
      choice : ℕ → Executor H
      choice j =
          if j == length (own ∷ l) - 1
          then of_slots (own ∷ l)
          else swap_to_back j (of_slots (own ∷ l))

      size : suc (length l) - 1 ≡ length l
      size = omega arith

      index : 1 + rand % (suc (length l) - 1) ≡ suc (rand % length l)
      index = ap (λ n. 1 + rand % n) size ∙ omega arith
