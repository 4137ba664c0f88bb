-- ===== src/Engine/Rounds.antt =====
-- A round of the loop in `launch` (core/src/actor_engine.cpp) serves every actor with a message once,
-- also when it removes actors from the vectors that it walks through.
use mathlib.Core.List.{Perm, perm_middle}
use mathlib.Core.List.Perm
use zaf.Prelude.{
  ℕ, zero, suc, ◌<◌, ◌≤◌, ◌≡◌, refl, ap, sym, ◌∙◌, Bool, true, false, Option, some, List, [], ◌∷◌,
  ◌++◌, length, get_elem?, move_back, inl, inr, Bool-cases, lt→ltb, ltb-eq_false,
  get_elem?-map-append, length-append, length-move_back, move_back-append, move_back-first,
  append_assoc, append-nil, if◌then◌else◌, arith,
}
use zaf.Engine.{Executor, PollItem, visit, serve_from, remove_actor}
use zaf.Engine.Slots.{Slot, of_slots, remove_actor-of_slots}

-- Every slot's poll item is, or none is, readable.
abbrev pub AllReadable : {H : Type 0} → Bool → List (Slot H) → Type 0
AllReadable b [] = Unit
AllReadable b (x ∷ xs) = (x.item.revents ≡ b) × AllReadable b xs

module _ {H S : Type 0} (serve : ℕ → H → S → Bool × S) (retire : ℕ → S → S) where
  -- Serving each actor of a list once, and retiring those that are not activated any more: the actors
  -- that are left, and the state.
  abbrev pub serve_each : List (Slot H) → S → List (Slot H) × S
  serve_each [] s = ([], s)
  serve_each (x ∷ xs) s =
      let r = serve x.actor x.handler s in
      let on = serve_each xs r.1 in
      let off = serve_each xs (retire x.actor r.1) in if r.0 then (x ∷ on.0, on.1) else off

  -- The outcome of the loop on the slots `l`, behind the slots `pre`.
  pub record Round (pre l : List (Slot H)) (s : S) (result : Option (Executor H × S)) : Type 0 where
    pub order : List (Slot H)
    pub skipped : List (Slot H)
    pub left : List (Slot H)
    pub all : Perm (order ++ skipped) l
    pub readable : AllReadable true order
    pub silent : AllReadable false skipped
    pub returns : result ≡ some (of_slots (pre ++ left), (serve_each order s).1)
    pub kept : Perm left ((serve_each order s).0 ++ skipped)

  module _ (i : ℕ) (e : Executor H) (s : S) (item : PollItem) (actor : ℕ) (handler : H)
      (polled : get_elem? e.poll_items i ≡ some item) (found : get_elem? e.actors i ≡ some actor)
      (handled : get_elem? e.handlers i ≡ some handler) where
    visit-silent : item.revents ≡ false → visit serve retire i e s ≡ some (suc i, (e, s))
    unfolding visit
    visit-silent r = rw (polled, r) refl

    visit-on :
        item.revents ≡ true
        → (serve actor handler s).0 ≡ true
        → visit serve retire i e s ≡ some (suc i, (e, (serve actor handler s).1))
    unfolding visit
    visit-on r k = rw (polled, r, found, handled, k) refl

    visit-off :
        item.revents ≡ true
        → (serve actor handler s).0 ≡ false
        → visit serve retire i e s
          ≡ some (i, (remove_actor i e, retire actor (serve actor handler s).1))
    unfolding visit
    visit-off r k = rw (polled, r, found, handled, k) refl

  serve_from-visit :
      (fuel i j : ℕ) (e e' : Executor H) (s s' : S)
      → i < e.num_poll_items
      → visit serve retire i e s ≡ some (j, (e', s'))
      → serve_from serve retire (suc fuel) i e s ≡ serve_from serve retire fuel j e' s'
  unfolding serve_from
  serve_from-visit fuel i j e e' s s' h v = rw (serve_from, lt→ltb i e.num_poll_items h, v) refl

  serve_from-end :
      (fuel i : ℕ) (e : Executor H) (s : S)
      → e.num_poll_items ≤ i
      → serve_from serve retire fuel i e s ≡ some (e, s)
  unfolding serve_from
  serve_from-end zero i e s h = rw (ltb-eq_false i e.num_poll_items h) refl
  serve_from-end (suc fuel) i e s h = rw (serve_from, ltb-eq_false i e.num_poll_items h) refl

  abbrev Rest : ℕ → ℕ → List (Slot H) → List (Slot H) → List (Slot H) → S → Type 0
  Rest fuel i pre l all s = Round pre l s (serve_from serve retire fuel i (of_slots all) s)

  -- The three branches of the body, from the outcome of the rest of the loop.
  module _ (fuel i : ℕ) (pre xs all : List (Slot H)) (x : Slot H) (s : S) (at : i ≡ length pre)
      (whole : all ≡ pre ++ x ∷ xs) where
    abbrev served : Bool × S
    served = serve x.actor x.handler s

    polled : get_elem? (of_slots all).poll_items i ≡ some x.item
    polled = rw (at, whole) (get_elem?-map-append (λ x. x.item) pre xs x)

    found : get_elem? (of_slots all).actors i ≡ some x.actor
    found = rw (at, whole) (get_elem?-map-append (λ x. x.actor) pre xs x)

    handled : get_elem? (of_slots all).handlers i ≡ some x.handler
    handled = rw (at, whole) (get_elem?-map-append (λ x. x.handler) pre xs x)

    inside : i < length all
    inside = omega (arith, at, ap length whole, length-append pre (x ∷ xs))

    removed : remove_actor i (of_slots all) ≡ of_slots (pre ++ move_back (x ∷ xs) 0)
    removed = remove_actor-of_slots i all ∙ rw (at, whole) (ap of_slots (move_back-append pre xs x))

    silent-Round :
        x.item.revents ≡ false
        → Rest fuel (suc i) (pre ++ x ∷ []) xs all s
        → Rest (suc fuel) i pre (x ∷ xs) all s
    silent-Round r on = record {
      order = on.order;
      skipped = x ∷ on.skipped;
      left = x ∷ on.left;
      all = Perm.trans (perm_middle on.order on.skipped) (Perm.cons x on.all);
      readable = on.readable;
      silent = (r, on.silent);
      returns =
          serve_from-visit fuel i (suc i) (of_slots all) (of_slots all) s s inside
            (visit-silent i (of_slots all) s x.item x.actor x.handler polled found handled r)
          ∙ on.returns
          ∙ ap (λ l. some (of_slots l, (serve_each on.order s).1))
              (append_assoc pre (x ∷ []) on.left);
      kept =
          Perm.trans (Perm.cons x on.kept)
            (Perm.symm (perm_middle (serve_each on.order s).0 on.skipped));
    }

    on-Round :
        x.item.revents ≡ true
        → served.0 ≡ true
        → Rest fuel (suc i) (pre ++ x ∷ []) xs all served.1
        → Rest (suc fuel) i pre (x ∷ xs) all s
    on-Round r k on = record {
      order = x ∷ on.order;
      skipped = on.skipped;
      left = x ∷ on.left;
      all = Perm.cons x on.all;
      readable = (r, on.readable);
      silent = on.silent;
      returns =
          serve_from-visit fuel i (suc i) (of_slots all) (of_slots all) s served.1 inside
            (visit-on i (of_slots all) s x.item x.actor x.handler polled found handled r k)
          ∙ on.returns
          ∙ rw k (
              ap (λ l. some (of_slots l, (serve_each on.order served.1).1))
                (append_assoc pre (x ∷ []) on.left));
      kept = rw k (Perm.cons x on.kept);
    }

    off-Round :
        x.item.revents ≡ true
        → served.0 ≡ false
        → Rest fuel i pre
            (move_back (x ∷ xs) 0)
            (pre ++ move_back (x ∷ xs) 0)
            (retire x.actor served.1)
        → Rest (suc fuel) i pre (x ∷ xs) all s
    off-Round r k off =
        let next = retire x.actor served.1 in
        record {
          order = x ∷ off.order;
          skipped = off.skipped;
          left = off.left;
          all = Perm.cons x (Perm.trans off.all (move_back-first x xs));
          readable = (r, off.readable);
          silent = off.silent;
          returns =
              serve_from-visit fuel i i (of_slots all) (remove_actor i (of_slots all)) s next inside
                (visit-off i (of_slots all) s x.item x.actor x.handler polled found handled r k)
              ∙ ap (λ e. serve_from serve retire fuel i e next) removed
              ∙ off.returns
              ∙ rw k refl;
          kept = rw k off.kept;
        }

  serve_from-Round :
      (fuel i : ℕ) (pre l all : List (Slot H)) (s : S)
      → i ≡ length pre
      → all ≡ pre ++ l
      → length l ≤ fuel
      → Rest fuel i pre l all s
  serve_from-Round fuel i pre [] all s at whole h = record {
    order = [];
    skipped = [];
    left = [];
    all = Perm.refl [];
    readable = tt;
    silent = tt;
    returns =
        serve_from-end fuel i (of_slots all) s
          (omega (arith, ap length whole, ap length (append-nil pre)))
        ∙ ap (λ l. some (of_slots l, s)) whole;
    kept = Perm.refl [];
  }
  serve_from-Round zero i pre (x ∷ xs) all s at whole h = absurd (omega arith)
  serve_from-Round (suc fuel) i pre (x ∷ xs) all s at whole h =
      let moved = move_back (x ∷ xs) 0 in
      let next = serve_from-Round fuel (suc i) (pre ++ x ∷ []) xs all in
      let same = serve_from-Round fuel i pre moved (pre ++ moved) in
      let one_on : suc i ≡ length (pre ++ x ∷ []) = omega (arith, at, length-append pre (x ∷ [])) in
      let split = whole ∙ sym (append_assoc pre (x ∷ []) xs) in
      elim (Bool-cases x.item.revents) [
        | inl r ↦ elim (Bool-cases (serve x.actor x.handler s).0) [
          | inl k ↦ on-Round fuel i pre xs all x s at whole r k (next _ one_on split (omega arith))
          | inr k ↦
              off-Round fuel i pre xs all x s at whole r k
                (same _ at refl (omega (arith, length-move_back (x ∷ xs) 0)))
        ]
        | inr r ↦ silent-Round fuel i pre xs all x s at whole r (next _ one_on split (omega arith))
      ]

  -- With the executor itself at index 0 and any actors behind it, the loop from 1 on never reads out
  -- of range and ends within as many rounds as there are actors. It serves each readable actor exactly
  -- once, in some order, and no other; afterwards the executor is still at index 0, and behind it are,
  -- in some order, the actors that were not readable and those that were still activated when they
  -- had been served.
  pub serve_from-serves_once :
      (own : Slot H) (l : List (Slot H)) (s : S)
      → Round (own ∷ []) l s (serve_from serve retire (length l) 1 (of_slots (own ∷ l)) s)
  serve_from-serves_once own l s =
      serve_from-Round (length l) 1 (own ∷ []) l (own ∷ l) s refl refl (omega arith)
