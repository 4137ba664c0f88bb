-- ===== src/Delayed/Due.antt =====
-- A flush (core/src/actor_behavior.cpp) sends the delayed messages that are due, in the order of their
-- times, and no other.
use zaf.Prelude.{
  ℕ, suc, ◌+◌, ◌≤◌, ◌<◌, ◌≡◌, refl, ap, subst, true, false, none, some, List, [], ◌∷◌, ◌++◌, map,
  length, leb, inl, inr, Bool-cases, if-both, arith,
}
use zaf.Delayed.{
  DelayedMessage, Outgoing, Entry, Operation, send_later, flush, emplace, delayed_send,
  send_delayed, flush_delayed_messages, after_operations,
}

pub leb→le : (a b : ℕ) → leb a b ≡ true → a ≤ b
leb→le a b h = ground arith

pub leb→gt : (a b : ℕ) → leb a b ≡ false → b < a
leb→gt a b h = ground arith

module _ {M Y : Type 0} where
  abbrev pub NotBefore : ℕ → List (Entry M Y) → Type 0
  NotBefore t [] = Unit
  NotBefore t (x ∷ xs) = (t ≤ x.0) × NotBefore t xs

  abbrev pub Until : ℕ → List (Entry M Y) → Type 0
  Until t [] = Unit
  Until t (x ∷ xs) = (x.0 ≤ t) × Until t xs

  abbrev pub Sorted : List (Entry M Y) → Type 0
  Sorted [] = Unit
  Sorted (x ∷ xs) = NotBefore x.0 xs × Sorted xs

  NotBefore-le : (s t : ℕ) (l : List (Entry M Y)) → s ≤ t → NotBefore t l → NotBefore s l
  NotBefore-le s t [] h n = tt
  NotBefore-le s t (x ∷ xs) h n = (omega (arith, n.0), NotBefore-le s t xs h n.1)

  -- The outcome of a flush of `l` from the k-th reading on.
  pub record Flushed (clock : ℕ → ℕ) (k : ℕ) (l : List (Entry M Y))
      (r : List (Outgoing M Y) × List (Entry M Y)) : Type 0 where
    pub due : List (Entry M Y)
    pub split : l ≡ due ++ r.1
    pub sent : r.0 ≡ map (λ x. send_delayed x.1) due
    -- No message is sent before its time.
    pub on_time : Until (clock (k + length due)) due
    -- Nothing is left that was due when the flush began.
    pub left : NotBefore (suc (clock k)) r.1
    pub sorted : Sorted r.1

  Until-le : (s t : ℕ) (l : List (Entry M Y)) → s ≤ t → Until s l → Until t l
  Until-le s t [] h n = tt
  Until-le s t (x ∷ xs) h n = (omega (arith, n.0), Until-le s t xs h n.1)

  emplace-NotBefore :
      (s time : ℕ) (m : DelayedMessage M Y) (l : List (Entry M Y))
      → s ≤ time
      → NotBefore s l
      → NotBefore s (emplace time m l)
  unfolding emplace
  emplace-NotBefore s time m [] h n = (h, tt)
  emplace-NotBefore s time m (x ∷ xs) h n =
      if-both (NotBefore s) (leb x.0 time) (n.0, emplace-NotBefore s time m xs h n.1) (h, n)

  emplace-Sorted :
      (time : ℕ) (m : DelayedMessage M Y) (l : List (Entry M Y))
      → Sorted l
      → Sorted (emplace time m l)
  unfolding emplace
  emplace-Sorted time m [] s = (tt, tt)
  emplace-Sorted time m (x ∷ xs) s = elim (Bool-cases (leb x.0 time)) [
    | inl e ↦
        rw e (emplace-NotBefore x.0 time m xs (leb→le x.0 time e) s.0, emplace-Sorted time m xs s.1)
    | inr e ↦
        let h = leb→gt x.0 time e in
        let before : time ≤ x.0 = omega (arith, h) in
        rw e ((before, NotBefore-le time x.0 xs before s.0), s)
  ]

  module _ (clock : ℕ → ℕ) (monotone : (i j : ℕ) → i ≤ j → clock i ≤ clock j) where
    flush-Flushed :
        (k : ℕ) (l : List (Entry M Y))
        → Sorted l
        → Flushed clock k l (flush_delayed_messages clock k l)
    unfolding flush_delayed_messages
    flush-Flushed k [] s = record {
      due = [];
      split = refl;
      sent = refl;
      on_time = tt;
      left = tt;
      sorted = tt;
    }
    flush-Flushed k (x ∷ xs) s = elim (Bool-cases (leb x.0 (clock k))) [
      | inl e ↦
          let r = flush-Flushed (suc k) xs s.1 in
          let i : suc k + length r.due ≡ k + suc (length r.due) = omega arith in
          let later = monotone k (k + suc (length r.due)) (omega arith) in
          rw e (record {
            due = x ∷ r.due;
            split = ap (λ l. x ∷ l) r.split;
            sent = ap (λ l. send_delayed x.1 ∷ l) r.sent;
            on_time = (
              omega (arith, leb→le x.0 (clock k) e, later),
              subst (λ n. Until (clock n) r.due) i r.on_time,
            );
            left = NotBefore-le _ _ _ (omega (arith, monotone k (suc k) (omega arith))) r.left;
            sorted = r.sorted;
          })
      | inr e ↦
          let h = leb→gt x.0 (clock k) e in
          rw e (record {
            due = [];
            split = refl;
            sent = refl;
            on_time = tt;
            left = (omega (arith, h), NotBefore-le (suc (clock k)) x.0 xs (omega (arith, h)) s.0);
            sorted = s;
          })
    ]

    after_operations-Sorted :
        (k : ℕ) (ops : List (Operation M Y)) (l : List (Entry M Y))
        → Sorted l
        → Sorted (after_operations clock k ops l)
    unfolding after_operations delayed_send
    after_operations-Sorted k [] l s = s
    after_operations-Sorted k (send_later time none ∷ ops) l s =
        after_operations-Sorted (suc k) ops l s
    after_operations-Sorted k (send_later time (some m) ∷ ops) l s =
        after_operations-Sorted (suc k) ops _ (emplace-Sorted (clock k + time) m l s)
    after_operations-Sorted k (flush ∷ ops) l s =
        after_operations-Sorted (suc k) ops _ (flush-Flushed k l s).sorted

    -- With a clock that never goes back, and after any delayed sends and flushes, a flush sends the
    -- delayed messages of a first part of the sorted multimap, in order: none before its time, and
    -- every one whose time had come when the flush began. What is left is sorted.
    pub flush-sends_due :
        (k j : ℕ) (ops : List (Operation M Y))
        → Flushed clock j
            (after_operations clock k ops [])
            (flush_delayed_messages clock j (after_operations clock k ops []))
    flush-sends_due k j ops =
        flush-Flushed j (after_operations clock k ops []) (after_operations-Sorted k ops [] tt)
