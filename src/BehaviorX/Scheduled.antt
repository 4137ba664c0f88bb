-- ===== src/BehaviorX/Scheduled.antt =====
-- An `ActorBehaviorX` (core/src/actor_behavior_x.cpp) with active queues has exactly one
-- SWSRMsgQueueConsumption under way to itself, so no active queue is forgotten.
use zaf.Prelude.{
  ℕ, suc, ◌≡◌, refl, ap, sym, subst, ◌∙◌, Bool, true, false, none, some, List, [], ◌∷◌, ◌++◌,
  if◌then◌else◌, inl, inr, Bool-cases, arith,
}
use mathlib.Core.Option.{some-injective}
use zaf.BehaviorX.{
  ActorBehaviorX, member, is_nil, register_swsr_queue, notify_swsr_queue, consume_swsr_recv_queues,
  on_consumption,
}

abbrev pub new_actor : {S : Type 0} → S → ActorBehaviorX S
new_actor s = record { swsr_recv_queues = []; active_recv_queues = []; consumptions = 0; state = s }

module _ {S : Type 0} (serve : ℕ → S → Bool × S) (is_writing : ℕ → S → Bool) (post : S → S) where
  -- The three handlers, and what others do to the queues.
  pub data Step : ActorBehaviorX S → ActorBehaviorX S → Type 0 where
    register : {a : ActorBehaviorX S} (sender_id : ℕ) → Step a (register_swsr_queue sender_id a)
    notify :
        {a a' : ActorBehaviorX S} (sender_id : ℕ)
        → notify_swsr_queue sender_id a ≡ some a'
        → Step a a'
    consume :
        {a : ActorBehaviorX S} (n : ℕ)
        → a.consumptions ≡ suc n
        → Step a (on_consumption serve is_writing post (record a { consumptions = n })).0
    others : {a : ActorBehaviorX S} (s : S) → Step a (record a { state = s })

  pub data Reach : ActorBehaviorX S → Type 0 where
    begin : (s : S) → Reach (new_actor s)
    next : {a a' : ActorBehaviorX S} → Reach a → Step a a' → Reach a'

  abbrev expected : List ℕ → ℕ
  expected l = if is_nil l then 0 else 1

  register-same :
      (q : ℕ) (a : ActorBehaviorX S)
      → a.consumptions ≡ expected a.active_recv_queues
      → (register_swsr_queue q a).consumptions
        ≡ expected (register_swsr_queue q a).active_recv_queues
  unfolding register_swsr_queue
  register-same q a v = elim (Bool-cases (member q a.swsr_recv_queues)) [
    | inl e ↦ rw e v
    | inr e ↦ rw e v
  ]

  snoc_not-nil : (l : List ℕ) (q : ℕ) → is_nil (l ++ q ∷ []) ≡ false
  unfolding is_nil
  snoc_not-nil [] q = refl
  snoc_not-nil (x ∷ l) q = refl

  notify-same :
      (q : ℕ) (a a' : ActorBehaviorX S)
      → a.consumptions ≡ expected a.active_recv_queues
      → notify_swsr_queue q a ≡ some a'
      → a'.consumptions ≡ expected a'.active_recv_queues
  unfolding notify_swsr_queue
  notify-same q a a' v h = by_test (member q a.swsr_recv_queues) h
    where
      after : ActorBehaviorX S
      after = record a {
        active_recv_queues = a.active_recv_queues ++ q ∷ [];
        consumptions = if is_nil a.active_recv_queues then suc a.consumptions else a.consumptions;
      }

      right : after.consumptions ≡ expected after.active_recv_queues
      right = elim (Bool-cases (is_nil a.active_recv_queues)) [
        | inl e ↦
            let none_sent : a.consumptions ≡ 0 = v ∙ rw e refl in
            rw (snoc_not-nil a.active_recv_queues q, e) (ap suc none_sent)
        | inr e ↦
            let one_sent : a.consumptions ≡ 1 = v ∙ rw e refl in
            rw (snoc_not-nil a.active_recv_queues q, e) one_sent
      ]

      by_test :
          (b : Bool)
          → (if b then some after else none) ≡ some a'
          → a'.consumptions ≡ expected a'.active_recv_queues
      by_test true h =
          subst (λ x. x.consumptions ≡ expected x.active_recv_queues) (some-injective _ _ h) right
      by_test false h = cc

  one_at_most : (n : ℕ) (l : List ℕ) → suc n ≡ expected l → n ≡ 0
  one_at_most n l h = elim (Bool-cases (is_nil l)) [
    | inl e ↦ let z : suc n ≡ 0 = h ∙ rw e refl in absurd (omega arith)
    | inr e ↦ let z : suc n ≡ 1 = h ∙ rw e refl in omega arith
  ]

  consume-same :
      (n : ℕ) (a : ActorBehaviorX S)
      → n ≡ 0
      → a.consumptions ≡ n
      → (on_consumption serve is_writing post a).0.consumptions
        ≡ expected (on_consumption serve is_writing post a).0.active_recv_queues
  unfolding on_consumption consume_swsr_recv_queues
  consume-same n a z h =
      elim (Bool-cases
        (is_nil (consume_swsr_recv_queues serve is_writing a).0.active_recv_queues)) [
          | inl e ↦ rw e (h ∙ z)
          | inr e ↦ rw e (ap suc (h ∙ z))
        ]

  -- In every run the number of SWSRMsgQueueConsumption messages under way is one while a queue is
  -- active and none otherwise.
  pub Reach-scheduled :
      (a : ActorBehaviorX S)
      → Reach a
      → a.consumptions ≡ (if is_nil a.active_recv_queues then 0 else 1)
  unfolding is_nil
  Reach-scheduled a (begin s) = refl
  Reach-scheduled a (next r (register q)) = register-same q _ (Reach-scheduled _ r)
  Reach-scheduled a (next r (notify q h)) = notify-same q _ a (Reach-scheduled _ r) h
  Reach-scheduled a (next {a = b} r (consume n e)) =
      consume-same n (record b { consumptions = n })
        (one_at_most n b.active_recv_queues (sym e ∙ Reach-scheduled b r)) refl
  Reach-scheduled a (next r (others s)) = Reach-scheduled _ r
