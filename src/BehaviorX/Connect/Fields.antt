-- ===== src/BehaviorX/Connect/Fields.antt =====
-- What the operations of core/src/actor_behavior_x.cpp do to the queues of one sender and of the others.
use mathlib.Core.Option.{some-injective}
use zaf.Prelude.{
  ℕ, zero, drop, suc, ◌+◌, ◌<◌, ◌≡◌, ◌≢◌, refl, ap, sym, subst, ◌∙◌, Bool, true, false, none, some,
  List, [], ◌∷◌, ◌++◌, ◌==◌, if◌then◌else◌, inl, inr, Bool-cases, ==→eq, eq→==, ne→==, count, hit,
  count-append, count-Perm, arith,
}
use zaf.BehaviorX.{
  ActorBehaviorX, is_nil, member, erase, fill_hole, register_swsr_queue, notify_swsr_queue,
}
use zaf.BehaviorX.Rounds.{fill_hole-Perm}
use zaf.BehaviorX.Connect.{Link, Links, link, set_link}

pub member-count : (q : ℕ) (l : List ℕ) → member q l ≡ true → 0 < count q l
unfolding member
member-count q [] h = cc
member-count q (x ∷ l) h = elim (Bool-cases (q == x)) [
  | inl e ↦ rw e (omega arith)
  | inr e ↦
      let h' : member q l ≡ true = subst (λ b. (if b then true else member q l) ≡ true) e h in
      let more = member-count q l h' in omega (arith, more)
]

pub member-erase : (p q : ℕ) (l : List ℕ) → p ≢ q → member p (erase q l) ≡ member p l
unfolding member erase
member-erase p q [] ne = refl
member-erase p q (x ∷ l) ne = elim (Bool-cases (q == x)) [
  | inl e ↦
      let miss : (p == x) ≡ false = ne→== p x (λ f. ne (f ∙ sym (==→eq q x e))) in rw (e, miss) refl
  | inr e ↦ rw e (ap (λ b. if p == x then true else b) (member-erase p q l ne))
]

pub count-snoc : (p q : ℕ) (l : List ℕ) → count p (l ++ q ∷ []) ≡ count p l + hit p q
count-snoc p q l = omega (arith, count-append p l (q ∷ []))

pub count-leave :
    (p q : ℕ) (done rest : List ℕ)
    → count p (done ++ q ∷ rest) ≡ count p (done ++ fill_hole rest) + hit p q
count-leave p q done rest = omega (
  arith,
  count-append p done (q ∷ rest),
  count-append p done (fill_hole rest),
  count-Perm p (fill_hole-Perm rest),
)

pub register-new :
    {S : Type 0} (q : ℕ) (a : ActorBehaviorX S)
    → member q a.swsr_recv_queues ≡ false
    → register_swsr_queue q a ≡ record a { swsr_recv_queues = q ∷ a.swsr_recv_queues }
unfolding register_swsr_queue
register-new q a e = rw e refl

pub notify-registered :
    {S : Type 0} (q : ℕ) (a : ActorBehaviorX S)
    → member q a.swsr_recv_queues ≡ true
    → (a' : ActorBehaviorX S) × (notify_swsr_queue q a ≡ some a')
      × (a'.state ≡ a.state)
      × (a'.swsr_recv_queues ≡ a.swsr_recv_queues)
      × (a'.active_recv_queues ≡ a.active_recv_queues ++ q ∷ [])
unfolding notify_swsr_queue
notify-registered q a e = (
  record a {
    active_recv_queues = a.active_recv_queues ++ q ∷ [];
    consumptions = if is_nil a.active_recv_queues then suc a.consumptions else a.consumptions;
  },
  rw e refl,
  refl,
  refl,
  refl,
)

pub notify-unregistered :
    {S : Type 0} (q : ℕ) (a : ActorBehaviorX S)
    → member q a.swsr_recv_queues ≡ false
    → notify_swsr_queue q a ≡ none
unfolding notify_swsr_queue
notify-unregistered q a e = rw e refl

pub drop-[] : {A : Type 0} (n : ℕ) → drop {A = A} n [] ≡ []
drop-[] zero = refl
drop-[] (suc n) = refl

module _ {M : Type 0} where
  pub set-here : (q : ℕ) (l : Link M) (s : Links M) → l ≡ link q (set_link q l s)
  set-here q l s = rw (eq→== q q refl) refl

  pub set-other : (p q : ℕ) (l : Link M) (s : Links M) → p ≢ q → link p s ≡ link p (set_link q l s)
  set-other p q l s ne = rw (ne→== p q ne) refl

  -- Registration of the queue of `q` changes nothing else.
  pub register-fields :
      (q : ℕ) (a : ActorBehaviorX (ℕ → Link M))
      → ((register_swsr_queue q a).state ≡ a.state)
        × ((register_swsr_queue q a).active_recv_queues ≡ a.active_recv_queues)
        × (member q (register_swsr_queue q a).swsr_recv_queues ≡ true)
        × ((p : ℕ)
            → p ≢ q
            → member p (register_swsr_queue q a).swsr_recv_queues ≡ member p a.swsr_recv_queues)
  unfolding register_swsr_queue member
  register-fields q a = elim (Bool-cases (member q a.swsr_recv_queues)) [
    | inl e ↦ rw e (refl, refl, e, λ p ne. refl)
    | inr e ↦ rw (e, eq→== q q refl) (refl, refl, refl, λ p ne. rw (ne→== p q ne) refl)
  ]

  pub notify-fields :
      (q : ℕ) (a a' : ActorBehaviorX (ℕ → Link M))
      → notify_swsr_queue q a ≡ some a'
      → (a'.state ≡ a.state)
        × (a'.active_recv_queues ≡ a.active_recv_queues ++ q ∷ [])
        × (a'.swsr_recv_queues ≡ a.swsr_recv_queues)
  unfolding notify_swsr_queue
  notify-fields q a a' h = by_test (member q a.swsr_recv_queues) h
    where
      after : ActorBehaviorX (ℕ → Link M)
      after = record a {
        active_recv_queues = a.active_recv_queues ++ q ∷ [];
        consumptions = if is_nil a.active_recv_queues then suc a.consumptions else a.consumptions;
      }

      Fields : ActorBehaviorX (ℕ → Link M) → Type 0
      Fields b =
          (b.state ≡ a.state)
          × (b.active_recv_queues ≡ a.active_recv_queues ++ q ∷ [])
          × (b.swsr_recv_queues ≡ a.swsr_recv_queues)

      by_test : (b : Bool) → (if b then some after else none) ≡ some a' → Fields a'
      by_test true h = subst Fields (some-injective _ _ h) (refl, refl, refl)
      by_test false h = cc
