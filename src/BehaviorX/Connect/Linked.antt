-- ===== src/BehaviorX/Connect/Linked.antt =====
-- What the queues of all senders are to the receiver in any run (core/src/actor_behavior_x.cpp).
use mathlib.Core.Bool.{false≢true}
use zaf.Prelude.{
  ℕ, drop, suc, ◌+◌, ◌≡◌, ◌≢◌, refl, ap, sym, subst, ◌∙◌, Bool, true, false, Option, none, some,
  List, [], ◌∷◌, ◌++◌, ◌==◌, if◌then◌else◌, inl, inr, Bool-cases, eq→==, ne→==, count, hit,
  ℕ_discrete, arith,
}
use zaf.BehaviorX.{member, erase, fill_hole, register_swsr_queue, notify_swsr_queue}
use zaf.BehaviorX.Connect.{
  Notice, notification, Link, Links, send, destruct, link, set_link, drop_first, leave_queue, Step,
  sends, destroys, registers, notifies, reads, finds_empty, reads_last, lowers, leaves, initial,
  Reach, start, later,
}
use zaf.BehaviorX.Connect.Phases.{apart, idle, Good, notified-registered}
use zaf.BehaviorX.Connect.Sending.{send-Good}
use zaf.BehaviorX.Connect.Serving.{
  registers-Good, notifies-Good, lowers-Good, leaves-Good, reads-Good,
}
use zaf.BehaviorX.Connect.Fields.{
  member-count, member-erase, count-snoc, count-leave, set-here, set-other, register-fields,
  notify-fields,
}

abbrev pub is_leaving : ℕ → Option ℕ → Bool
is_leaving q none = false
is_leaving q (some p) = q == p

module _ {M : Type 0} where
  -- A sender's queue with what the receiver has of it.
  abbrev pub Linked : ℕ → Links M → Type 0
  Linked q s =
      Good (link q s) (member q s.receiver.swsr_recv_queues) (count q s.receiver.active_recv_queues)
        (is_leaving q s.leaving)

  Good-same :
      {l l' : Link M} {r r' d d' : Bool} {n n' : ℕ}
      → l ≡ l'
      → r ≡ r'
      → n ≡ n'
      → d ≡ d'
      → Good l r n d
      → Good l' r' n' d'
  Good-same {l} {l'} {r} {r'} {d} {d'} {n} {n'} e1 e2 e3 e4 g =
      subst (λ k. Good k r' n' d') e1
        (subst (λ k. Good l k n' d') e2
          (subst (λ k. Good l r k d') e3 (subst (λ k. Good l r n k) e4 g)))

  -- A step for the sender `q` and for the others.
  each : (q : ℕ) (t : Links M) → Linked q t → ((p : ℕ) → p ≢ q → Linked p t) → (p : ℕ) → Linked p t
  each q t here others p = elim (ℕ_discrete p q) [
    | yes e ↦ subst (λ k. Linked k t) (sym e) here
    | no ne ↦ others p ne
  ]

  Step-Linked :
      {capacity limit : ℕ} {s t : Links M}
      → Step capacity limit s t
      → ((q : ℕ) → Linked q s)
      → (p : ℕ) → Linked p t
  unfolding destruct leave_queue
  Step-Linked {s = s} (sends q m alive room) i =
      let l = send m (link q s) in
      each q (set_link q l s)
        (Good-same (set-here q l s) refl refl refl (send-Good m _ _ _ _ (i q)))
        (λ p ne. Good-same (set-other p q l s ne) refl refl refl (i p))
  Step-Linked {s = s} (destroys q) i =
      let l = destruct (link q s) in
      each q (set_link q l s)
        (Good-same (set-here q l s) refl refl refl (λ h. absurd (false≢true h)))
        (λ p ne. Good-same (set-other p q l s ne) refl refl refl (i p))
  Step-Linked {s = s} (registers q rest e) i =
      let l = record (link q s) { notices = rest } in
      let s' = record s { receiver = register_swsr_queue q s.receiver } in
      let f = register-fields q s.receiver in
      each q (set_link q l s')
        (Good-same (set-here q l s') (sym f.2) (sym (ap (count q) f.1)) refl
          (registers-Good rest _ _ _ _ e (i q)))
        (λ p ne.
          Good-same (ap (λ g. g p) (sym f.0) ∙ set-other p q l s' ne) (sym (f.3 p ne))
            (sym (ap (count p) f.1)) refl (i p))
  Step-Linked {s = s} (notifies q rest a e h) i =
      let l = record (link q s) { notices = rest } in
      let s' = record s { receiver = a } in
      let f = notify-fields q s.receiver a h in
      let once : hit q q ≡ 1 = rw (eq→== q q refl) refl in
      let more : count q (s.receiver.active_recv_queues ++ q ∷ [])
          ≡ count q s.receiver.active_recv_queues + 1 =
        omega (arith, count-snoc q q s.receiver.active_recv_queues) in
      each q (set_link q l s')
        (Good-same (set-here q l s') (sym (ap (member q) f.2)) (sym (ap (count q) f.1 ∙ more)) refl
          (notifies-Good rest _ _ _ _ e (i q)))
        (λ p ne.
          let none_more : hit p q ≡ 0 = rw (ne→== p q ne) refl in
          Good-same (ap (λ g. g p) (sym f.0) ∙ set-other p q l s' ne) (sym (ap (member p) f.2))
            (sym (ap (count p) f.1 ∙ omega (arith, count-snoc p q s.receiver.active_recv_queues)))
            refl (i p))
  Step-Linked {s = s} (reads q h n) i =
      let l = record (link q s) { items = drop_first (link q s).items } in
      let s' = record s { found_empty = none } in
      each q (set_link q l s')
        (Good-same (set-here q l s') refl refl refl (reads-Good _ _ _ _ _ (i q)))
        (λ p ne. Good-same (set-other p q l s' ne) refl refl refl (i p))
  Step-Linked (finds_empty q h n e) i = i
  Step-Linked {s = s} (lowers q h e f) i =
      let l = record (link q s) { may_have_message = false } in
      let s' = record s { found_empty = none; leaving = some q; last_read_due = true } in
      let not_yet : (p : ℕ) → is_leaving p s.leaving ≡ false = λ p. ap (is_leaving p) e in
      each q (set_link q l s')
        (Good-same (set-here q l s') refl refl (sym (eq→== q q refl))
          (lowers-Good _ _ _ (member-count q _ h) (Good-same refl refl refl (not_yet q) (i q))))
        (λ p ne. Good-same (set-other p q l s' ne) refl refl (not_yet p ∙ sym (ne→== p q ne)) (i p))
  Step-Linked {limit = limit} {s = s} (reads_last q h e) i =
      let l = record (link q s) { items = drop limit (link q s).items } in
      let s' = record s { last_read_due = false } in
      each q (set_link q l s')
        (Good-same (set-here q l s') refl refl refl (reads-Good _ _ _ _ _ (i q)))
        (λ p ne. Good-same (set-other p q l s' ne) refl refl refl (i p))
  Step-Linked {s = s} (leaves q done rest e h last) i =
      each q (leave_queue q done rest s) here others
    where
      fewer :
          (p : ℕ)
          → count p s.receiver.active_recv_queues ≡ count p (done ++ fill_hole rest) + hit p q
      fewer p = ap (count p) e ∙ count-leave p q done rest

      here : Linked q (leave_queue q done rest s)
      here alive =
          let once : hit q q ≡ 1 = rw (eq→== q q refl) refl in
          let one_more : count q s.receiver.active_recv_queues
              ≡ suc (count q (done ++ fill_hole rest)) =
            omega (arith, fewer q) in
          let due : is_leaving q s.leaving ≡ true = ap (is_leaving q) h ∙ eq→== q q refl in
          let kept =
            ap
              (λ b.
                member q
                  (if b then s.receiver.swsr_recv_queues else erase q s.receiver.swsr_recv_queues))
              (sym alive) in
          Good-same {l = link q s} refl kept refl refl
            (leaves-Good _ _ _ (Good-same refl refl one_more due (i q))) alive

      others : (p : ℕ) → p ≢ q → Linked p (leave_queue q done rest s)
      others p ne =
          let none_less : hit p q ≡ 0 = rw (ne→== p q ne) refl in
          let same : count p s.receiver.active_recv_queues ≡ count p (done ++ fill_hole rest) =
            omega (arith, fewer p) in
          let not_due : is_leaving p s.leaving ≡ false = ap (is_leaving p) h ∙ ne→== p q ne in
          Good-same {l = link p s} refl (kept_either (link q s).is_writing_by_sender p ne) same
            not_due (i p)
        where
          kept_either :
              (b : Bool) (p : ℕ)
              → p ≢ q
              → member p s.receiver.swsr_recv_queues
                ≡ member p
                    (if b then s.receiver.swsr_recv_queues else erase q s.receiver.swsr_recv_queues)
          kept_either true p ne = refl
          kept_either false p ne = sym (member-erase p q s.receiver.swsr_recv_queues ne)

  initial-Linked : (self q : ℕ) → Linked q (initial self)
  unfolding member
  initial-Linked self q = elim (Bool-cases (q == self)) [
    | inl e ↦ rw e (λ h. (idle, (refl, refl, refl, refl, refl, refl)))
    | inr e ↦ rw e (λ h. (apart, (refl, refl, refl, refl, refl, refl)))
  ]

  pub Reach-Linked :
      {capacity limit self : ℕ} {s : Links M} → Reach capacity limit self s → (q : ℕ) → Linked q s
  Reach-Linked {self = self} start q = initial-Linked self q
  Reach-Linked (later r st) q = Step-Linked st (Reach-Linked r) q

  -- In every run, a notification that arrives next from a sender that lives finds the queue of that
  -- sender: `notify_swsr_queue` does not throw.
  pub notify-found :
      {capacity limit self : ℕ} {s : Links M} (q : ℕ) (rest : List Notice)
      → Reach capacity limit self s
      → (link q s).is_writing_by_sender ≡ true
      → (link q s).notices ≡ notification ∷ rest
      → notify_swsr_queue q s.receiver ≢ none
  unfolding notify_swsr_queue
  notify-found {s = s} q rest r alive e h =
      let found = notified-registered rest _ _ _ _ e alive (Reach-Linked r q) in
      ground (arith, found)
