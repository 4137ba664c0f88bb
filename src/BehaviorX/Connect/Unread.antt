-- ===== src/BehaviorX/Connect/Unread.antt =====
-- No message is left behind in a queue of which the flag is down (core/src/actor_behavior_x.cpp), if the
-- last read takes as many messages as the queue can hold.
use mathlib.Core.Bool.{false≢true}
use mathlib.Core.Option.{some-injective}
use zaf.Prelude.{
  ℕ, zero, suc, ◌≤◌, ◌≡◌, ◌≢◌, ◌⊎◌, inl, inr, refl, ap, sym, subst, ◌∙◌, Bool, true, false, Option,
  none, some, List, [], ◌∷◌, ◌++◌, length, drop, ℕ_discrete, eq→==, ne→==, arith,
}
use zaf.BehaviorX.{register_swsr_queue}
use zaf.BehaviorX.Connect.{
  Link, Links, setup_swsr_connection, push_message, send, destruct, link, set_link, drop_first,
  leave_queue, Step, sends, destroys, registers, notifies, reads, finds_empty, lowers, reads_last,
  leaves, Reach, start, later,
}
use zaf.BehaviorX.Connect.Fields.{set-here, set-other, register-fields, notify-fields}

module _ {M : Type 0} where
  -- The queue holds no more than its capacity; with the flag down it is empty, or the last read of it is
  -- still to come.
  abbrev pub Unread : ℕ → ℕ → Link M → (leaving : Option ℕ) → (last_read_due : Bool) → Type 0
  Unread capacity q l leaving due =
      (length l.items ≤ capacity)
      × ((l.may_have_message ≡ true) ⊎ ((l.items ≡ []) ⊎ ((leaving ≡ some q) × (due ≡ true))))

  abbrev UnreadIn : ℕ → ℕ → Links M → Type 0
  UnreadIn capacity q s = Unread capacity q (link q s) s.leaving s.last_read_due

  length-drop_first : (l : List M) → length (drop_first l) ≤ length l
  length-drop_first [] = omega arith
  length-drop_first (x ∷ l) = omega arith

  drop-all : (n : ℕ) (l : List M) → length l ≤ n → drop n l ≡ []
  drop-all zero [] h = refl
  drop-all zero (x ∷ l) h = absurd (omega (arith, h))
  drop-all (suc n) [] h = refl
  drop-all (suc n) (x ∷ l) h = drop-all n l (omega (arith, h))

  length-snoc : (l : List M) (m : M) → length (l ++ m ∷ []) ≡ suc (length l)
  length-snoc [] m = refl
  length-snoc (x ∷ l) m = ap suc (length-snoc l m)

  setup-items : (l : Link M) → (setup_swsr_connection l).items ≡ l.items
  unfolding setup_swsr_connection
  setup-items l = ground arith

  each :
      (capacity q : ℕ) (t : Links M)
      → UnreadIn capacity q t
      → ((p : ℕ) → p ≢ q → UnreadIn capacity p t)
      → (p : ℕ) → UnreadIn capacity p t
  each capacity q t here others p = elim (ℕ_discrete p q) [
    | yes e ↦ subst (λ k. UnreadIn capacity k t) (sym e) here
    | no ne ↦ others p ne
  ]

  -- A change of one link, with what is to be read last.
  changed :
      (capacity q : ℕ) (l : Link M) (s : Links M)
      → Unread capacity q l s.leaving s.last_read_due
      → ((p : ℕ) → p ≢ q → UnreadIn capacity p s)
      → (p : ℕ) → UnreadIn capacity p (set_link q l s)
  changed capacity q l s here others =
      each capacity q (set_link q l s)
        (subst (λ k. Unread capacity q k s.leaving s.last_read_due) (set-here q l s) here)
        (λ p ne.
          subst (λ k. Unread capacity p k s.leaving s.last_read_due) (set-other p q l s ne)
            (others p ne))

  -- Without a last read to come, the queue is empty if its flag is down.
  none_due :
      (capacity q : ℕ) (l : Link M) (leaving leaving' : Option ℕ) (due due' : Bool)
      → ((leaving ≡ some q) × (due ≡ true) → ⊥)
      → Unread capacity q l leaving due
      → Unread capacity q l leaving' due'
  none_due capacity q l leaving leaving' due due' none_yet u = (
    u.0,
    elim u.1 [ inl up ↦ inl up | inr (inl e) ↦ inr (inl e) | inr (inr d) ↦ absurd (none_yet d) ],
  )

  Step-Unread :
      {capacity limit : ℕ} {s t : Links M}
      → capacity ≤ limit
      → Step capacity limit s t
      → ((q : ℕ) → UnreadIn capacity q s)
      → (p : ℕ) → UnreadIn capacity p t
  unfolding destruct leave_queue send push_message
  Step-Unread {capacity} {s = s} enough (sends q m alive room) i =
      changed capacity q (send m (link q s)) s
        (
          omega (
            arith,
            room,
            length-snoc (setup_swsr_connection (link q s)).items m,
            ap length (setup-items (link q s)),
          ),
          inl refl,
        )
        (λ p ne. i p)
  Step-Unread {capacity} {s = s} enough (destroys q) i =
      changed capacity q (destruct (link q s)) s (i q) (λ p ne. i p)
  Step-Unread {capacity} {s = s} enough (registers q rest e) i =
      let f = register-fields q s.receiver in
      let s' = record s { receiver = register_swsr_queue q s.receiver } in
      changed capacity q (record (link q s) { notices = rest }) s' (i q)
        (λ p ne. subst (λ g. Unread capacity p (g p) s.leaving s.last_read_due) (sym f.0) (i p))
  Step-Unread {capacity} {s = s} enough (notifies q rest a e h) i =
      let f = notify-fields q s.receiver a h in
      changed capacity q (record (link q s) { notices = rest }) (record s { receiver = a }) (i q)
        (λ p ne. subst (λ g. Unread capacity p (g p) s.leaving s.last_read_due) (sym f.0) (i p))
  Step-Unread {capacity} {s = s} enough (reads q h n) i =
      changed capacity q (record (link q s) { items = drop_first (link q s).items })
        (record s { found_empty = none })
        (
          omega (arith, (i q).0, length-drop_first (link q s).items),
          elim (i q).1 [
            | inl up ↦ inl up
            | inr (inl e) ↦ inr (inl (ap drop_first e))
            | inr (inr d) ↦ absurd (is_some q (sym n ∙ d.0))
          ],
        )
        (λ p ne. i p)
    where
      is_some : (q : ℕ) → none ≡ some q → ⊥
      is_some q = cc
  Step-Unread enough (finds_empty q h n e) i = i
  Step-Unread {capacity} {s = s} enough (lowers q h n e) i =
      changed capacity q (record (link q s) { may_have_message = false })
        (record s { found_empty = none; leaving = some q; last_read_due = true })
        ((i q).0, inr (inr (refl, refl)))
        (λ p ne. none_due _ _ (link p s) _ _ _ _ (λ d. is_some p (sym n ∙ d.0)) (i p))
    where
      is_some : (q : ℕ) → none ≡ some q → ⊥
      is_some q = cc
  Step-Unread {capacity} {limit} {s} enough (reads_last q h due) i =
      let all : drop limit (link q s).items ≡ [] =
        drop-all limit (link q s).items (omega (arith, enough, (i q).0)) in
      changed capacity q (record (link q s) { items = drop limit (link q s).items })
        (record s { last_read_due = false }) (omega (arith, ap length all), inr (inl all))
        (λ p ne. none_due _ _ (link p s) _ _ _ _ (λ d. ne (some-injective _ _ (sym d.0 ∙ h))) (i p))
  Step-Unread {s = s} enough (leaves q done rest e h last) i =
      λ p. none_due _ _ (link p s) _ _ _ _ (λ d. false≢true (sym last ∙ d.1)) (i p)

  pub Reach-Unread :
      {capacity limit self : ℕ} {s : Links M}
      → capacity ≤ limit
      → Reach capacity limit self s
      → (q : ℕ) → UnreadIn capacity q s
  Reach-Unread {self = self} enough start q = elim (ℕ_discrete q self) [
    | yes e ↦ rw (eq→== q self e) (omega arith, inr (inl refl))
    | no ne ↦ rw (ne→== q self ne) (omega arith, inr (inl refl))
  ]
  Reach-Unread enough (later r st) q = Step-Unread enough st (Reach-Unread enough r) q
