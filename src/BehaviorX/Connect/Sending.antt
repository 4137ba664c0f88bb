-- ===== src/BehaviorX/Connect/Sending.antt =====
-- The phases of a queue while its sender sets it up and sends (core/src/actor_behavior_x.cpp).
use mathlib.Core.Bool.{false≢true}
use zaf.Prelude.{
  ℕ, ◌≡◌, refl, ap, sym, subst, ◌∙◌, Bool, true, false, [], ◌∷◌, ◌++◌, if◌then◌else◌, arith,
}
use zaf.BehaviorX.Connect.{registration, Link, setup_swsr_connection, push_message, send}
use zaf.BehaviorX.Connect.Phases.{
  Phase, apart, announced, announced_notified, idle, notified, active, leaving, notified_again,
  active_again, At, Good,
}

module _ {M : Type 0} where
  setup-Good :
      (l : Link M) (r : Bool) (n : ℕ) (d : Bool)
      → Good l r n d
      → Good (setup_swsr_connection l) r n d
  unfolding setup_swsr_connection
  setup-Good l r n d g h = by_phase (g (writes l.connected h)).0 (g (writes l.connected h)).1
    where
      new : Link M
      new = record l { connected = true; notices = l.notices ++ registration ∷ [] }

      writes :
          (b : Bool)
          → (if b then l else new).is_writing_by_sender ≡ true
          → l.is_writing_by_sender ≡ true
      writes true h = h
      writes false h = h

      kept :
          (p : Phase)
          → l.connected ≡ true
          → At p l r n d
          → (p : Phase) × At p (if l.connected then l else new) r n d
      kept p e a = (p, subst (λ b. At p (if b then l else new) r n d) (sym e) a)

      by_phase :
          (p : Phase) → At p l r n d → (p : Phase) × At p (if l.connected then l else new) r n d
      by_phase apart (e, f, a, b, c, k) = (
        announced,
        subst (λ b. At announced (if b then l else new) r n d) (sym e)
            (refl, ap (λ z. z ++ registration ∷ []) f, a, b, c, k),
      )
      by_phase announced a = kept announced a.0 a
      by_phase announced_notified a = kept announced_notified a.0 a
      by_phase idle a = kept idle a.0 a
      by_phase notified a = kept notified a.0 a
      by_phase active a = kept active a.0 a
      by_phase leaving a = kept leaving a.0 a
      by_phase notified_again a = kept notified_again a.0 a
      by_phase active_again a = kept active_again a.0 a

  setup-connected : (l : Link M) → (setup_swsr_connection l).connected ≡ true
  unfolding setup_swsr_connection
  setup-connected l = ground arith

  push-Good :
      (m : M) (l : Link M) (r : Bool) (n : ℕ) (d : Bool)
      → l.connected ≡ true
      → Good l r n d
      → Good (push_message m l) r n d
  unfolding push_message
  push-Good m l r n d c g h = by_phase (g h).0 (g h).1
    where
      by_phase : (p : Phase) → At p l r n d → (p : Phase) × At p (push_message m l) r n d
      by_phase apart a = absurd (false≢true (sym a.0 ∙ c))
      by_phase announced a = (announced_notified, ground arith)
      by_phase announced_notified a = (announced_notified, ground arith)
      by_phase idle a = (notified, ground arith)
      by_phase notified a = (notified, ground arith)
      by_phase active a = (active, ground arith)
      by_phase leaving a = (notified_again, ground arith)
      by_phase notified_again a = (notified_again, ground arith)
      by_phase active_again a = (active_again, ground arith)

  pub send-Good :
      (m : M) (l : Link M) (r : Bool) (n : ℕ) (d : Bool) → Good l r n d → Good (send m l) r n d
  unfolding send
  send-Good m l r n d g =
      push-Good m (setup_swsr_connection l) r n d (setup-connected l) (setup-Good l r n d g)
