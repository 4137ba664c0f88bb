-- ===== src/BehaviorX/Connect/Serving.antt =====
-- The phases of a queue while the receiver registers and serves it (core/src/actor_behavior_x.cpp).
use mathlib.Core.Bool.{false≢true}
use zaf.Prelude.{ℕ, suc, ◌+◌, ◌<◌, ◌≡◌, sym, Bool, true, false, List, ◌∷◌, arith}
use zaf.BehaviorX.Connect.{Notice, registration, notification, Link}
use zaf.BehaviorX.Connect.Phases.{
  Phase, apart, announced, announced_notified, idle, notified, active, leaving, notified_again,
  active_again, At, Good,
}

module _ {M : Type 0} where
  pub registers-Good :
      (rest : List Notice) (l : Link M) (r : Bool) (n : ℕ) (d : Bool)
      → l.notices ≡ registration ∷ rest
      → Good l r n d
      → Good (record l { notices = rest }) true n d
  registers-Good rest l r n d e g h = by_phase (g h).0 (g h).1
    where
      by_phase :
          (p : Phase) → At p l r n d → (p : Phase) × At p (record l { notices = rest }) true n d
      by_phase announced a = (idle, ground arith)
      by_phase announced_notified a = (notified, ground arith)
      by_phase apart a = cc
      by_phase idle a = cc
      by_phase notified a = cc
      by_phase active a = cc
      by_phase leaving a = cc
      by_phase notified_again a = cc
      by_phase active_again a = cc

  pub notifies-Good :
      (rest : List Notice) (l : Link M) (r : Bool) (n : ℕ) (d : Bool)
      → l.notices ≡ notification ∷ rest
      → Good l r n d
      → Good (record l { notices = rest }) r (n + 1) d
  notifies-Good rest l r n d e g h = by_phase (g h).0 (g h).1
    where
      by_phase :
          (p : Phase) → At p l r n d → (p : Phase) × At p (record l { notices = rest }) r (n + 1) d
      by_phase notified a = (active, ground arith)
      by_phase notified_again a = (active_again, ground arith)
      by_phase apart a = cc
      by_phase announced a = cc
      by_phase announced_notified a = cc
      by_phase idle a = cc
      by_phase active a = cc
      by_phase leaving a = cc
      by_phase active_again a = cc

  pub lowers-Good :
      (l : Link M) (r : Bool) (n : ℕ)
      → 0 < n
      → Good l r n false
      → Good (record l { may_have_message = false }) r n true
  lowers-Good l r n pos g h = by_phase (g h).0 (g h).1
    where
      by_phase :
          (p : Phase)
          → At p l r n false
          → (p : Phase) × At p (record l { may_have_message = false }) r n true
      by_phase active a = (leaving, ground arith)
      by_phase apart a = absurd (omega arith)
      by_phase announced a = absurd (omega arith)
      by_phase announced_notified a = absurd (omega arith)
      by_phase idle a = absurd (omega arith)
      by_phase notified a = absurd (omega arith)
      by_phase leaving a = absurd (false≢true a.5)
      by_phase notified_again a = absurd (false≢true a.5)
      by_phase active_again a = absurd (false≢true a.5)

  pub leaves-Good : (l : Link M) (r : Bool) (n : ℕ) → Good l r (suc n) true → Good l r n false
  leaves-Good l r n g h = by_phase (g h).0 (g h).1
    where
      by_phase : (p : Phase) → At p l r (suc n) true → (p : Phase) × At p l r n false
      by_phase leaving a = (idle, ground arith)
      by_phase notified_again a = (notified, ground arith)
      by_phase active_again a = (active, ground arith)
      by_phase apart a = absurd (omega arith)
      by_phase announced a = absurd (omega arith)
      by_phase announced_notified a = absurd (omega arith)
      by_phase idle a = absurd (omega arith)
      by_phase notified a = absurd (omega arith)
      by_phase active a = absurd (false≢true (sym a.5))

  pub reads-Good :
      (items : List M) (l : Link M) (r : Bool) (n : ℕ) (d : Bool)
      → Good l r n d
      → Good (record l { items = items }) r n d
  reads-Good items l r n d g h = ((g h).0, same (g h).0 (g h).1)
    where
      same : (p : Phase) → At p l r n d → At p (record l { items = items }) r n d
      same apart a = a
      same announced a = a
      same announced_notified a = a
      same idle a = a
      same notified a = a
      same active a = a
      same leaving a = a
      same notified_again a = a
      same active_again a = a
