-- ===== src/BehaviorX/Connect/Phases.antt =====
-- What each sender's queue is to the receiver (core/src/actor_behavior_x.cpp), as long as the sender
-- lives.
use zaf.Prelude.{ℕ, ◌+◌, ◌≡◌, Bool, true, false, List, [], ◌∷◌, arith}
use zaf.BehaviorX.Connect.{Notice, registration, notification, Link}

-- No queue yet; its registration on the way, without and with a notification behind it; registered
-- and at rest, with a notification on the way, or active; the flag put down while the callback has not
-- run, without a new notification, with one on the way, or with one that was handled.
pub data Phase : Type 0 where
  apart announced announced_notified idle notified active : Phase
  leaving notified_again active_again : Phase

abbrev pub notifications : List Notice → ℕ
notifications [] = 0
notifications (registration ∷ l) = notifications l
notifications (notification ∷ l) = 1 + notifications l

abbrev pub one_if : Bool → ℕ
one_if true = 1
one_if false = 0

module _ {M : Type 0} where
  -- A link in a phase; whether the receiver has registered the queue, how often it is active, and
  -- whether the callback is due.
  abbrev pub At : Phase → Link M → (registered : Bool) → (times : ℕ) → (due : Bool) → Type 0
  At apart l r n d =
      (l.connected ≡ false)
      × (l.notices ≡ [])
      × (l.may_have_message ≡ false)
      × (r ≡ false)
      × (n ≡ 0)
      × (d ≡ false)
  At announced l r n d =
      (l.connected ≡ true)
      × (l.notices ≡ registration ∷ [])
      × (l.may_have_message ≡ false)
      × (r ≡ false)
      × (n ≡ 0)
      × (d ≡ false)
  At announced_notified l r n d =
      (l.connected ≡ true)
      × (l.notices ≡ registration ∷ notification ∷ [])
      × (l.may_have_message ≡ true)
      × (r ≡ false)
      × (n ≡ 0)
      × (d ≡ false)
  At idle l r n d =
      (l.connected ≡ true)
      × (l.notices ≡ [])
      × (l.may_have_message ≡ false)
      × (r ≡ true)
      × (n ≡ 0)
      × (d ≡ false)
  At notified l r n d =
      (l.connected ≡ true)
      × (l.notices ≡ notification ∷ [])
      × (l.may_have_message ≡ true)
      × (r ≡ true)
      × (n ≡ 0)
      × (d ≡ false)
  At active l r n d =
      (l.connected ≡ true)
      × (l.notices ≡ [])
      × (l.may_have_message ≡ true)
      × (r ≡ true)
      × (n ≡ 1)
      × (d ≡ false)
  At leaving l r n d =
      (l.connected ≡ true)
      × (l.notices ≡ [])
      × (l.may_have_message ≡ false)
      × (r ≡ true)
      × (n ≡ 1)
      × (d ≡ true)
  At notified_again l r n d =
      (l.connected ≡ true)
      × (l.notices ≡ notification ∷ [])
      × (l.may_have_message ≡ true)
      × (r ≡ true)
      × (n ≡ 1)
      × (d ≡ true)
  At active_again l r n d =
      (l.connected ≡ true)
      × (l.notices ≡ [])
      × (l.may_have_message ≡ true)
      × (r ≡ true)
      × (n ≡ 2)
      × (d ≡ true)

  abbrev pub Good : Link M → Bool → ℕ → Bool → Type 0
  Good l r n d = l.is_writing_by_sender ≡ true → (p : Phase) × At p l r n d

  -- The receiver handles a notification: it finds the queue.
  pub notified-registered :
      (rest : List Notice) (l : Link M) (r : Bool) (n : ℕ) (d : Bool)
      → l.notices ≡ notification ∷ rest
      → l.is_writing_by_sender ≡ true
      → Good l r n d
      → r ≡ true
  notified-registered rest l r n d e h g = by_phase (g h).0 (g h).1
    where
      by_phase : (p : Phase) → At p l r n d → r ≡ true
      by_phase apart a = cc
      by_phase announced a = cc
      by_phase announced_notified a = cc
      by_phase idle a = a.3
      by_phase notified a = a.3
      by_phase active a = a.3
      by_phase leaving a = a.3
      by_phase notified_again a = a.3
      by_phase active_again a = a.3

  pub Good-count :
      (l : Link M) (r : Bool) (n : ℕ) (d : Bool)
      → l.is_writing_by_sender ≡ true
      → Good l r n d
      → notifications l.notices + n ≡ one_if l.may_have_message + one_if d
  Good-count l r n d h g = by_phase (g h).0 (g h).1
    where
      by_phase :
          (p : Phase)
          → At p l r n d
          → notifications l.notices + n ≡ one_if l.may_have_message + one_if d
      by_phase apart a = ground arith
      by_phase announced a = ground arith
      by_phase announced_notified a = ground arith
      by_phase idle a = ground arith
      by_phase notified a = ground arith
      by_phase active a = ground arith
      by_phase leaving a = ground arith
      by_phase notified_again a = ground arith
      by_phase active_again a = ground arith
