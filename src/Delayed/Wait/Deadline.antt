-- ===== src/Delayed/Wait/Deadline.antt =====
-- How long `receive_once` (core/zaf/actor_behavior.tpp) waits.
use zaf.Prelude.{
  ℕ, zero, suc, ◌-◌, ◌+◌, ◌*◌, ◌/◌, ◌≤◌, ◌<◌, ◌≡◌, refl, ap, sym, Bool, true, false, Option, none,
  some, List, [], ◌∷◌, min, leb, if◌then◌else◌, arith,
}
use mathlib.Core.Bool.{false≢true}
use mathlib.Core.Option.{some-injective}
use zaf.Delayed.{Entry, Outgoing, remaining_time}
use zaf.Delayed.Due.{leb→le}
use zaf.Delayed.Wait.{World, ms, flush, next_timeout, receive_until, receive_once}

module _ {M Y : Type 0} where
  -- The time of the last delayed message.
  abbrev pub latest : List (Entry M Y) → ℕ
  latest [] = 0
  latest (x ∷ xs) = if leb (latest xs) x.0 then x.0 else latest xs

-- What `zmq::poll` promises: if nothing was received, time has passed, at least the timeout, and no
-- handler has run that delays a message.
pub record IsPoll {M Y R : Type 0}
    (inner_receive_once : Option ℕ → World M Y R → Bool × World M Y R) : Type 0 where
  pub passes :
      (t : ℕ) (w : World M Y R)
      → (inner_receive_once (some t) w).0 ≡ false
      → w.time + t * ms ≤ (inner_receive_once (some t) w).1.time
  pub ticks :
      (t : ℕ) (w : World M Y R)
      → (inner_receive_once (some t) w).0 ≡ false
      → w.time < (inner_receive_once (some t) w).1.time
  pub keeps :
      (t : ℕ) (w : World M Y R)
      → (inner_receive_once (some t) w).0 ≡ false
      → (inner_receive_once (some t) w).1.delayed_messages ≡ w.delayed_messages

module _ {M Y R : Type 0} {inner : Option ℕ → World M Y R → Bool × World M Y R}
    (poll : IsPoll inner) where
  abbrev world : ℕ → List (Entry M Y) → List (Outgoing M Y) → R → World M Y R
  world n l s o = record { time = n; delayed_messages = l; sent = s; others = o }

  -- Enough rounds for a call.
  abbrev pub rounds : Option ℕ → World M Y R → ℕ
  rounds none w = latest w.delayed_messages - w.time + 2
  rounds (some t) w = t * ms + 1

  -- The end of a round: its outcome `b`, the world `v` after the flush and what another round would do.
  round_end :
      (e : ℕ) (b : Bool) (v w' : World M Y R) (again : Option (Bool × World M Y R))
      → (again ≡ some (false, w') → e ≤ w'.time)
      → (if b then some (true, v) else if leb e v.time then some (false, v) else again)
        ≡ some (false, w')
      → e ≤ w'.time
  round_end e true v w' again f r = absurd (false≢true (sym (ap (λ p. p.0) (some-injective _ _ r))))
  round_end e false v w' again f r = by_test (leb e v.time) refl r
    where
      by_test :
          (c : Bool)
          → leb e v.time ≡ c
          → (if c then some (false, v) else again) ≡ some (false, w')
          → e ≤ w'.time
      by_test true c r =
          let same : v.time ≡ w'.time = ap (λ p. p.1.time) (some-injective _ _ r) in
          omega (arith, same, leb→le e v.time c)
      by_test false c r = f r

  until-late :
      (fuel e timeout n : ℕ) (l : List (Entry M Y)) (s : List (Outgoing M Y)) (o : R)
      (w' : World M Y R)
      → e ≤ n + timeout * ms
      → receive_until inner fuel e timeout (world n l s o) ≡ some (false, w')
      → e ≤ w'.time
  unfolding receive_until next_timeout remaining_time
  until-late zero e timeout n l s o w' h r = cc
  until-late (suc fuel) e timeout n [] s o w' h r =
      let result = some-injective _ _ r in
      let waited = poll.passes timeout (world n [] s o) (ap (λ p. p.0) result) in
      let same = ap (λ p. p.1.time) result in omega (arith, waited, same)
  until-late (suc fuel) e timeout n (x ∷ xs) s o w' h r =
      let w = world n (x ∷ xs) s o in
      let b = inner (some (min ((x.0 - n) / ms) timeout)) w in
      let v = flush b.1 in
      round_end e b.0 v w' _
        (λ again.
          until-late fuel e (e - v.time) v.time v.delayed_messages v.sent v.others w' (omega arith)
            again)
        r

  -- `receive_once` with a timeout returns without a message only when at least the timeout has passed, if
  -- a wait without a message lasts at least its own timeout.
  pub receive_once-late :
      (fuel t : ℕ) (w w' : World M Y R)
      → receive_once inner fuel (some t) w ≡ some (false, w')
      → w.time + t * ms ≤ w'.time
  unfolding receive_once
  receive_once-late fuel zero w w' r =
      let result = some-injective _ _ r in
      let waited = poll.passes 0 w (ap (λ p. p.0) result) in
      let same = ap (λ p. p.1.time) result in
      let kept : (flush (inner (some 0) w).1).time ≡ (inner (some 0) w).1.time =
        unfold flush in refl in
      omega (arith, waited, same, kept)
  receive_once-late fuel (suc t) w w' r =
      until-late fuel (w.time + suc t * ms) (suc t) w.time w.delayed_messages w.sent w.others w'
        (omega arith) r
