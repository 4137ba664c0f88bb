-- ===== src/NetGate/Peers/Orders.antt =====
-- The orders on their way from a net gate to its Senders and Receivers (core/src/net_gate.cpp), counted.
use mathlib.Core.Option.{some-injective}
use zaf.Prelude.{
  ℕ, suc, ◌+◌, ◌<◌, ◌≡◌, refl, ap, Bool, true, false, Option, none, some, List, [], ◌∷◌, ◌++◌, ◌==◌,
  if◌then◌else◌, length, count, hit, inl, inr, Bool-cases, ==→eq, arith,
}
use zaf.Serial.{Bytes}
use zaf.Serial.Codec.{◌>>=◌}
use zaf.NetGate.Peers.{Order, data_conn_req, termination, Peer, terminations_for, take_order, leave}

abbrev pub told : ℕ → ℕ → Order → ℕ
told id receiver termination = hit id receiver
told id receiver (data_conn_req host port) = 0

-- How many orders to end an actor has not handled.
abbrev pub terminations : ℕ → List (ℕ × Order) → ℕ
terminations id [] = 0
terminations id (o ∷ os) = told id o.0 o.1 + terminations id os

abbrev pub workers : List (Bytes × Peer) → List ℕ
workers [] = []
workers (c ∷ cs) = c.1.sender ∷ c.1.receiver ∷ workers cs

pub terminations-append :
    (id : ℕ) (xs ys : List (ℕ × Order))
    → terminations id (xs ++ ys) ≡ terminations id xs + terminations id ys
terminations-append id [] ys = omega arith
terminations-append id (x ∷ xs) ys = omega (arith, terminations-append id xs ys)

pub terminations-for :
    (id : ℕ) (cs : List (Bytes × Peer))
    → terminations id (terminations_for cs) ≡ count id (workers cs)
terminations-for id [] = refl
terminations-for id (c ∷ cs) = omega (arith, terminations-for id cs)

pub terminations-take :
    (j id : ℕ) (os rest : List (ℕ × Order)) (o : Order)
    → take_order id os ≡ some (o, rest)
    → terminations j os ≡ told j id o + terminations j rest
unfolding take_order
terminations-take j id [] rest o h = cc
terminations-take j id (x ∷ os) rest o h =
    by_test (id == x.0) refl (take_order id os) (λ r f. terminations-take j id os r.1 r.0 f) h
  where
    by_test :
        (b : Bool)
        → (id == x.0) ≡ b
        → (r : Option (Order × List (ℕ × Order)))
        → ((q : Order × List (ℕ × Order))
            → r ≡ some q
            → terminations j os ≡ told j id q.0 + terminations j q.1)
        → if◌then◌else◌ {A = Option (Order × List (ℕ × Order))} b
            (some (x.1, os))
            (r >>= λ r. some (r.0, x ∷ r.1))
          ≡ some (o, rest)
        → terminations j (x ∷ os) ≡ told j id o + terminations j rest
    by_test true e r f h =
        let same = some-injective _ _ h in
        let order = ap (λ p. told j id p.0) same in
        let left = ap (λ p. terminations j p.1) same in
        let whose = ap (λ k. told j k x.1) (==→eq id x.0 e) in omega (arith, order, left, whose)
    by_test false e none f h = cc
    by_test false e (some r) f h =
        let same = some-injective _ _ h in
        let order = ap (λ p. told j id p.0) same in
        let left = ap (λ p. terminations j p.1) same in
        let found = f r refl in omega (arith, order, left, found)

pub count-leave :
    (j id : ℕ) (l : List ℕ) → 0 < count id l → count j l ≡ hit j id + count j (leave id l)
count-leave j id [] h = absurd (omega arith)
count-leave j id (x ∷ xs) h = elim (Bool-cases (id == x)) [
  | inl e ↦ rw e (omega (arith, ap (hit j) (==→eq id x e)))
  | inr e ↦
      let here : hit id x ≡ 0 = rw e refl in
      let h' : 0 < count id xs = omega arith in rw e (omega (arith, count-leave j id xs h'))
]

pub length-leave : (id : ℕ) (l : List ℕ) → 0 < count id l → length l ≡ suc (length (leave id l))
length-leave id [] h = absurd (omega arith)
length-leave id (x ∷ xs) h = elim (Bool-cases (id == x)) [
  | inl e ↦ rw e refl
  | inr e ↦
      let here : hit id x ≡ 0 = rw e refl in
      let h' : 0 < count id xs = omega arith in rw e (ap suc (length-leave id xs h'))
]
