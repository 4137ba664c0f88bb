-- ===== src/NetGate/Peers/Detached.antt =====
-- The detached actors of a net gate (core/src/net_gate.cpp): how many are counted, and who is told to end.
use mathlib.Core.Option.{some-injective}
use mathlib.Core.Bool.{false≢true}
use zaf.Prelude.{
  ℕ, suc, ◌+◌, ◌≤◌, ◌<◌, ◌≡◌, refl, ap, sym, subst, ◌∙◌, Bool, true, false, Option, none, some,
  List, [], ◌∷◌, ◌++◌, if◌then◌else◌, length, count, hit, inl, inr, Bool-cases, eq→==, ne→==,
  ℕ_discrete, arith,
}
use zaf.Serial.{Bytes}
use zaf.Serial.Codec.{◌>>=◌}
use zaf.NetGate.Peers.{
  Order, data_conn_req, termination, Peer, Gate, find_peer, new_connection, establish_connection,
  forward_data_conn_req, terminations_for, terminate_gate, take_order, carry_out, establishes,
  forwards, terminates, works, at_launch, Reach, start, later,
}
use zaf.NetGate.Peers.Orders.{
  terminations, workers, terminations-append, terminations-for, terminations-take, count-leave,
  length-leave,
}

abbrev one_if : Bool → ℕ
one_if true = 1
one_if false = 0

record Inv (g : Gate) : Type 0 where
  fresh : (id : ℕ) → g.next_actor_id ≤ id → count id g.running ≡ 0
  once : (id : ℕ) → count id g.running ≤ 1
  members :
      (id : ℕ) → g.activated ≡ true → count id g.running ≡ count id (workers g.net_gate_connections)
  told_once : (id : ℕ) → terminations id g.orders ≡ (if g.activated then 0 else count id g.running)
  counted : g.num_detached_actors ≡ length g.running + one_if g.activated

hit_ne : (a b : ℕ) → b < a → hit a b ≡ 0
hit_ne a b h = rw (ne→== a b (λ e. omega arith)) refl

hit_le : (a b : ℕ) → hit a b ≤ 1
hit_le a b = ground arith

new_connection-Inv :
    (url : Bytes) (g : Gate) → g.activated ≡ true → Inv g → Inv (new_connection url g)
unfolding new_connection
new_connection-Inv url g a i = record {
  fresh = λ id h. omega (
    arith,
    i.fresh id (omega (arith, h)),
    hit_ne id g.next_actor_id (omega (arith, h)),
    hit_ne id (suc g.next_actor_id) (omega (arith, h)),
  );
  once = once;
  members = λ id h. omega (arith, i.members id h);
  told_once = λ id.
      let none_yet : terminations id g.orders ≡ 0 = i.told_once id ∙ rw a refl in rw a none_yet;
  counted = omega (arith, i.counted);
}
  where
    once :
        (id : ℕ) → hit id g.next_actor_id + (hit id (suc g.next_actor_id) + count id g.running) ≤ 1
    once id = elim (ℕ_discrete id g.next_actor_id) [
      | yes e ↦
          let none_next : hit id (suc g.next_actor_id) ≡ 0 =
            rw (ne→== id (suc g.next_actor_id) (λ f. omega arith)) refl in
          omega (arith, none_next, i.fresh id (omega (arith, e)), hit_le id g.next_actor_id)
      | no ne ↦
          let none_here : hit id g.next_actor_id ≡ 0 = rw (ne→== id g.next_actor_id ne) refl in
          elim (ℕ_discrete id (suc g.next_actor_id)) [
            | yes e ↦
                omega
                  (arith, none_here, i.fresh id (omega (arith, e)), hit_le id (suc g.next_actor_id))
            | no ne' ↦
                let none_next : hit id (suc g.next_actor_id) ≡ 0 =
                  rw (ne→== id (suc g.next_actor_id) ne') refl in
                omega (arith, none_here, none_next, i.once id)
          ]
    ]

establish_connection-Inv :
    (url : Bytes) (g : Gate) → g.activated ≡ true → Inv g → Inv (establish_connection url g).1
unfolding establish_connection
establish_connection-Inv url g a i = by_find (find_peer url g.net_gate_connections)
  where
    by_find :
        (o : Option Peer)
        → Inv
            (elim o as (λ o. Bool × Gate) [
              | some peer ↦ (false, g)
              | none ↦ (true, new_connection url g)
            ]).1
    by_find none = new_connection-Inv url g a i
    by_find (some p) = i

terminate_gate-Inv : (g : Gate) → g.activated ≡ true → Inv g → Inv (terminate_gate g)
unfolding terminate_gate
terminate_gate-Inv g a i = record {
  fresh = i.fresh;
  once = i.once;
  members = λ id h. absurd (false≢true h);
  told_once = λ id.
      let none_yet : terminations id g.orders ≡ 0 = i.told_once id ∙ rw a refl in
      omega (
        arith,
        none_yet,
        i.members id a,
        terminations-for id g.net_gate_connections,
        terminations-append id g.orders (terminations_for g.net_gate_connections),
      );
  counted = let one : one_if g.activated ≡ 1 = ap one_if a in omega (arith, i.counted, one);
}

forward_data_conn_req-Inv :
    (peer host : Bytes) (port : ℕ) (g g' : Gate)
    → forward_data_conn_req peer host port g ≡ some g'
    → Inv g
    → Inv g'
unfolding forward_data_conn_req
forward_data_conn_req-Inv peer host port g g' h i =
    by_find (find_peer peer g.net_gate_connections) h
  where
    sent :
        (p : Peer)
        → Inv (record g { orders = g.orders ++ (p.sender, data_conn_req host port) ∷ [] })
    sent p = record {
      fresh = i.fresh;
      once = i.once;
      members = i.members;
      told_once = λ id. omega (
        arith,
        i.told_once id,
        terminations-append id g.orders ((p.sender, data_conn_req host port) ∷ []),
      );
      counted = i.counted;
    }

    by_find :
        (o : Option Peer)
        → (o >>= λ p.
            some (record g { orders = g.orders ++ (p.sender, data_conn_req host port) ∷ [] }))
          ≡ some g'
        → Inv g'
    by_find none h = cc
    by_find (some p) h = subst Inv (some-injective _ _ h) (sent p)

carry_out-Inv :
    (id : ℕ) (o : Order) (rest : List (ℕ × Order)) (g : Gate)
    → 0 < count id g.running
    → take_order id g.orders ≡ some (o, rest)
    → Inv g
    → Inv (carry_out id o rest g)
unfolding carry_out
carry_out-Inv id (data_conn_req host port) rest g r h i = record {
  fresh = i.fresh;
  once = i.once;
  members = i.members;
  told_once = λ j. omega (arith, i.told_once j, terminations-take j id g.orders rest _ h);
  counted = i.counted;
}
carry_out-Inv id termination rest g r h i = elim (Bool-cases g.activated) [
  | inl a ↦
      let none_yet : terminations id g.orders ≡ 0 = i.told_once id ∙ rw a refl in
      let here : hit id id ≡ 1 = rw (eq→== id id refl) refl in
      absurd (omega (arith, none_yet, here, terminations-take id id g.orders rest _ h))
  | inr a ↦ record {
    fresh = λ j f. omega (arith, i.fresh j f, count-leave j id g.running r);
    once = λ j. omega (arith, i.once j, count-leave j id g.running r);
    members = λ j b. absurd (false≢true (sym a ∙ b));
    told_once = λ j.
        let told_all : terminations j g.orders ≡ count j g.running = i.told_once j ∙ rw a refl in
        rw a (
          omega (
            arith,
            told_all,
            count-leave j id g.running r,
            terminations-take j id g.orders rest _ h,
          ));
    counted = omega (arith, i.counted, length-leave id g.running r);
  }
]

at_launch-Inv :
    (url : Bytes) (bind_ports : ℕ → ℕ) (first : ℕ) → Inv (at_launch url bind_ports first)
at_launch-Inv url bind_ports first = record {
  fresh = λ id h. refl;
  once = λ id. omega arith;
  members = λ id h. refl;
  told_once = λ id. refl;
  counted = refl;
}

Reach-Inv :
    {url : Bytes} {bind_ports : ℕ → ℕ} {first : ℕ} {g : Gate} → Reach url bind_ports first g → Inv g
Reach-Inv {url} {bind_ports} {first} start = at_launch-Inv url bind_ports first
Reach-Inv (later r (establishes u a)) = establish_connection-Inv u _ a (Reach-Inv r)
Reach-Inv (later r (forwards peer host port a h)) =
    forward_data_conn_req-Inv peer host port _ _ h (Reach-Inv r)
Reach-Inv (later r (terminates a)) = terminate_gate-Inv _ a (Reach-Inv r)
Reach-Inv (later r (works id o rest c h)) = carry_out-Inv id o rest _ c h (Reach-Inv r)

-- In every run, the detached actors that are counted are the Senders and Receivers that run and, until
-- its own Termination, the net gate. No Sender or Receiver is told to end before that, and from then
-- on exactly one Termination is waiting for each that runs and none for the others, so that each ends
-- once and the count can come down to zero.
pub Reach-detached :
    {url : Bytes} {bind_ports : ℕ → ℕ} {first : ℕ} {g : Gate}
    → Reach url bind_ports first g
    → (g.num_detached_actors ≡ length g.running + (if g.activated then 1 else 0))
      × ((id : ℕ) → terminations id g.orders ≡ (if g.activated then 0 else count id g.running))
      × ((id : ℕ) → count id g.running ≤ 1)
Reach-detached {g = g} r =
    let i = Reach-Inv r in
    (i.counted ∙ ap (λ n. length g.running + n) (one g.activated), i.told_once, i.once)
  where
    one : (b : Bool) → one_if b ≡ (if b then 1 else 0)
    one true = refl
    one false = refl
