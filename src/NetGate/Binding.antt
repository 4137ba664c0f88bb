-- ===== src/NetGate/Binding.antt =====
-- The sockets of a `NetGateActor` for its peers (core/src/net_gate.cpp): the port that it binds and what
-- it tells others of it.
-- The host is left out: a url or a routing id is named by its port. `rand k` is the k-th number of
-- rand(), `can_bind k port` whether the k-th attempt to bind succeeds.
mod Tests
use mathlib.Core.Bool.{false≢true}
use mathlib.Core.Option.{some-injective}
use zaf.Prelude.{
  ℕ, zero, suc, ◌+◌, ◌%◌, ◌≤◌, ◌<◌, ◌≡◌, ◌≢◌, refl, ap, sym, subst, ◌∙◌, Bool, true, false, Option,
  none, some, ◌==◌, if◌then◌else◌, inl, inr, Bool-cases, ne→==, arith,
}
use zaf.Serial.Codec.{◌>>=◌}

-- `bind_url` is set by the constructor. `bound` and `routing_id` are of `net_recv_socket`, which is not
-- there before it is initialized; `send_routing_id` is of `net_send_socket`.
pub record Sockets : Type 0 where
  pub bind_port : ℕ
  pub bind_url : ℕ
  pub bound : Option ℕ
  pub routing_id : Option ℕ
  pub send_routing_id : Option ℕ

-- The constructor of NetGateActor.
unfoldable pub new_net_gate_actor : ℕ → Sockets
new_net_gate_actor port = record {
  bind_port = port;
  bind_url = port;
  bound = none;
  routing_id = none;
  send_routing_id = none;
}

abbrev pub bind_to : ℕ → Sockets → Sockets
bind_to port s = record s { bind_port = port; bound = some port; routing_id = some port }

module _ (rand : ℕ → ℕ) (can_bind : ℕ → ℕ → Bool) where
  -- `rand() % (65536 - 10000) + 10000`
  unfoldable pub rand_bind_port : ℕ → ℕ
  rand_bind_port k = rand k % 55536 + 10000

  -- The loop that tries random ports, from the k-th attempt on; none if it goes on.
  unfoldable pub bind_random : (fuel k : ℕ) → Sockets → Option Sockets
  unfolding rand_bind_port
  bind_random zero k s = none
  bind_random (suc fuel) k s =
      let retry = bind_random fuel (suc k) s in
      if can_bind k (rand_bind_port k) then some (bind_to (rand_bind_port k) s) else retry

  -- `none` is also the exception of bind for a given port.
  unfoldable pub initialize_recv_socket : (fuel : ℕ) → Sockets → Option Sockets
  unfolding bind_random
  initialize_recv_socket fuel s = elim s.bound [
    | some port ↦ some s
    | none ↦
        if s.bind_port == 0
        then bind_random fuel 0 s
        else if can_bind 0 s.bind_port
        then some (bind_to s.bind_port s)
        else none
  ]

  -- The port of the routing id is the one bound meanwhile.
  unfoldable pub initialize_send_socket : (fuel : ℕ) → Sockets → Option Sockets
  unfolding initialize_recv_socket
  initialize_send_socket fuel s = elim s.send_routing_id [
    | some id ↦ some s
    | none ↦ do
      t ← initialize_recv_socket fuel s
      some (record t { send_routing_id = some t.bind_port })
  ]

  -- What the random choice gives: a port in the range, bound, named by both ids, and a bind_url that
  -- is still the one before.
  record Chosen (s t : Sockets) : Type 0 where
    low : 10000 ≤ t.bind_port
    high : t.bind_port < 65536
    bound_eq : t.bound ≡ some t.bind_port
    named : t.routing_id ≡ some t.bind_port
    url_kept : t.bind_url ≡ s.bind_url

  bind_random-Chosen :
      (fuel k : ℕ) (s : Sockets)
      → (n : ℕ) × (n < fuel) × (can_bind (k + n) (rand_bind_port (k + n)) ≡ true)
      → (t : Sockets) × (bind_random fuel k s ≡ some t) × Chosen s t
  unfolding bind_random
  bind_random-Chosen zero k s (n, h, e) = absurd (omega arith)
  bind_random-Chosen (suc fuel) k s (n, h, e) = elim (Bool-cases (can_bind k (rand_bind_port k))) [
    | inl b ↦ (
      bind_to (rand_bind_port k) s,
      rw b refl,
      record {
        low = unfold rand_bind_port in omega arith;
        high = unfold rand_bind_port in omega arith;
        bound_eq = refl;
        named = refl;
        url_kept = refl;
      },
    )
    | inr b ↦ let r = bind_random-Chosen fuel (suc k) s (later n h e b) in (r.0, rw b r.1, r.2)
  ]
    where
      later :
          (n : ℕ)
          → n < suc fuel
          → can_bind (k + n) (rand_bind_port (k + n)) ≡ true
          → can_bind k (rand_bind_port k) ≡ false
          → (n : ℕ) × (n < fuel) × (can_bind (suc k + n) (rand_bind_port (suc k + n)) ≡ true)
      later zero h e b =
          let same : k + 0 ≡ k = omega arith in
          absurd (false≢true (sym b ∙ subst (λ i. can_bind i (rand_bind_port i) ≡ true) same e))
      later (suc n) h e b =
          let same : k + suc n ≡ suc k + n = omega arith in
          (n, omega arith, subst (λ i. can_bind i (rand_bind_port i) ≡ true) same e)

  -- A net gate that is given port 0, and that can bind one of the random ports that it tries, binds a
  -- port from 10000 to 65535, with which its peers reach it; but bind_url, which others are given and
  -- with which RetrieveActorReq compares, stays that of port 0.
  pub initialize_send_socket-stale_url :
      (fuel n : ℕ)
      → n < fuel
      → can_bind n (rand_bind_port n) ≡ true
      → (t : Sockets) × (initialize_send_socket fuel (new_net_gate_actor 0) ≡ some t)
        × (10000 ≤ t.bind_port)
        × (t.bind_port < 65536)
        × (t.bound ≡ some t.bind_port)
        × (t.routing_id ≡ some t.bind_port)
        × (t.send_routing_id ≡ some t.bind_port)
        × (t.bind_url ≡ 0)
        × ((t.bind_url == t.bind_port) ≡ false)
  unfolding initialize_send_socket initialize_recv_socket new_net_gate_actor
  initialize_send_socket-stale_url fuel n h e =
      let same : n ≡ 0 + n = omega arith in
      let (t, found, c) =
        bind_random-Chosen fuel 0 (new_net_gate_actor 0)
          (n, h, subst (λ i. can_bind i (rand_bind_port i) ≡ true) same e) in
      let zero_url : t.bind_url ≡ 0 = c.url_kept in
      (
        record t { send_routing_id = some t.bind_port },
        rw found refl,
        c.low,
        c.high,
        c.bound_eq,
        c.named,
        refl,
        zero_url,
        ne→== t.bind_url t.bind_port (λ k. omega (arith, k, zero_url, c.low)),
      )
