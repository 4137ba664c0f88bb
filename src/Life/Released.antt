-- ===== src/Life/Released.antt =====
-- The termination of an actor (core/src/actor_behavior.cpp) disconnects every peer and leaves no message.
use mathlib.Core.Option.{some-injective}
use zaf.Prelude.{
  ℕ, ◌+◌, ◌<◌, ◌≡◌, refl, ap, subst, ◌∙◌, Bool, true, false, none, some, List, [], ◌∷◌, ◌++◌, count,
  hit, count-append, ◌==◌, ==→eq, eq→==, inl, inr, Bool-cases, if◌then◌else◌, if-both, arith,
}
use zaf.Serial.Codec.{◌>>=◌}
use zaf.Life.{
  ActorLife, Use, look, take, put_aside, contains, disconnect, disconnect_all, initialize_actor,
  send, receive_message, receive_pending, terminate_actor, Lives, begins, sends, arrives, receives,
  resumes,
}

-- While an actor is alive.
record IsLive (arrived : List ℕ) (a : ActorLife) : Type 0 where
  live : a.initialized ≡ true
  connected : (k : ℕ) → count k a.connections ≡ count k a.connected_receivers
  owned :
      (m : ℕ)
      → count m a.inbox + count m a.pending_messages + count m a.deleted + count m a.taken
        ≡ count m arrived

-- After its termination: no connection and no message is left, and every message that arrived was
-- deleted or taken, as often as it arrived.
pub record IsReleased (arrived : List ℕ) (a : ActorLife) : Type 0 where
  pub disconnected : a.connections ≡ []
  pub emptied : (a.inbox ≡ []) × (a.pending_messages ≡ [])
  pub freed : (m : ℕ) → count m a.deleted + count m a.taken ≡ count m arrived

hit_eq : (k : ℕ) → hit k k ≡ 1
hit_eq k = rw (eq→== k k refl) refl

count-zero : (l : List ℕ) → ((k : ℕ) → count k l ≡ 0) → l ≡ []
count-zero [] h = refl
count-zero (x ∷ xs) h = absurd (omega (arith, h x, hit_eq x))

-- What a successful disconnection takes away.
Without : ℕ → List ℕ → List ℕ → Type 0
Without peer l l' = (k : ℕ) → count k l ≡ hit k peer + count k l'

disconnect-Without :
    (peer : ℕ) (l : List ℕ)
    → 0 < count peer l
    → (l' : List ℕ) × (disconnect peer l ≡ some l') × Without peer l l'
unfolding disconnect Without
disconnect-Without peer [] h = absurd (omega (arith, h))
disconnect-Without peer (x ∷ xs) h = elim (Bool-cases (peer == x)) [
  | inl e ↦ (xs, rw e refl, λ k. omega (arith, ap (hit k) (==→eq peer x e)))
  | inr e ↦
      let none_here : hit peer x ≡ 0 = rw e refl in
      let r = disconnect-Without peer xs (omega (arith, h, none_here)) in
      (x ∷ r.0, rw (e, r.1) refl, λ k. omega (arith, r.2 k))
]

disconnect_all-eq :
    (peers l : List ℕ) → ((k : ℕ) → count k l ≡ count k peers) → disconnect_all peers l ≡ some []
unfolding disconnect_all Without
disconnect_all-eq [] l h = ap some (count-zero l h)
disconnect_all-eq (peer ∷ peers) l h =
    let r = disconnect-Without peer l (omega (arith, h peer, hit_eq peer)) in
    rw r.1 (disconnect_all-eq peers r.0 (λ k. omega (arith, h k, r.2 k)))

sends-IsLive : (l : List ℕ) (a : ActorLife) (r m : ℕ) → IsLive l a → IsLive l (send r m a)
unfolding send
sends-IsLive l a r m v =
    if-both (IsLive l) (contains r a.connected_receivers)
      (record { live = v.live; connected = v.connected; owned = v.owned })
      (record { live = v.live; connected = λ k. omega (arith, v.connected k); owned = v.owned })

receives-IsLive :
    (l : List ℕ) (a b : ActorLife) (how : Use)
    → IsLive l a
    → receive_message how a ≡ some b
    → IsLive l b
unfolding receive_message
receives-IsLive l a b how v h = by_inbox a.inbox refl h
  where
    received : Use → ℕ → List ℕ → ActorLife
    received how m rest = elim how [
      | look ↦ record a { inbox = rest; deleted = m ∷ a.deleted }
      | take ↦ record a { inbox = rest; taken = m ∷ a.taken }
      | put_aside ↦ record a { inbox = rest; pending_messages = a.pending_messages ++ m ∷ [] }
    ]

    kept : (how : Use) (m : ℕ) (rest : List ℕ) → a.inbox ≡ m ∷ rest → IsLive l (received how m rest)
    kept look m rest e = record {
      live = v.live;
      connected = v.connected;
      owned = λ k. omega (arith, v.owned k, ap (count k) e);
    }
    kept take m rest e = record {
      live = v.live;
      connected = v.connected;
      owned = λ k. omega (arith, v.owned k, ap (count k) e);
    }
    kept put_aside m rest e = record {
      live = v.live;
      connected = v.connected;
      owned =
          λ k. omega (arith, v.owned k, ap (count k) e, count-append k a.pending_messages (m ∷ []));
    }

    by_inbox :
        (i : List ℕ)
        → a.inbox ≡ i
        → elim i [ [] ↦ none | m ∷ rest ↦ some (received how m rest) ] ≡ some b
        → IsLive l b
    by_inbox [] e g = cc
    by_inbox (m ∷ rest) e g = subst (IsLive l) (some-injective _ _ g) (kept how m rest e)

resumes-IsLive :
    (l : List ℕ) (a b : ActorLife) (takes : Bool)
    → IsLive l a
    → receive_pending takes a ≡ some b
    → IsLive l b
unfolding receive_pending
resumes-IsLive l a b takes v h = by_pending a.pending_messages refl h
  where
    resumed : ℕ → List ℕ → ActorLife
    resumed m rest =
        if takes
        then record a { pending_messages = rest; taken = m ∷ a.taken }
        else record a { pending_messages = rest; deleted = m ∷ a.deleted }

    by_pending :
        (p : List ℕ)
        → a.pending_messages ≡ p
        → elim p [ [] ↦ none | m ∷ rest ↦ some (resumed m rest) ] ≡ some b
        → IsLive l b
    by_pending [] e g = cc
    by_pending (m ∷ rest) e g = subst (IsLive l) (some-injective _ _ g) (
        if-both (IsLive l) takes
          (record {
            live = v.live;
            connected = v.connected;
            owned = λ k. omega (arith, v.owned k, ap (count k) e);
          })
          (record {
            live = v.live;
            connected = v.connected;
            owned = λ k. omega (arith, v.owned k, ap (count k) e);
          }))

Lives-IsLive : {l : List ℕ} {a : ActorLife} → Lives l a → IsLive l a
unfolding initialize_actor contains
Lives-IsLive (begins id h) =
    subst (IsLive []) (some-injective _ _ h)
      (record { live = refl; connected = λ k. refl; owned = λ m. refl })
Lives-IsLive (sends r m life) = sends-IsLive _ _ r m (Lives-IsLive life)
Lives-IsLive (arrives {l} {a} m life) =
    let v = Lives-IsLive life in
    record {
      live = v.live;
      connected = v.connected;
      owned = λ k. omega (arith, v.owned k, count-append k a.inbox (m ∷ []));
    }
Lives-IsLive (receives how life h) = receives-IsLive _ _ _ how (Lives-IsLive life) h
Lives-IsLive (resumes takes life h) = resumes-IsLive _ _ _ takes (Lives-IsLive life) h

-- However an actor has lived since its first initialization, terminate_actor succeeds: every peer that
-- it has sent to is connected and is disconnected, no message is left in the inbox or aside, and every
-- message that arrived has been deleted or taken over by a handler, as often as it arrived.
pub terminate_actor-IsReleased :
    {l : List ℕ} {a : ActorLife}
    → Lives l a
    → (b : ActorLife) × (terminate_actor a ≡ some b) × IsReleased l b
unfolding terminate_actor
terminate_actor-IsReleased {l} {a} life =
    let v = Lives-IsLive life in
    (
      record a {
        initialized = false;
        connections = [];
        pending_messages = [];
        inbox = [];
        deleted = a.inbox ++ (a.pending_messages ++ a.deleted);
      },
      ap
            (λ b.
              if b
              then (disconnect_all a.connected_receivers a.connections >>= λ rest.
                  some (ended rest))
              else some a)
            v.live
          ∙ ap (λ o. o >>= λ rest. some (ended rest))
              (disconnect_all-eq a.connected_receivers a.connections v.connected),
      record {
        disconnected = refl;
        emptied = (refl, refl);
        freed = λ m. omega (
          arith,
          v.owned m,
          count-append m a.inbox (a.pending_messages ++ a.deleted),
          count-append m a.pending_messages a.deleted,
        );
      },
    )
  where
    ended : List ℕ → ActorLife
    ended rest = record a {
      initialized = false;
      connections = rest;
      pending_messages = [];
      inbox = [];
      deleted = a.inbox ++ (a.pending_messages ++ a.deleted);
    }
