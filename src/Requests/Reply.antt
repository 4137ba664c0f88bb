-- ===== src/Requests/Reply.antt =====
-- `on_reply` (core/src/actor_behavior.cpp) returns once the response is there, whatever arrives before
-- it, and keeps what arrives before it.
use zaf.Prelude.{
  ℕ, suc, ◌-◌, ◌≡◌, ◌≢◌, refl, ap, sym, ◌∙◌, Bool, true, false, Option, none, some, List, [], ◌∷◌,
  ◌++◌, ◌==◌, if◌then◌else◌, append_assoc, append-nil, inl, inr, Bool-cases, ==→eq, ==→ne, ne→==,
  eq→==, arith,
}
use zaf.Serial.Codec.{◌>>=◌}
use zaf.Requests.{
  Incoming, response, message, Behavior, receive_nested, find_request, erase_request, store_body,
  store_response, on_reply,
}
use zaf.Requests.Aside.{messages}

module _ {B : Type 0} where
  -- No response to the request.
  abbrev pub NoResponse : ℕ → List (Incoming B) → Type 0
  NoResponse id [] = Unit
  NoResponse id (response q b ∷ rest) = (q ≢ id) × NoResponse id rest
  NoResponse id (message m ∷ rest) = NoResponse id rest

  -- The last response to a request; the first argument is taken if there is none.
  abbrev pub latest : Option B → ℕ → List (Incoming B) → Option B
  latest o q [] = o
  latest o q (response p b ∷ rest) = latest (if q == p then some b else o) q rest
  latest o q (message m ∷ rest) = latest o q rest

  -- What is stored for a request, if it is unfinished.
  abbrev pub with_latest : ℕ → List (Incoming B) → Option (Option B) → Option (Option B)
  with_latest q l none = none
  with_latest q l (some o) = some (latest o q l)

  -- `t` is what `s` becomes when the response `b` to the request `id` is processed after the arrivals
  -- `before`, with `after` still to arrive.
  pub record Replied (id : ℕ) (b : B) (before after : List (Incoming B)) (s t : Behavior B)
      : Type 0 where
    pub replies : t.replies ≡ s.replies ++ (id, b) ∷ []
    pub inbox : t.inbox ≡ after
    pub pending : t.pending_messages ≡ s.pending_messages ++ messages before
    pub handled : t.handled ≡ s.handled
    pub activated : t.activated ≡ s.activated
    pub waiting : t.waiting_for_response ≡ s.waiting_for_response
    pub stored :
        (q : ℕ)
        → q ≢ id
        → find_request q t.unfinished_requests
          ≡ with_latest q before (find_request q s.unfinished_requests)

  find-erase :
      (q id : ℕ) (l : List (ℕ × Option B))
      → q ≢ id
      → find_request q (erase_request id l) ≡ find_request q l
  unfolding find_request erase_request
  find-erase q id [] n = refl
  find-erase q id (x ∷ xs) n = elim (Bool-cases (id == x.0)) [
    | inl e ↦
        let away : (q == x.0) ≡ false = ne→== q x.0 (λ k. n (k ∙ sym (==→eq id x.0 e))) in
        rw (e, away) refl
    | inr e ↦ rw e (ap (λ o. if q == x.0 then some x.1 else o) (find-erase q id xs n))
  ]

  with_latest-other :
      (q p : ℕ) (b : B) (rest : List (Incoming B)) (o : Option (Option B))
      → (q == p) ≡ false
      → with_latest q rest o ≡ with_latest q (response p b ∷ rest) o
  with_latest-other q p b rest none e = refl
  with_latest-other q p b rest (some o) e = rw e refl

  find-store :
      (q p : ℕ) (b : B) (l : List (ℕ × Option B)) (rest : List (Incoming B))
      → with_latest q rest (find_request q (store_body p b l))
        ≡ with_latest q (response p b ∷ rest) (find_request q l)
  unfolding find_request store_body
  find-store q p b [] rest = refl
  find-store q p b (x ∷ xs) rest = elim (Bool-cases (p == x.0)) [
    | inl e ↦ elim (Bool-cases (q == x.0)) [
      | inl k ↦
          rw (e, k)
            (ap (λ c. some (latest (if c then some b else x.1) q rest))
              (sym (eq→== q p (==→eq q x.0 k ∙ sym (==→eq p x.0 e)))))
      | inr k ↦
          let away : (q == p) ≡ false = ne→== q p (λ f. ==→ne q x.0 k (f ∙ ==→eq p x.0 e)) in
          rw (e, k) (with_latest-other q p b rest (find_request q xs) away)
    ]
    | inr e ↦ elim (Bool-cases (q == x.0)) [
      | inl k ↦
          let away : (q == p) ≡ false = ne→== q p (λ f. ==→ne p x.0 e (sym f ∙ ==→eq q x.0 k)) in
          rw (e, k) (with_latest-other q p b rest (some x.1) away)
      | inr k ↦ rw (e, k) (find-store q p b xs rest)
    ]
  ]

  -- The bodies of all responses among some arrivals, stored in turn.
  store_all : List (Incoming B) → List (ℕ × Option B) → List (ℕ × Option B)
  store_all [] u = u
  store_all (response q b ∷ rest) u = store_all rest (store_body q b u)
  store_all (message m ∷ rest) u = store_all rest u

  find-store_all :
      (q : ℕ) (l : List (Incoming B)) (u : List (ℕ × Option B))
      → find_request q (store_all l u) ≡ with_latest q l (find_request q u)
  unfolding store_all
  find-store_all q [] u = nothing (find_request q u)
    where
      nothing : (o : Option (Option B)) → o ≡ with_latest q [] o
      nothing none = refl
      nothing (some o) = refl
  find-store_all q (response p b ∷ rest) u =
      find-store_all q rest (store_body p b u) ∙ find-store q p b u rest
  find-store_all q (message m ∷ rest) u = find-store_all q rest u ∙ skip (find_request q u)
    where
      skip : (o : Option (Option B)) → with_latest q rest o ≡ with_latest q (message m ∷ rest) o
      skip none = refl
      skip (some o) = refl

  nested_result : ℕ → B → List (Incoming B) → List (Incoming B) → Behavior B → Behavior B
  nested_result id b before after s = record s {
    unfinished_requests = store_all before s.unfinished_requests;
    pending_messages = s.pending_messages ++ messages before;
    inbox = after;
    replies = s.replies ++ (id, b) ∷ [];
    activated = false;
  }

  receive_nested-returns :
      (id : ℕ) (b : B) (before after : List (Incoming B)) (s : Behavior B)
      → NoResponse id before
      → receive_nested id (before ++ response id b ∷ after) (record s { activated = true })
        ≡ some (nested_result id b before after s)
  unfolding receive_nested store_response nested_result store_all
  receive_nested-returns id b [] after s n = rw (eq→== id id refl) (
      ap
        (λ l. some (record s {
          pending_messages = l;
          inbox = after;
          replies = s.replies ++ (id, b) ∷ [];
          activated = false;
        }))
        (sym (append-nil s.pending_messages)))
  receive_nested-returns id b (response q c ∷ before) after s n =
      let u = record s {
        inbox = before ++ response id b ∷ after;
        unfinished_requests = store_body q c s.unfinished_requests;
      } in
      rw (ne→== q id n.0) (receive_nested-returns id b before after u n.1)
  receive_nested-returns id b (message m ∷ before) after s n =
      let u = record s {
        inbox = before ++ response id b ∷ after;
        pending_messages = s.pending_messages ++ m ∷ [];
      } in
      receive_nested-returns id b before after u n
      ∙ ap
          (λ l. some (record s {
            unfinished_requests = store_all before s.unfinished_requests;
            pending_messages = l;
            inbox = after;
            replies = s.replies ++ (id, b) ∷ [];
            activated = false;
          }))
          (append_assoc s.pending_messages (m ∷ []) (messages before))

  -- A request is waited for and its response arrives after arrivals that hold no response to it: then
  -- on_reply returns. Its handler gets that body, the ordinary messages of those arrivals are put
  -- aside in order, what arrives later is left in the inbox, the actor is activated, and waits, as
  -- before, and every other unfinished request has the last response that arrived for it stored.
  pub on_reply-Replied :
      (id : ℕ) (b : B) (before after : List (Incoming B)) (s : Behavior B)
      → find_request id s.unfinished_requests ≡ some none
      → s.inbox ≡ before ++ response id b ∷ after
      → NoResponse id before
      → (t : Behavior B) × (on_reply id s ≡ some t) × Replied id b before after s t
  unfolding on_reply nested_result
  on_reply-Replied id b before after s f e n = (
    finish (nested_result id b before after waiting),
    rw f (
        ap (λ o. o >>= λ u. some (finish u))
          (ap (λ l. receive_nested id l (record waiting { activated = true })) e
            ∙ receive_nested-returns id b before after waiting n)),
    record {
      replies = refl;
      inbox = refl;
      pending = refl;
      handled = refl;
      activated = as_before s.activated;
      waiting = omega arith;
      stored = λ q m.
          find-store_all q before erased
          ∙ ap (with_latest q before) (find-erase q id s.unfinished_requests m);
    },
  )
    where
      erased : List (ℕ × Option B)
      erased = erase_request id s.unfinished_requests

      waiting : Behavior B
      waiting = record s {
        unfinished_requests = erased;
        waiting_for_response = suc s.waiting_for_response;
      }

      finish : Behavior B → Behavior B
      finish u = record u {
        activated = if s.activated then true else u.activated;
        waiting_for_response = u.waiting_for_response - 1;
      }

      as_before : (a : Bool) → (if a then true else false) ≡ a
      as_before true = refl
      as_before false = refl
