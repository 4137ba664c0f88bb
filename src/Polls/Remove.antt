-- ===== src/Polls/Remove.antt =====
-- Adding and removing sockets that an actor polls (core/src/actor_behavior.cpp).
use mathlib.Core.List.{Perm}
use mathlib.Core.Bool.{false≢true}
use zaf.Prelude.{
  ap₂, ℕ, suc, ◌+◌, ◌<◌, ◌≡◌, ◌⊎◌, inl, inr, refl, ap, sym, subst, ◌∙◌, false, Option, none, some,
  List, [], ◌∷◌, ◌==◌, if◌then◌else◌, map, count, length, get_or, pop_back, exchange_back,
  move_back, length-map, pop_back-set_last, pop_back-exchange_back, map-move_back, move_back-Perm,
  Bool-cases, ==→eq, eq→==, ne→==, move_back-suc, last_of, hit, arith,
}
use zaf.Polls.{Polls, call, find_socket, find_poll, remove_poll}

-- A socket with its callback; the two vectors that hold these, with the actor's own first.
abbrev pub PollItem : Type 0
PollItem = ℕ × Option ℕ

abbrev pub handles : List PollItem → List ℕ
handles l = map (λ p. p.0) l

abbrev pub polls : PollItem → List PollItem → List ℕ → Polls
polls own l called = record {
  recv_poll_items = handles (own ∷ l);
  recv_poll_callbacks = map (λ p. p.1) (own ∷ l);
  called = called;
}

-- What the swap with the last and `pop_back` leave of a vector of `n`.
taken_out :
    {A : Type 0} (l : List A) (j n : ℕ)
    → length l ≡ n
    → pop_back (if suc j == n then l else exchange_back l j) ≡ move_back l j
taken_out l j n e = elim (Bool-cases (suc j == n)) [
  | inr b ↦ rw b (pop_back-exchange_back l j)
  | inl b ↦ rw b (at_end l (e ∙ sym (==→eq (suc j) n b)))
]
  where
    at_end : {A : Type 0} (l : List A) → length l ≡ suc j → pop_back l ≡ move_back l j
    at_end [] h = absurd (omega (arith, h))
    at_end (x ∷ xs) h = sym (pop_back-set_last j (x ∷ xs) (last_of x xs) h)

miss : (a b : ℕ) → (b == a) ≡ false → hit a b ≡ 0
miss a b h = rw (ne→== a b (λ e. false≢true (sym h ∙ eq→== b a (sym e)))) refl

-- The search finds an index with the handle, or there is none.
find_socket-found :
    (handle : ℕ) (l : List PollItem) (j : ℕ)
    → ((i : ℕ) × (find_socket j handle (handles l) ≡ some (j + i))
        × (i < length l)
        × ((d : PollItem) → (get_or l i d).0 ≡ handle))
      ⊎ ((find_socket j handle (handles l) ≡ none) × (count handle (handles l) ≡ 0))
unfolding find_socket
find_socket-found handle [] j = inr (refl, refl)
find_socket-found handle (x ∷ xs) j = elim (Bool-cases (x.0 == handle)) [
  | inl b ↦ inl (0, rw b (ap some (omega arith)), omega arith, λ d. ==→eq x.0 handle b)
  | inr b ↦ elim (find_socket-found handle xs (suc j)) [
    | inl r ↦ inl (suc r.0, rw b (r.1 ∙ ap some (omega arith)), omega (arith, r.2), r.3)
    | inr r ↦ inr (rw b r.0, omega (arith, r.1, miss handle x.0 b))
  ]
]

removed :
    (own : PollItem) (l : List PollItem) (i n : ℕ)
    → i < length l
    → suc (length l) ≡ n
    → {B : Type 0} (f : PollItem → B)
    → pop_back
        (if suc (suc i) == n then map f (own ∷ l) else exchange_back (map f (own ∷ l)) (suc i))
      ≡ map f (own ∷ move_back l i)
removed own [] i n h e f = absurd (omega (arith, h))
removed own (y ∷ ys) i n h e f =
    taken_out (map f (own ∷ y ∷ ys)) (suc i) n (length-map f (own ∷ y ∷ ys) ∙ e)
    ∙ map-move_back f (own ∷ y ∷ ys) (suc i)
    ∙ ap (map f) (move_back-suc own y ys i)

-- A removal takes one socket with the handle, and the callback that belongs to it, out of the two
-- vectors and calls the callback of the removal; the other sockets are left in some order, each
-- with its callback at its index, the actor's own first. It throws exactly if no socket but the
-- actor's own has the handle.
pub remove_poll-Perm :
    (handle : ℕ) (callback : Option ℕ) (own : PollItem) (l : List PollItem) (called : List ℕ)
    → ((l' : List PollItem) × (of_it : Option ℕ) × (remove_poll handle callback (polls own l called)
          ≡ some (polls own l' (call callback called)))
        × Perm ((handle, of_it) ∷ l') l)
      ⊎ ((remove_poll handle callback (polls own l called) ≡ none) × (count handle (handles l) ≡ 0))
unfolding remove_poll find_poll
remove_poll-Perm handle callback own l called = elim (find_socket-found handle l 1) [
  | inr r ↦ inr (rw r.0 refl, r.1)
  | inl (i, found, h, at) ↦
      let at_index : find_socket 1 handle (handles l) ≡ some (suc i) =
        found ∙ ap some (omega arith) in
      inl (
        move_back l i,
        (get_or l i own).1,
        rw at_index (
            ap₂
              (λ items callbacks. some (record {
                recv_poll_items = items;
                recv_poll_callbacks = callbacks;
                called = call callback called;
              }))
              (removed own l i _ h (sym (length-map (λ p. p.0) (own ∷ l))) (λ p. p.0))
              (removed own l i _ h (sym (length-map (λ p. p.0) (own ∷ l))) (λ p. p.1))),
        subst (λ k. Perm ((k, (get_or l i own).1) ∷ move_back l i) l) (at own)
            (move_back-Perm l i own h),
      )
]
