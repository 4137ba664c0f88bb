-- ===== src/BehaviorX/Rounds.antt =====
-- A round of `consume_swsr_recv_queues` (core/src/actor_behavior_x.cpp) serves every active queue once,
-- and a queue that is active is always served again.
use mathlib.Core.List.{Perm}
use mathlib.Core.List.Perm
use zaf.Prelude.{
  ℕ, zero, suc, ◌≡◌, refl, ap, sym, subst, ◌∙◌, Bool, true, false, List, [], ◌∷◌, ◌++◌, length,
  if◌then◌else◌, append_assoc, append-nil, inl, inr, Bool-cases, arith,
}
use zaf.BehaviorX.{
  ActorBehaviorX, split_last, fill_hole, erase, consume_loop, consume_swsr_recv_queues,
}

-- The queues that were served; those that were not found empty.
abbrev pub served : List (ℕ × Bool) → List ℕ
served [] = []
served ((q, empty) ∷ t) = q ∷ served t

abbrev pub not_empty : List (ℕ × Bool) → List ℕ
not_empty [] = []
not_empty ((q, empty) ∷ t) = if empty then not_empty t else q ∷ not_empty t

split_last-Perm : (x : ℕ) (xs : List ℕ) → Perm ((split_last x xs).0 ∷ (split_last x xs).1) (x ∷ xs)
unfolding split_last
split_last-Perm x [] = Perm.refl (x ∷ [])
split_last-Perm x (y ∷ ys) =
    Perm.trans (Perm.swap x (split_last y ys).0 (split_last y ys).1)
      (Perm.cons x (split_last-Perm y ys))

pub fill_hole-Perm : (l : List ℕ) → Perm (fill_hole l) l
unfolding fill_hole
fill_hole-Perm [] = Perm.refl []
fill_hole-Perm (x ∷ xs) = split_last-Perm x xs

length-split_last : (x : ℕ) (xs : List ℕ) → length (split_last x xs).1 ≡ length xs
unfolding split_last
length-split_last x [] = refl
length-split_last x (y ∷ ys) = ap suc (length-split_last y ys)

length-fill_hole : (l : List ℕ) → length (fill_hole l) ≡ length l
unfolding fill_hole
length-fill_hole [] = refl
length-fill_hole (x ∷ xs) = ap suc (length-split_last x xs)

served-snoc :
    (t : List (ℕ × Bool)) (q : ℕ) (b : Bool) → served (t ++ (q, b) ∷ []) ≡ served t ++ q ∷ []
served-snoc [] q b = refl
served-snoc ((p, c) ∷ t) q b = ap (λ l. p ∷ l) (served-snoc t q b)

not_empty-snoc :
    (t : List (ℕ × Bool)) (q : ℕ) (b : Bool)
    → not_empty (t ++ (q, b) ∷ []) ≡ not_empty t ++ (if b then [] else q ∷ [])
not_empty-snoc [] q true = refl
not_empty-snoc [] q false = refl
not_empty-snoc ((p, true) ∷ t) q b = not_empty-snoc t q b
not_empty-snoc ((p, false) ∷ t) q b = ap (λ l. p ∷ l) (not_empty-snoc t q b)

served-next :
    (t : List (ℕ × Bool)) (q : ℕ) (b : Bool) (l : List ℕ)
    → served (t ++ (q, b) ∷ []) ++ l ≡ served t ++ q ∷ l
served-next t q b l = ap (λ z. z ++ l) (served-snoc t q b) ∙ append_assoc (served t) (q ∷ []) l

module _ {S : Type 0} (serve : ℕ → S → Bool × S) where
  -- What `serve` reports of some queues, one after the other, and the state after them.
  abbrev pub serve_in_order : List ℕ → S → List (ℕ × Bool) × S
  serve_in_order [] s = ([], s)
  serve_in_order (q ∷ qs) s =
      let r = serve q s in let rest = serve_in_order qs r.1 in ((q, r.0) ∷ rest.0, rest.1)

  serve_in_order-snoc :
      (qs : List ℕ) (q : ℕ) (s : S)
      → serve_in_order (qs ++ q ∷ []) s ≡ (
        (serve_in_order qs s).0 ++ (q, (serve q (serve_in_order qs s).1).0) ∷ [],
        (serve q (serve_in_order qs s).1).1,
      )
  serve_in_order-snoc [] q s = refl
  serve_in_order-snoc (p ∷ qs) q s =
      ap (λ r. ((p, (serve p s).0) ∷ r.0, r.1)) (serve_in_order-snoc qs q (serve p s).1)

  -- `trace` is what `serve` reported on the way from `s0` to `s`.
  abbrev Reported : List (ℕ × Bool) → S → S → Type 0
  Reported trace s0 s = serve_in_order (served trace) s0 ≡ (trace, s)

  Reported-next :
      (trace : List (ℕ × Bool)) (q : ℕ) (s0 s : S)
      → Reported trace s0 s
      → Reported (trace ++ (q, (serve q s).0) ∷ []) s0 (serve q s).1
  Reported-next trace q s0 s h =
      ap (λ l. serve_in_order l s0) (served-snoc trace q (serve q s).0)
      ∙ serve_in_order-snoc (served trace) q s0
      ∙ ap (λ r. (r.0 ++ (q, (serve q r.1).0) ∷ [], (serve q r.1).1)) h

  module _ (is_writing : ℕ → S → Bool) where
    loop-rounds :
        (k : ℕ) (done rest recv : List ℕ) (trace : List (ℕ × Bool)) (s0 s : S)
        → length rest ≡ k
        → done ≡ not_empty trace
        → Reported trace s0 s
        → Perm
            (served (consume_loop serve is_writing k done rest recv trace s).2)
            (served trace ++ rest)
          × ((consume_loop serve is_writing k done rest recv trace s).0
              ≡ not_empty (consume_loop serve is_writing k done rest recv trace s).2)
          × Reported
              (consume_loop serve is_writing k done rest recv trace s).2
              s0
              (consume_loop serve is_writing k done rest recv trace s).3
    unfolding consume_loop
    loop-rounds zero done [] recv trace s0 s n d h = (
      subst (λ l. Perm l (served trace ++ [])) (append-nil (served trace))
          (Perm.refl (served trace ++ [])),
      append-nil done ∙ d,
      h,
    )
    loop-rounds zero done (q ∷ rest) recv trace s0 s n d h = absurd (omega (arith, n))
    loop-rounds (suc k) done [] recv trace s0 s n d h = absurd (omega (arith, n))
    loop-rounds (suc k) done (q ∷ rest) recv trace s0 s n d h =
        let s' = (serve q s).1 in
        let recv' = if is_writing q s' then recv else erase q recv in
        let next : (b : Bool) → (serve q s).0 ≡ b → Reported (trace ++ (q, b) ∷ []) s0 s' = λ b e.
          subst (λ b. Reported (trace ++ (q, b) ∷ []) s0 s') e (Reported-next trace q s0 s h) in
        elim (Bool-cases (serve q s).0) [
          | inl e ↦
              let out =
                loop-rounds k done (fill_hole rest) recv' (trace ++ (q, true) ∷ []) s0 s'
                  (omega (arith, n, length-fill_hole rest))
                  (d ∙ sym (not_empty-snoc trace q true ∙ append-nil (not_empty trace)))
                  (next true e) in
              rw e (
                Perm.trans out.0 (
                    subst (λ l. Perm l (served trace ++ q ∷ rest))
                      (sym (served-next trace q true (fill_hole rest)))
                      (Perm.append_left (served trace) (Perm.cons q (fill_hole-Perm rest)))),
                out.1,
                out.2,
              )
          | inr e ↦
              let on =
                loop-rounds k (done ++ q ∷ []) rest recv (trace ++ (q, false) ∷ []) s0 s'
                  (omega (arith, n)) (ap (λ l. l ++ q ∷ []) d ∙ sym (not_empty-snoc trace q false))
                  (next false e) in
              rw e (
                subst
                    (Perm (
                      served
                        (consume_loop serve is_writing k (done ++ q ∷ []) rest recv
                          (trace ++ (q, false) ∷ []) s').2))
                    (served-next trace q false rest) on.0,
                on.1,
                on.2,
              )
        ]

    -- A round serves each active queue once, in whatever order the vector is filled up; the queues that
    -- are active after it are those of which `serve` reported, in that order, that they were not
    -- empty; and the state after it is that of serving them in this order.
    pub consume-rounds :
        (a : ActorBehaviorX S)
        → Perm (served (consume_swsr_recv_queues serve is_writing a).1) a.active_recv_queues
          × ((consume_swsr_recv_queues serve is_writing a).0.active_recv_queues
              ≡ not_empty (consume_swsr_recv_queues serve is_writing a).1)
          × (serve_in_order (served (consume_swsr_recv_queues serve is_writing a).1) a.state ≡ (
            (consume_swsr_recv_queues serve is_writing a).1,
            (consume_swsr_recv_queues serve is_writing a).0.state,
          ))
    unfolding consume_swsr_recv_queues
    consume-rounds a =
        loop-rounds (length a.active_recv_queues) [] a.active_recv_queues a.swsr_recv_queues []
          a.state a.state refl refl refl
