-- ===== src/Swsr/Reader/Drain.antt =====
-- `pop_some` of core/zaf/swsr_delivery_queue.hpp hands over the oldest items, in order.
use native.Mathlib.Nat.{mod-lt, mod-add-mod}
use zaf.Prelude.{
  ℕ, zero, suc, ◌+◌, ◌-◌, ◌%◌, ◌^◌, ◌<◌, ◌≡◌, ◌≢◌, refl, ap, ◌∙◌, sym, Bool, true, false, List, [],
  ◌∷◌, Option, some, inl, inr, arith, get_or, get_elem?-eq-get_or, ◌==◌, if◌then◌else◌, Bool-cases,
  ne→==, eq→==, ℕ_discrete,
}
use zaf.Prelude.Bits.{mod-mod-two-pow}
use zaf.Swsr.{Queue, u32, add32, size, top, stop_pop_some}
use zaf.Swsr.Inv.{IsValid, same_ring-IsValid, cap_pos, cap_le, read-index}
use zaf.Swsr.Refine.{contents, window-ext}
use zaf.Swsr.Reader.{Handler, advance, pop_one, pop_loop, pop_some}

-- A handler that leaves the queue alone, but for the request to stop.
abbrev pub observing {ℓ κ} : {A : Type ℓ} {S : Type κ} → (A → S → S) → (A → S → Bool) → Handler A S
observing next stop x q s = (if stop x s then stop_pop_some q else q, next x s)

-- The specification of `pop_some`: what is left of a FIFO, the handler's state, and the number read,
-- when at most `n` of its items go to the handler, up to the first that makes it stop.
unfoldable pub fifo_drain {ℓ κ} :
    {A : Type ℓ} {S : Type κ} → (A → S → S) → (A → S → Bool) → ℕ → ℕ → List A → S → List A × S × ℕ
fifo_drain next stop zero num l s = (l, s, num)
fifo_drain next stop (suc n) num [] s = ([], s, num)
fifo_drain next stop (suc n) num (x ∷ l) s =
    let rest = fifo_drain next stop n (num + 1) l (next x s) in
    if stop x s then (l, next x s, num + 1) else rest

module _ {ℓ} {A : Type ℓ} {q : Queue A} (v : IsValid q) where
  pub advance-IsValid : 0 < size q → IsValid (advance q)
  unfolding advance size
  advance-IsValid h = record {
    scale = v.scale;
    scale_le = v.scale_le;
    cap_eq = v.cap_eq;
    mask_eq = v.mask_eq;
    length_eq = v.length_eq;
    write_lt = v.write_lt;
    read_lt = omega arith;
    size_le = omega (arith, v.size_le, v.write_lt, v.read_lt);
  }

  pub size-advance : 0 < size q → size q ≡ suc (size (advance q))
  unfolding advance size
  size-advance h = omega (arith, v.write_lt, v.read_lt, v.size_le, cap_le v)

module _ {ℓ} {A : Type ℓ} (null : A) {q : Queue A} (v : IsValid q) where
  -- The oldest item.
  pub oldest : A
  oldest = get_or q.items (q.read_idx % q.cap) null

  pub top-eq-oldest : top q ≡ some oldest
  unfolding top oldest
  top-eq-oldest =
      let e : q.read_idx % 2 ^ v.scale ≡ q.read_idx % q.cap = rw v.cap_eq in
      rw (read-index v, e)
        (get_elem?-eq-get_or q.items (q.read_idx % q.cap) null (
          omega (
            arith,
            v.length_eq,
            v.cap_eq,
            mod-lt q.read_idx {m = q.cap} (omega (arith, v.cap_eq, cap_pos v)),
          )))

  -- The reader's index wraps, its place in the buffer does not notice.
  pub contents-advance : 0 < size q → contents null q ≡ oldest ∷ contents null (advance q)
  unfolding contents oldest
  contents-advance h = rw (size-advance v h) (
      ap (λ l. get_or q.items (q.read_idx % q.cap) null ∷ l)
        (unfold advance in
          window-ext null q.items q.items q.cap q.cap (q.read_idx + 1) (add32 q.read_idx 1)
            (size (advance q)) (λ i p. ap (λ j. get_or q.items j null) (place i))))
    where
      place : (i : ℕ) → (q.read_idx + 1 + i) % q.cap ≡ (add32 q.read_idx 1 + i) % q.cap
      place i =
          sym (mod-add-mod (q.read_idx + 1) q.cap i)
          ∙ ap (λ t. (t + i) % q.cap)
              (rw v.cap_eq
                (sym (mod-mod-two-pow v.scale 32 (q.read_idx + 1) (omega (arith, v.scale_le)))))
          ∙ mod-add-mod (add32 q.read_idx 1) q.cap i

module _ {ℓ} {A : Type ℓ} (null : A) {q : Queue A} (v : IsValid q) where
  contents_empty : q.read_idx ≡ q.write_idx → contents null q ≡ []
  unfolding contents size
  contents_empty e =
      let none_left : (q.write_idx + u32 - q.read_idx) % u32 ≡ 0 = omega (arith, v.write_lt) in
      rw none_left

module _ {ℓ κ} {A : Type ℓ} {S : Type κ} where
  pop_loop-step :
      (h : Handler A S) (w r left num : ℕ) (q q' : Queue A) (s s' : S)
      → r ≢ w
      → q.flag_stop_pop_some ≡ false
      → pop_one h q s ≡ some (q', s')
      → pop_loop h w r (suc left) num q s ≡ pop_loop h w (add32 r 1) left (num + 1) q' s'
  unfolding pop_loop
  pop_loop-step h w r left num q q' s s' e f p = rw (ne→== r w e, p, f)

  pub pop_loop-end :
      (h : Handler A S) (w r left num : ℕ) (q : Queue A) (s : S)
      → r ≡ w
      → pop_loop h w r left num q s ≡ some (q, s, num)
  unfolding pop_loop
  pop_loop-end h w r zero num q s e = refl
  pop_loop-end h w r (suc left) num q s e = rw (eq→== r w e)

  pop_loop-none_left :
      (h : Handler A S) (w r num : ℕ) (q : Queue A) (s : S)
      → pop_loop h w r zero num q s ≡ some (q, s, num)
  unfolding pop_loop
  pop_loop-none_left h w r num q s = refl

module _ {ℓ κ} {A : Type ℓ} {S : Type κ} (null : A) (next : A → S → S) (stop : A → S → Bool) where
  -- What a call gives back: the queue is valid, and it holds what the specification leaves.
  abbrev pub Drained : Option (Queue A × S × ℕ) → List A × S × ℕ → Type (ℓ ⊔ κ)
  Drained r out =
      (q' : Queue A) × (s' : S) × (n : ℕ) × (r ≡ some (q', s', n))
      × IsValid q'
      × ((contents null q', s', n) ≡ out)

  pop_loop-stopped :
      (w r left num : ℕ) (q : Queue A) (s : S)
      → q.flag_stop_pop_some ≡ true
      → pop_loop (observing next stop) w r left num q s ≡ some (q, s, num)
  unfolding pop_loop
  pop_loop-stopped w r zero num q s f = refl
  pop_loop-stopped w r (suc left) num q s f = elim (Bool-cases (r == w)) [
    | inl e ↦ rw e
    | inr e ↦ rw (e, f)
  ]

  flag-IsValid :
      (b : Bool) {q : Queue A} → IsValid q → IsValid (record q { flag_stop_pop_some = b })
  flag-IsValid b v = same_ring-IsValid _ v refl refl refl refl refl

  -- One round on a queue that holds something.
  pop_one-observing :
      {q : Queue A} (v : IsValid q) (s : S)
      → pop_one (observing next stop) q s
        ≡ some (
          advance (if stop (oldest null v) s then stop_pop_some q else q),
          next (oldest null v) s,
        )
  unfolding pop_one
  pop_one-observing v s = rw (top-eq-oldest null v, pop_one)

  pop_loop_refines :
      (left num : ℕ) (q : Queue A) (v : IsValid q) (s : S)
      → q.flag_stop_pop_some ≡ false
      → Drained
          (pop_loop (observing next stop) q.write_idx q.read_idx left num q s)
          (fifo_drain next stop left num (contents null q) s)
  unfolding fifo_drain advance stop_pop_some contents size
  pop_loop_refines zero num q v s f =
      (q, s, num, pop_loop-none_left (observing next stop) q.write_idx q.read_idx num q s, v, refl)
  pop_loop_refines (suc left) num q v s f = elim (ℕ_discrete q.read_idx q.write_idx) [
    | yes e ↦ (
      q,
      s,
      num,
      pop_loop-end (observing next stop) q.write_idx q.read_idx (suc left) num q s e,
      v,
      rw (contents_empty null v e),
    )
    | no e ↦ elim (Bool-cases (stop (oldest null v) s)) [
      | inl t ↦ (
        advance (stop_pop_some q),
        next (oldest null v) s,
        num + 1,
        pop_loop-step (observing next stop) q.write_idx q.read_idx left num q
              (advance (stop_pop_some q)) s (next (oldest null v) s) e f
              (pop_one-observing v s ∙ rw t)
            ∙ pop_loop-stopped q.write_idx (add32 q.read_idx 1) left (num + 1)
                (advance (stop_pop_some q)) (next (oldest null v) s) refl,
        flag-IsValid true (advance-IsValid v (some_left e)),
        rw (contents-advance null v (some_left e), t),
      )
      | inr t ↦
          rw
            (
              contents-advance null v (some_left e),
              t,
              pop_loop-step (observing next stop) q.write_idx q.read_idx left num q (advance q) s
                  (next (oldest null v) s) e f (pop_one-observing v s ∙ rw t),
            )
            (pop_loop_refines left (num + 1) (advance q) (advance-IsValid v (some_left e))
              (next (oldest null v) s) f)
    ]
  ]
    where
      some_left : q.read_idx ≢ q.write_idx → 0 < size q
      some_left e = unfold size in omega (arith, v.write_lt, v.read_lt)

  -- For every handler that leaves the queue alone, `pop_some` gives it the oldest items in order, up
  -- to the first at which it asks to stop and at most `max` of them, and no other; the queue keeps
  -- the rest and stays valid.
  pub pop_some_refines :
      (max : ℕ) {q : Queue A} (v : IsValid q) (s : S)
      → Drained
          (pop_some (observing next stop) max q s)
          (fifo_drain next stop max 0 (contents null q) s)
  unfolding pop_some contents size
  pop_some_refines max {q} v s =
      pop_loop_refines max 0 (record q { flag_stop_pop_some = false }) (flag-IsValid false v) s refl
