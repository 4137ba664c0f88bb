-- ===== src/Swsr/Push.antt =====
-- `push` of core/zaf/swsr_delivery_queue.hpp against a bounded FIFO, on every strategy; and the
-- rounds on which its Resize branch misplaces what the queue holds.
use zaf.Prelude.{
  ℕ, ◌+◌, ◌*◌, ◌/◌, ◌%◌, ◌^◌, ◌≤◌, ◌<◌, ◌≡◌, refl, ap, ◌∙◌, sym, true, false, [], ◌∷◌, ◌++◌, some,
  inl, inr, arith, length, Bool-cases, dec_le, eq→==, ==→eq, ==→ne, ne→==,
}
use zaf.Prelude.Bits.{two-pow_pos}
use zaf.Swsr.{
  Queue, FullStrategy, blocking, resizing, giveup, Pushed, pushed, gave_up, waits, u32, size,
  is_full_for_writer, store_item, grow, push, push_full, top, init, resize,
}
use zaf.Swsr.Inv.{
  IsValid, cap_pos, size_tests, store_item-IsValid, size-store_item, grow-IsValid,
  length-resize_items, two-pow-le,
}
use zaf.Swsr.Refine.{
  Outcome, stored, refused, retry, fifo_push, contents, contents-store_item, length-window,
}
use zaf.Swsr.Grow.{grow-eq, contents-grow, top-store_item-grow}

abbrev pub queue_of {ℓ} : {A : Type ℓ} → Pushed A → Queue A
queue_of (pushed q) = q
queue_of (gave_up q) = q
queue_of (waits q) = q

abbrev pub outcome {ℓ} : {A : Type ℓ} → A → Pushed A → Outcome A
outcome null (pushed q) = stored (contents null q)
outcome null (gave_up q) = refused (contents null q)
outcome null (waits q) = retry (contents null q)

module _ {ℓ} {A : Type ℓ} (null : A) where
  -- `resize(scale)` on a new queue.
  pub resize-IsValid :
      (k : ℕ) → k ≤ 31 → IsValid (resize null k init) × (contents null (resize null k init) ≡ [])
  unfolding resize init contents size
  resize-IsValid k h =
      let e : 1 * 2 ^ k % u32 ≡ 2 ^ k = omega (arith, two-pow-le k h) in
      (
        record {
          scale = k;
          scale_le = h;
          cap_eq = e;
          mask_eq = rw e (omega (arith, two-pow-le k h, two-pow_pos k));
          length_eq = rw e (length-resize_items null (2 ^ k) [] (omega arith));
          write_lt = omega arith;
          read_lt = omega arith;
          size_le = omega arith;
        },
        refl,
      )

  length-contents : (q : Queue A) → length (contents null q) ≡ size q
  unfolding contents
  length-contents q = length-window null q.items q.cap q.read_idx (size q)

module _ {ℓ} {A : Type ℓ} (null : A) {q : Queue A} (v : IsValid q) where
  scale-le : q.cap < 2 ^ 31 → v.scale ≤ 30
  scale-le h = elim (dec_le v.scale 30) [
    | yes p ↦ p
    | no p ↦
        let e : v.scale ≡ 31 = omega (arith, v.scale_le) in
        absurd (omega (arith, v.cap_eq ∙ ap (λ k. 2 ^ k) e))
  ]

  full_size : is_full_for_writer q ≡ true → size q ≡ q.cap
  full_size t = ==→eq (size q) q.cap (sym (size_tests v).0 ∙ t)

  room : is_full_for_writer q ≡ false → size q < q.cap
  room f =
      omega (arith, ==→ne (size q) q.cap (sym (size_tests v).0 ∙ f), v.size_le, v.cap_eq, size_le)
    where
      size_le : size q ≤ 2 ^ v.scale
      size_le = unfold size in v.size_le

  size-grow : size q ≡ q.cap → q.cap < 2 ^ 31 → size (grow null q) < (grow null q).cap
  size-grow f h =
      rw (grow-eq null v (scale-le h) f).1
        (unfold grow size in omega (arith, f, cap_pos v, v.cap_eq))

  push_full-IsValid :
      (s : FullStrategy) (x : A)
      → size q ≡ q.cap
      → (s ≡ resizing → q.cap < 2 ^ 31)
      → IsValid (queue_of (push_full null s x q))
  unfolding push_full
  push_full-IsValid blocking x f h = v
  push_full-IsValid giveup x f h = v
  push_full-IsValid resizing x f h =
      store_item-IsValid (grow-IsValid null v (scale-le (h refl))) x (size-grow f (h refl))

  -- Every strategy keeps the invariant; Resize as long as the doubled capacity fits an `unsigned`.
  pub push-IsValid :
      (s : FullStrategy) (x : A)
      → (s ≡ resizing → q.cap < 2 ^ 31)
      → IsValid (queue_of (push null s x q))
  unfolding push
  push-IsValid s x h = elim (Bool-cases (is_full_for_writer q)) [
    | inl t ↦ rw t (push_full-IsValid s x (full_size t) h)
    | inr f ↦ rw f (store_item-IsValid v x (room f))
  ]

  push_full_refines :
      (s : FullStrategy) (x : A)
      → size q ≡ q.cap
      → (s ≡ resizing → (q.cap < 2 ^ 31) × (q.read_idx / q.cap % 2 ≡ 0))
      → outcome null (push_full null s x q) ≡ fifo_push q.cap s x (contents null q)
  unfolding push_full fifo_push
  push_full_refines blocking x f h = rw (length-contents null q, eq→== _ _ f)
  push_full_refines giveup x f h = rw (length-contents null q, eq→== _ _ f)
  push_full_refines resizing x f h =
      let small : v.scale ≤ 30 = scale-le (h refl).0 in
      ap stored (
        contents-store_item null x (grow-IsValid null v small) (size-grow f (h refl).0)
        ∙ ap (λ l. l ++ x ∷ []) (contents-grow null v small f (h refl).1))

  fifo_push_room :
      (s : FullStrategy) (x : A)
      → size q < q.cap
      → fifo_push q.cap s x (contents null q) ≡ stored (contents null q ++ x ∷ [])
  unfolding fifo_push
  fifo_push_room blocking x h = rw (length-contents null q, ne→== (size q) q.cap (omega arith))
  fifo_push_room giveup x h = rw (length-contents null q, ne→== (size q) q.cap (omega arith))
  fifo_push_room resizing x h = refl

  -- `push` does to a valid queue what the FIFO of `cap` items does, whether full or not. For the
  -- Resize strategy on a full queue this holds if the reader has gone round an even number of times.
  pub push_refines :
      (s : FullStrategy) (x : A)
      → (s ≡ resizing → size q ≡ q.cap → (q.cap < 2 ^ 31) × (q.read_idx / q.cap % 2 ≡ 0))
      → outcome null (push null s x q) ≡ fifo_push q.cap s x (contents null q)
  unfolding push
  push_refines s x h = elim (Bool-cases (is_full_for_writer q)) [
    | inl t ↦ rw t (push_full_refines s x (full_size t) (λ e. h e (full_size t)))
    | inr f ↦
        rw f (ap stored (contents-store_item null x v (room f)) ∙ sym (fifo_push_room s x (room f)))
  ]

  -- On an odd number of rounds the item that the reader gets next from a resized queue is the
  -- buffer's filler, though the queue was full.
  pub push_resizing_misplaces :
      (x : A)
      → size q ≡ q.cap
      → q.cap < 2 ^ 31
      → q.read_idx / q.cap % 2 ≡ 1
      → (q' : Queue A) × (push null resizing x q ≡ pushed q')
        × (size q' ≡ q.cap + 1)
        × (top q' ≡ some null)
  unfolding push push_full
  push_resizing_misplaces x f h e =
      let t : is_full_for_writer q ≡ true = (size_tests v).0 ∙ eq→== _ _ f in
      (store_item x (grow null q), rw t, grown_size, top-store_item-grow null v x (scale-le h) f e)
    where
      grown_size : size (store_item x (grow null q)) ≡ q.cap + 1
      grown_size =
          size-store_item (grow-IsValid null v (scale-le h)) x (size-grow f h)
          ∙ ap (λ n. n + 1) (unfold grow size in f)
