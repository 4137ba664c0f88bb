-- ===== src/Swsr/Protocol/Lost.antt =====
-- A wakeup is lost where the last read of an idle reader (core/zaf/swsr_delivery_queue.hpp) may
-- leave items behind: the items that the writer has announced while the flag was still up.
use zaf.Prelude.{
  ℕ, zero, suc, ◌+◌, ◌≤◌, ◌<◌, ◌≡◌, ◌≢◌, ◌^◌, refl, true, false, not, min, arith, if◌then◌else◌,
  ◌∙◌, subst, ne→==, eq→==,
}
use zaf.Prelude.Bits.{two-pow_pos}
use zaf.Swsr.{
  Queue, add32, u32, size, empty, is_full_for_writer, store_item, inc_read_progress, init, resize,
}
use zaf.Swsr.Inv.{
  IsValid, same_ring-IsValid, size_tests, store_item-IsValid, size-store_item, two-pow-le,
}
use zaf.Swsr.Push.{resize-IsValid}
use zaf.Swsr.Reader.{advance}
use zaf.Swsr.Reader.Drain.{advance-IsValid, size-advance}
use zaf.Swsr.Protocol.{
  between, resting, serving, lowering, draining, Threads, with_queue, write, announce, wake, read,
  miss, last_miss, lower, load, drain, rest, Reach, here, next, IsQuiet, announce_flag, start,
}

module _ {ℓ} {A : Type ℓ} (max : ℕ) {s : Threads A} where
  -- Empty reads up to the limit.
  misses :
      (j : ℕ) (q : Queue A)
      → empty q ≡ true
      → q.num_empty_read + suc j ≡ q.max_empty_read
      → q.max_empty_read < u32
      → Reach max s (with_queue q between serving 0)
      → Reach max s (with_queue (record q { num_empty_read = q.max_empty_read }) between lowering 0)
  unfolding empty
  misses zero q e h b r =
      let last : add32 q.num_empty_read 1 ≡ q.max_empty_read = omega arith in
      subst (λ m. Reach max s (with_queue (record q { num_empty_read = m }) between lowering 0))
        last (next r (last_miss e last))
  misses (suc j) q e h b r =
      misses j (record q { num_empty_read = add32 q.num_empty_read 1 }) e (omega arith) b
        (next r (miss e (omega arith)))

  -- One item written and announced while the flag is up.
  fill_one :
      (x : A) (q : Queue A)
      → is_full_for_writer q ≡ false
      → q.may_have_message ≡ true
      → Reach max s (with_queue q between lowering 0)
      → Reach max s
          (with_queue (record (store_item x q) { may_have_message = true }) between lowering 0)
  unfolding announce_flag store_item
  fill_one x q room f r =
      let silent : (if not q.may_have_message then 0 + 1 else 0) ≡ 0 = rw f in
      subst
        (λ m.
          Reach max s
            (with_queue (record (store_item x q) { may_have_message = true }) between lowering m))
        silent (next (next r (write x room)) announce)

  -- Items written and announced while the flag is up send no notification.
  fills :
      (x : A) (n : ℕ) (q : Queue A) (v : IsValid q)
      → size q + n ≤ q.cap
      → q.may_have_message ≡ true
      → Reach max s (with_queue q between lowering 0)
      → (q' : Queue A) × Reach max s (with_queue q' between lowering 0)
        × IsValid q'
        × (size q' ≡ size q + n)
  fills x zero q v h f r = (q, r, v, omega arith)
  fills x (suc n) q v h f r =
      let more : size q < q.cap = omega arith in
      let e : size (store_item x q) ≡ size q + 1 = size-store_item v x more in
      let room : is_full_for_writer q ≡ false =
        (size_tests v).0 ∙ ne→== (size q) q.cap (omega arith) in
      let filled : Queue A = record (store_item x q) { may_have_message = true } in
      let same : size filled ≡ size (store_item x q) = unfold size in refl in
      let cap_same : filled.cap ≡ q.cap = unfold store_item in refl in
      let (q', r', v', g) =
        fills x n filled
          (same_ring-IsValid filled (store_item-IsValid v x more) refl refl refl refl refl)
          (omega arith) refl (fill_one x q room f r) in
      (q', r', v', omega arith)

  drains :
      (n : ℕ) (q : Queue A) (v : IsValid q)
      → n ≤ size q
      → Reach max s (with_queue q between (draining n) 0)
      → (q' : Queue A) × Reach max s (with_queue q' between (draining 0) 0) × (size q ≡ size q' + n)
  drains zero q v h r = (q, r, omega arith)
  drains (suc n) q v h r =
      let e : size q ≡ suc (size (advance q)) = size-advance v (omega arith) in
      let (q', r', f) =
        drains n (advance q) (advance-IsValid v (omega arith)) (omega arith) (next r drain) in
      (q', r', omega arith)

  -- The last read of a reader that finds one item more than it may take.
  finish :
      (q : Queue A)
      → IsValid q
      → size q ≡ suc max
      → Reach max s (with_queue q between lowering 0)
      → (t : Threads A) × Reach max s t × IsQuiet t × (size t.queue ≢ 0)
  finish q v e r =
      let low : Queue A = inc_read_progress q in
      let same : size low ≡ size q = unfold size inc_read_progress in refl in
      let low-IsValid : IsValid low =
        unfold inc_read_progress in same_ring-IsValid low v refl refl refl refl refl in
      let budget : min (size low) max ≡ max = omega arith in
      let loaded : Reach max s (with_queue low between (draining max) 0) =
        subst (λ m. Reach max s (with_queue low between (draining m) 0)) budget
          (next (next r lower) load) in
      let (q', r', e') = drains max low low-IsValid (omega arith) loaded in
      let rested : Queue A = record q' { num_empty_read = 0 } in
      let same' : size rested ≡ size q' = unfold size in refl in
      (
        with_queue rested between resting 0,
        next r' rest,
        record { writer_done = refl; reader_rests = refl; none_notified = refl },
        omega arith,
      )

module _ {ℓ} {A : Type ℓ} (null x : A) (k max : ℕ) (hk : k ≤ 31) where
  abbrev fresh : Queue A
  fresh = resize null k init

  fresh-IsValid : IsValid fresh
  fresh-IsValid = (resize-IsValid null k hk).0

  room : size fresh < fresh.cap
  room = unfold size resize init in omega (arith, two-pow-le k hk, two-pow_pos k)

  -- With the first message announced, and after the reader has read it.
  abbrev announced : Queue A
  announced = record (store_item x fresh) { may_have_message = true }

  abbrev served : Queue A
  served = record (advance announced) { num_empty_read = 0 }

  size-announced : size announced ≡ 1
  size-announced =
      let one : size (store_item x fresh) ≡ size fresh + 1 = size-store_item fresh-IsValid x room in
      let none : size fresh ≡ 0 = unfold size resize init in refl in
      let same : size announced ≡ size (store_item x fresh) = unfold size in refl in omega arith

  announced-IsValid : IsValid announced
  announced-IsValid =
      same_ring-IsValid announced (store_item-IsValid fresh-IsValid x room) refl refl refl refl refl

  served-IsValid : IsValid served
  served-IsValid =
      same_ring-IsValid served (advance-IsValid announced-IsValid (omega (arith, size-announced)))
        refl refl refl refl refl

  size-served : size served ≡ 0
  size-served =
      let same : size served ≡ size (advance announced) = unfold size in refl in
      omega (arith, size-announced, size-advance announced-IsValid (omega (arith, size-announced)))

  Reach-announced : Reach max (start null k) (with_queue announced between resting 1)
  unfolding announce_flag store_item resize init
  Reach-announced =
      next
        (next here (
          write x
            ((size_tests fresh-IsValid).0 ∙ ne→== (size fresh) fresh.cap (omega (arith, room)))))
        announce

  Reach-served : Reach max (start null k) (with_queue served between serving 0)
  Reach-served = next (next Reach-announced wake) (
      read (
        (size_tests announced-IsValid).2
        ∙ ne→== (size announced) 0 (omega (arith, size-announced))))

  -- The reader is about to put the flag down.
  abbrev tired : Queue A
  tired = record served { num_empty_read = served.max_empty_read }

  Reach-tired : Reach max (start null k) (with_queue tired between lowering 0)
  unfolding advance store_item resize init
  Reach-tired =
      misses max 99 served ((size_tests served-IsValid).2 ∙ eq→== (size served) 0 size-served) refl
        (omega arith) Reach-served

  -- A round that leaves nothing behind: one message, read, and the reader rests again.
  abbrev pub at_rest : Queue A
  at_rest = record (inc_read_progress tired) { num_empty_read = 0 }

  pub Reach-rest : Reach max (start null k) (with_queue at_rest between resting 0)
  Reach-rest =
      let same₀ : size (inc_read_progress tired) ≡ size served =
        unfold size inc_read_progress in refl in
      let none : min (size (inc_read_progress tired)) max ≡ 0 = omega (arith, size-served) in
      let loaded : Reach max (start null k)
          (with_queue (inc_read_progress tired) between (draining 0) 0) =
        subst
          (λ m.
            Reach max (start null k) (with_queue (inc_read_progress tired) between (draining m) 0))
          none (next (next Reach-tired lower) load) in
      next loaded rest

  -- Where `max` is below the capacity, a state can be reached in which nothing is going on and an
  -- item stays in the queue.
  pub wakeup_lost :
      max < 2 ^ k → (t : Threads A) × Reach max (start null k) t × IsQuiet t × (size t.queue ≢ 0)
  wakeup_lost small =
      let tired-IsValid : IsValid tired =
        same_ring-IsValid tired served-IsValid refl refl refl refl refl in
      let same₀ : size tired ≡ size served = unfold size in refl in
      let none : size tired ≡ 0 = same₀ ∙ size-served in
      let caps : tired.cap ≡ 2 ^ k =
        unfold advance store_item resize in omega (arith, two-pow-le k hk) in
      let flag : tired.may_have_message ≡ true = unfold advance in refl in
      let (q, r, v, e) = fills max x (suc max) tired tired-IsValid (omega arith) flag Reach-tired in
      finish max q v (omega arith) r
