-- ===== src/Swsr/Protocol/Wakeup.antt =====
-- No wakeup is lost where the last read of an idle reader can take the whole queue.
use zaf.Prelude.{
  ℕ, suc, ◌+◌, ◌≤◌, ◌<◌, ◌≡◌, ◌^◌, refl, true, false, not, ==→ne, min, ◌⊎◌, inl, inr, arith,
  if◌then◌else◌, sym, ◌∙◌,
}
use zaf.Swsr.{Queue, size, empty, is_full_for_writer, store_item, inc_read_progress, init, resize}
use zaf.Swsr.Inv.{
  IsValid, same_ring-IsValid, size_tests, two-pow-le, store_item-IsValid, size-store_item,
}
use zaf.Swsr.Push.{resize-IsValid}
use zaf.Swsr.Reader.{advance}
use zaf.Swsr.Reader.Drain.{advance-IsValid, size-advance}
use zaf.Swsr.Protocol.{
  WriterAt, between, stored, ReaderAt, resting, serving, lowering, lowered, draining, Threads, Step,
  write, announce, wake, read, miss, last_miss, lower, load, drain, rest, Reach, here, next,
  IsQuiet, announce_flag, start,
}

-- What each position of the reader says of the flag, the notifications and the items. Items that
-- the reader will not meet any more are ones that the writer is about to announce.
abbrev Agrees {ℓ} : {A : Type ℓ} → ReaderAt → WriterAt → ℕ → Queue A → Type 0
Agrees resting w n q =
    ((q.may_have_message ≡ true) × (n ≡ 1))
    ⊎ ((q.may_have_message ≡ false) × (n ≡ 0) × ((size q ≡ 0) ⊎ (w ≡ stored)))
Agrees serving w n q = (q.may_have_message ≡ true) × (n ≡ 0)
Agrees lowering w n q = (q.may_have_message ≡ true) × (n ≡ 0)
Agrees lowered w n q =
    ((q.may_have_message ≡ true) × (n ≡ 1)) ⊎ ((q.may_have_message ≡ false) × (n ≡ 0))
Agrees (draining k) w n q =
    (k ≤ size q)
    × (((q.may_have_message ≡ true) × (n ≡ 1))
        ⊎ ((q.may_have_message ≡ false) × (n ≡ 0) × ((size q ≡ k) ⊎ (w ≡ stored))))

pub record Inv {ℓ} {A : Type ℓ} (max : ℕ) (s : Threads A) : Type 0 where
  valid : IsValid s.queue
  fits : s.queue.cap ≤ max
  agrees : Agrees s.reader s.writer s.notified s.queue

module _ {ℓ} {A : Type ℓ} where
  write-Agrees :
      (r : ReaderAt) (n : ℕ) (q q' : Queue A)
      → size q' ≡ size q + 1
      → q'.may_have_message ≡ q.may_have_message
      → Agrees r between n q
      → Agrees r stored n q'
  write-Agrees resting n q q' e f a = ground arith
  write-Agrees serving n q q' e f a = ground arith
  write-Agrees lowering n q q' e f a = ground arith
  write-Agrees lowered n q q' e f a = ground arith
  write-Agrees (draining k) n q q' e f a = ground arith

  announce-Agrees :
      (r : ReaderAt) (n : ℕ) (q : Queue A)
      → Agrees r stored n q
      → Agrees r between
          (if not q.may_have_message then n + 1 else n)
          (record q { may_have_message = true })
  unfolding size
  announce-Agrees resting n q a = ground arith
  announce-Agrees serving n q a = ground arith
  announce-Agrees lowering n q a = ground arith
  announce-Agrees lowered n q a = ground arith
  announce-Agrees (draining k) n q a = ground arith

  drain-Agrees :
      (k : ℕ) (w : WriterAt) (n : ℕ) (q q' : Queue A)
      → size q ≡ suc (size q')
      → q'.may_have_message ≡ q.may_have_message
      → Agrees (draining (suc k)) w n q
      → Agrees (draining k) w n q'
  drain-Agrees k w n q q' e f a = ground arith

  size-le-cap : {q : Queue A} → IsValid q → size q ≤ q.cap
  unfolding size
  size-le-cap v = omega (arith, v.size_le, v.cap_eq)

  room-of-test : {q : Queue A} → IsValid q → is_full_for_writer q ≡ false → size q < q.cap
  room-of-test {q} v f =
      omega (arith, size-le-cap v, ==→ne (size q) q.cap (sym (size_tests v).0 ∙ f))

  some-of-test : {q : Queue A} → IsValid q → empty q ≡ false → 0 < size q
  some-of-test {q} v f = omega (arith, ==→ne (size q) 0 (sym (size_tests v).2 ∙ f))

  -- Every step keeps the invariant.
  pub Step-Inv : {max : ℕ} {s t : Threads A} → Step max s t → Inv max s → Inv max t
  Step-Inv (write x {q} {r} {n} f) i =
      let more : size q < q.cap = room-of-test i.valid f in
      record {
        valid = store_item-IsValid i.valid x more;
        fits = unfold store_item in i.fits;
        agrees =
            write-Agrees r n q (store_item x q) (size-store_item i.valid x more)
              (unfold store_item in refl) i.agrees;
      }
  Step-Inv (announce {q} {r} {n}) i =
      unfold announce_flag in
      (record {
        valid = same_ring-IsValid _ i.valid refl refl refl refl refl;
        fits = i.fits;
        agrees = announce-Agrees r n q i.agrees;
      })
  Step-Inv (wake {q} {w} {n}) i = record { valid = i.valid; fits = i.fits; agrees = ground arith }
  Step-Inv (read {q} {w} {n} h) i =
      unfold advance in
      (record {
        valid =
            same_ring-IsValid _ (advance-IsValid i.valid (some-of-test i.valid h)) refl refl refl
              refl refl;
        fits = i.fits;
        agrees = i.agrees;
      })
  Step-Inv (miss {q} h e) i = record {
    valid = same_ring-IsValid _ i.valid refl refl refl refl refl;
    fits = i.fits;
    agrees = i.agrees;
  }
  Step-Inv (last_miss {q} h e) i = record {
    valid = same_ring-IsValid _ i.valid refl refl refl refl refl;
    fits = i.fits;
    agrees = i.agrees;
  }
  Step-Inv (lower {q} {w} {n}) i =
      unfold inc_read_progress in
      (record {
        valid = same_ring-IsValid _ i.valid refl refl refl refl refl;
        fits = i.fits;
        agrees = inr (refl, i.agrees.1);
      })
  Step-Inv {max} (load {q} {w} {n}) i =
      let all : size q ≡ min (size q) max = omega (arith, i.fits, size-le-cap i.valid) in
      record { valid = i.valid; fits = i.fits; agrees = ground (arith, all) }
  Step-Inv (drain {q} {w} {n} {k}) i =
      let left : 0 < size q = omega (arith, i.agrees.0) in
      let fewer : size q ≡ suc (size (advance q)) = size-advance i.valid left in
      record {
        valid = advance-IsValid i.valid left;
        fits = unfold advance in i.fits;
        agrees = drain-Agrees k w n q (advance q) fewer (unfold advance in refl) i.agrees;
      }
  Step-Inv (rest {q} {w} {n}) i = record {
    valid = same_ring-IsValid _ i.valid refl refl refl refl refl;
    fits = i.fits;
    agrees = unfold size in i.agrees.1;
  }

  Reach-Inv : {max : ℕ} {s t : Threads A} → Inv max s → Reach max s t → Inv max t
  Reach-Inv i here = i
  Reach-Inv i (next r st) = Step-Inv st (Reach-Inv i r)

  start-Inv : (null : A) (k max : ℕ) → k ≤ 31 → 2 ^ k ≤ max → Inv max (start null k)
  start-Inv null k max h fits = record {
    valid = v;
    fits = omega (arith, cap_start);
    agrees = unfold resize init size in inr (refl, refl, inl refl);
  }
    where
      v : IsValid (resize null k init)
      v = (resize-IsValid null k h).0

      cap_start : (resize null k init).cap ≡ 2 ^ k
      cap_start = unfold resize in omega (arith, two-pow-le k h)

  -- With a capacity of at most `max`, a queue at rest is empty: in every interleaving from a new
  -- queue, if the writer is between two pushes, no notification is under way and the reader does
  -- not serve the queue, no item is left in it.
  pub no_lost_wakeup :
      (null : A) (k max : ℕ) {t : Threads A}
      → k ≤ 31
      → 2 ^ k ≤ max
      → Reach max (start null k) t
      → IsQuiet t
      → size t.queue ≡ 0
  no_lost_wakeup null k max {t} h fits r quiet =
      at_rest t.reader t.writer t.notified t.queue quiet.reader_rests quiet.writer_done
        quiet.none_notified (Reach-Inv (start-Inv null k max h fits) r).agrees
    where
      at_rest :
          (r : ReaderAt) (w : WriterAt) (n : ℕ) (q : Queue A)
          → r ≡ resting
          → w ≡ between
          → n ≡ 0
          → Agrees r w n q
          → size q ≡ 0
      at_rest resting w n q e f g a = ground arith
      at_rest serving w n q e f g a = cc
      at_rest lowering w n q e f g a = cc
      at_rest lowered w n q e f g a = cc
      at_rest (draining k) w n q e f g a = cc
