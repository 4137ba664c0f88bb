-- ===== src/Swsr/Reader/Idle.antt =====
-- How the reader of core/zaf/swsr_delivery_queue.hpp becomes idle, and how many items its overloads
-- of `pop_some` take.
use zaf.Prelude.{
  ℕ, zero, suc, ◌+◌, ◌-◌, ◌≤◌, ◌<◌, ◌≡◌, ◌≢◌, ap, ◌∙◌, sym, Bool, false, List, [], ◌∷◌, Option,
  some, arith, ◌==◌, if◌then◌else◌, ne→==,
}
use zaf.Swsr.{Queue, add32, size, inc_read_progress}
use zaf.Swsr.Inv.{IsValid}
use zaf.Swsr.Refine.{contents}
use zaf.Swsr.Reader.{
  advance, Handler, OnIdle, pop_some, pop_some_idle, pop_some_default, empty_read,
}
use zaf.Swsr.Reader.Drain.{
  observing, fifo_drain, pop_loop-end, pop_some_refines, contents-advance, oldest,
}

module _ {ℓ κ} {A : Type ℓ} {S : Type κ} (h : Handler A S) where
  pop_some-empty :
      (max : ℕ) (q : Queue A) (s : S)
      → q.read_idx ≡ q.write_idx
      → pop_some h max q s ≡ some (record q { flag_stop_pop_some = false }, s, 0)
  unfolding pop_some
  pop_some-empty max q s e = pop_loop-end h q.write_idx q.read_idx max 0 _ s e

  abbrev after_miss : OnIdle A S → Queue A → S → Option (Queue A × S)
  after_miss on_idle q s =
      if add32 q.num_empty_read 1 == q.max_empty_read
      then some (
          on_idle
            (record q { flag_stop_pop_some = false; may_have_message = false; num_empty_read = 0 })
            s)
      else some (record q { num_empty_read = add32 q.num_empty_read 1 }, s)

  empty_read-empty :
      (on_idle : OnIdle A S) (max : ℕ) (q : Queue A) (s : S)
      → q.read_idx ≡ q.write_idx
      → empty_read h on_idle max q s ≡ after_miss on_idle q s
  unfolding empty_read inc_read_progress
  empty_read-empty on_idle max q s e =
      let again : pop_some h max
            (record q { num_empty_read = add32 q.num_empty_read 1; may_have_message = false }) s
          ≡ _ =
        pop_some-empty max _ s e in
      rw again

  -- On an empty queue `pop_some` with a callback calls no handler and takes nothing. It counts one
  -- more empty read; at `max_empty_read` of them it puts the flag down, restarts the count and makes
  -- the callback, and before that it makes no callback and leaves the flag.
  pub pop_some_idle-empty :
      (on_idle : OnIdle A S) (max : ℕ) {q : Queue A} (s : S)
      → IsValid q
      → size q ≡ 0
      → pop_some_idle h on_idle max q s ≡ (
          if add32 q.num_empty_read 1 == q.max_empty_read
          then some (
              on_idle
                (record q {
                  flag_stop_pop_some = false;
                  may_have_message = false;
                  num_empty_read = 0;
                })
                s)
          else some (
            record q { flag_stop_pop_some = false; num_empty_read = add32 q.num_empty_read 1 },
            s,
          ))
  unfolding pop_some_idle inc_read_progress size
  pop_some_idle-empty on_idle max {q} s v e =
      let same : q.read_idx ≡ q.write_idx = omega (arith, v.write_lt, v.read_lt) in
      rw (pop_some-empty max q s same, pop_some_idle)
        (empty_read-empty on_idle max (record q { flag_stop_pop_some = false }) s same)

  pop_some_idle-some :
      (on_idle : OnIdle A S) (max : ℕ) (q q' : Queue A) (s s' : S) (n : ℕ)
      → pop_some h max q s ≡ some (q', s', n)
      → n ≢ 0
      → pop_some_idle h on_idle max q s ≡ some (record q' { num_empty_read = 0 }, s')
  unfolding pop_some_idle
  pop_some_idle-some on_idle max q q' s s' n e h = rw (e, pop_some_idle) (rw (ne→== n 0 h))

module _ {ℓ κ} {A : Type ℓ} {S : Type κ} (next : A → S → S) (stop : A → S → Bool) where
  fifo_drain-num : (n num : ℕ) (l : List A) (s : S) → num ≤ (fifo_drain next stop n num l s).2
  unfolding fifo_drain
  fifo_drain-num zero num l s = omega arith
  fifo_drain-num (suc n) num [] s = omega arith
  fifo_drain-num (suc n) num (x ∷ l) s = ground (arith, fifo_drain-num n (num + 1) l (next x s))

  fifo_drain-ne-zero :
      (n : ℕ) (x : A) (l : List A) (s : S) → (fifo_drain next stop (suc n) 0 (x ∷ l) s).2 ≢ 0
  unfolding fifo_drain
  fifo_drain-ne-zero n x l s = ground (arith, fifo_drain-num n (0 + 1) l (next x s))

  -- `pop_some(handler, on_reach_max_empty_read)` on a queue that holds something takes up to
  -- `max_empty_read` of the oldest items, whatever `max_messages_read` is, and forgets the empty
  -- reads so far; the callback is not made.
  pub pop_some_default-takes :
      (null : A) (on_idle : OnIdle A S) {q : Queue A} (s : S)
      → IsValid q
      → 0 < size q
      → 0 < q.max_empty_read
      → (q' : Queue A) × (s' : S) × (n : ℕ) × (pop_some_default (observing next stop) on_idle q s
          ≡ some (record q' { num_empty_read = 0 }, s'))
        × ((contents null q', s', n) ≡ fifo_drain next stop q.max_empty_read 0 (contents null q) s)
  unfolding pop_some_default
  pop_some_default-takes null on_idle {q} s v h m =
      let (q', s', n, e, v', f) = pop_some_refines null next stop q.max_empty_read v s in
      (
        q',
        s',
        n,
        pop_some_idle-some (observing next stop) on_idle q.max_empty_read q q' s s' n e
            (taken n (ap (λ t. t.2) f)),
        f,
      )
    where
      taken : (n : ℕ) → n ≡ (fifo_drain next stop q.max_empty_read 0 (contents null q) s).2 → n ≢ 0
      taken n e z =
          ne (q.max_empty_read - 1) (oldest null v) (contents null (advance q))
            (rw (← contents-advance null v h, ← k) (sym e ∙ z))
        where
          k : q.max_empty_read ≡ suc (q.max_empty_read - 1)
          k = omega arith

          ne : (n : ℕ) (x : A) (l : List A) → (fifo_drain next stop (suc n) 0 (x ∷ l) s).2 ≢ 0
          ne n x l = fifo_drain-ne-zero n x l s
