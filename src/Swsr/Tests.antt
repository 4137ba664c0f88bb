-- ===== src/Swsr/Tests.antt =====
-- Runs of the queue of core/zaf/swsr_delivery_queue.hpp, and the theorems about it at concrete queues.
use zaf.Prelude.{ℕ, ◌+◌, ◌-◌, ◌≡◌, ◌≢◌, refl, Bool, true, false, [], ◌∷◌, some, arith, ltb}
use zaf.Swsr.{Queue, resizing, pushed, init, resize, push, top, size, u32}
use zaf.Swsr.Inv.{IsValid}
use zaf.Swsr.Refine.{stored, fifo_push, contents}
use zaf.Swsr.Push.{queue_of, outcome, resize-IsValid, push_refines, push_resizing_misplaces}
use zaf.Swsr.Reader.{pop_some}
use zaf.Swsr.Reader.Drain.{observing, fifo_drain, Drained, pop_some_refines}
use zaf.Swsr.Protocol.{Threads, Reach, IsQuiet, start}
use zaf.Swsr.Protocol.Wakeup.{no_lost_wakeup}
use zaf.Swsr.Protocol.Lost.{wakeup_lost, at_rest, Reach-rest}

-- Two places, both taken; the reader is on its `lap`-th round.
abbrev two_items : ℕ → ℕ → Queue ℕ
two_items read write = record {
  write_idx = write;
  read_idx = read;
  may_have_message = true;
  cap = 2;
  bit_mask = 1;
  items = 7 ∷ 8 ∷ [];
  flag_stop_pop_some = false;
  num_empty_read = 0;
  is_writing_by_sender = true;
  max_messages_read = 100;
  max_empty_read = 1;
}

first_lap : IsValid (two_items 0 2)
first_lap = record {
  scale = 1;
  scale_le = omega arith;
  cap_eq = refl;
  mask_eq = refl;
  length_eq = refl;
  write_lt = omega arith;
  read_lt = omega arith;
  size_le = omega arith;
}

second_lap : IsValid (two_items 2 4)
second_lap = record {
  scale = 1;
  scale_le = omega arith;
  cap_eq = refl;
  mask_eq = refl;
  length_eq = refl;
  write_lt = omega arith;
  read_lt = omega arith;
  size_le = omega arith;
}

-- The writer's index has wrapped.
wrapped : IsValid (two_items (u32 - 1) 1)
wrapped = record {
  scale = 1;
  scale_le = omega arith;
  cap_eq = refl;
  mask_eq = refl;
  length_eq = refl;
  write_lt = omega arith;
  read_lt = omega arith;
  size_le = omega arith;
}

emptied : IsValid (two_items 2 2)
emptied = record {
  scale = 1;
  scale_le = omega arith;
  cap_eq = refl;
  mask_eq = refl;
  length_eq = refl;
  write_lt = omega arith;
  read_lt = omega arith;
  size_le = omega arith;
}

contents-wrapped : contents 0 (two_items (u32 - 1) 1) ≡ 8 ∷ 7 ∷ []
unfolding contents size
contents-wrapped = refl

resized_top : top (queue_of (push 0 resizing 9 (two_items 2 4))) ≡ some 0
unfolding push top
resized_top = refl

abbrev add_up : ℕ → ℕ → ℕ
add_up x s = s + x

abbrev over_ten : ℕ → ℕ → Bool
over_ten x s = ltb 10 (s + x)

resize-IsValid_example :
    IsValid {A = ℕ} (resize 0 15 init) × (contents {A = ℕ} 0 (resize 0 15 init) ≡ [])
resize-IsValid_example = resize-IsValid 0 15 (omega arith)

push_refines_example : outcome 0 (push 0 resizing 9 (two_items 0 2)) ≡ stored (7 ∷ 8 ∷ 9 ∷ [])
unfolding contents size fifo_push
push_refines_example = push_refines 0 first_lap resizing 9 (λ e f. (omega arith, refl))

push_resizing_misplaces_example :
    (q' : Queue ℕ) × (push 0 resizing 9 (two_items 2 4) ≡ pushed q')
    × (size q' ≡ 2 + 1)
    × (top q' ≡ some 0)
unfolding size
push_resizing_misplaces_example = push_resizing_misplaces 0 second_lap 9 refl (omega arith) refl

pop_some_refines_example :
    Drained 0 add_up over_ten
      (pop_some (observing add_up over_ten) 5 (two_items (u32 - 1) 1) 0)
      (fifo_drain add_up over_ten 5 0 (contents 0 (two_items (u32 - 1) 1)) 0)
pop_some_refines_example = pop_some_refines 0 add_up over_ten 5 wrapped 0

-- One message has been sent and read, and the reader has come to rest.
no_lost_wakeup_example : size {A = ℕ} (at_rest 0 7 4 100 (omega arith)) ≡ 0
no_lost_wakeup_example =
    no_lost_wakeup 0 4 100 (omega arith) (omega arith) (Reach-rest 0 7 4 100 (omega arith))
      (record { writer_done = refl; reader_rests = refl; none_notified = refl })

-- The capacity and the limit of the actors' queues.
wakeup_lost_example : (t : Threads ℕ) × Reach 100 (start 0 15) t × IsQuiet t × (size t.queue ≢ 0)
wakeup_lost_example = wakeup_lost 0 1 15 100 (omega arith) (omega arith)
