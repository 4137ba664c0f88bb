-- ===== src/CountPointer/Tests.antt =====
-- The pointers of core/zaf/count_pointer.hpp on a small heap.
use zaf.Prelude.{◌≡◌, refl, none, some, List, [], ◌∷◌, ne→==, arith, count}
use zaf.CountPointer.{
  CountPointer, Heap, log, construct, copy_construct, inc_count, put, assign_raw, assign_copy,
  assign_move, destroy, dec_count,
}
use mathlib.Core.Logic.{◌≢◌}
use zaf.CountPointer.Runs.{
  empty_heap, program, Reach, start, later, constructs, copies, ends, Reach-IsCounted,
}
use zaf.CountPointer.Count.{refs, cell, IsCounted}
use zaf.CountPointer.Once.{made, Reach-deleted}

-- Counter 0 belongs to object 40, which two pointers have; counter 1 to object 50.
abbrev forty : CountPointer
forty = record { value = some 40; count = some 0; destructor = none }

abbrev fifty : CountPointer
fifty = record { value = some 50; count = some 1; destructor = some 9 }

abbrev all_three : List CountPointer
all_three = fifty ∷ forty ∷ forty ∷ []

abbrev heap : Heap
heap = record { counters = λ c. cell (refs c all_three); next = 2; deleted = []; destructed = [] }

heap-IsCounted : IsCounted all_three heap
heap-IsCounted = record {
  cells = λ c. refl;
  unused = λ c l.
      rw
        (
          ne→== c 1 (λ e. absurd (omega (arith, e, l))),
          ne→== c 0 (λ e. absurd (omega (arith, e, l))),
        )
        (omega arith);
  few = omega arith;
}

-- A new pointer to object 40, and a copy of it.
abbrev one : CountPointer
one = (construct (some 40) empty_heap).0

abbrev with_two : Heap
with_two = record (construct (some 40) empty_heap).1 {
  counters = put 0 (some 2) (put 0 (some 1) empty_heap.counters);
}

two_pointers : Reach (program (one ∷ one ∷ []) with_two)
unfolding construct copy_construct inc_count put
two_pointers = later (later start (constructs (some 40) (omega arith))) (copies (omega arith) refl)

Reach-IsCounted_example :
    IsCounted (one ∷ one ∷ []) with_two
    × (destroy one with_two ≢ none)
    × (assign_raw (some 60) one with_two ≢ none)
    × (assign_copy one one with_two ≢ none)
    × (assign_move one one with_two ≢ none)
Reach-IsCounted_example = Reach-IsCounted (some 60) two_pointers

-- Both pointers end.
abbrev after_both : Heap
after_both = record with_two {
  counters = put 0 none (put 0 (some 1) with_two.counters);
  deleted = 40 ∷ [];
}

both_ended : Reach (program [] after_both)
unfolding destroy dec_count put log construct
both_ended = later (later two_pointers (ends refl)) (ends refl)

Reach-deleted_example : count 40 after_both.deleted ≡ count 40 (made both_ended)
Reach-deleted_example = Reach-deleted both_ended 40
