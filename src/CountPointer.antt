-- ===== src/CountPointer.antt =====
-- core/zaf/count_pointer.hpp: the reference-counting pointer of one thread.
-- The heap has the counters that `new unsigned` made, by address; reading or writing one that was
-- deleted is `none`. `deleted` and `destructed` list, the latest first, the objects that were deleted
-- and the destructors that were called.
pub mod Count
pub mod Assign
pub mod Runs
pub mod Weights
pub mod Kept
pub mod Once
mod Tests
use zaf.Prelude.{
  ℕ, zero, suc, ◌+◌, ◌-◌, ◌%◌, ◌^◌, Bool, true, false, not, Option, none, some, List, [], ◌∷◌, ◌++◌,
  ◌==◌, if◌then◌else◌,
}
use zaf.Serial.Codec.{◌>>=◌}

pub record CountPointer : Type 0 where
  pub value : Option ℕ
  pub count : Option ℕ
  pub destructor : Option ℕ

pub record Heap : Type 0 where
  pub counters : ℕ → Option ℕ
  pub next : ℕ
  pub deleted : List ℕ
  pub destructed : List ℕ

abbrev pub null : CountPointer
null = record { value = none; count = none; destructor = none }

unfoldable pub put : ℕ → Option ℕ → (ℕ → Option ℕ) → ℕ → Option ℕ
put c n counters k = if k == c then n else counters k

-- The last deleted or called one, if there is one.
unfoldable pub log : Option ℕ → List ℕ → List ℕ
log none l = l
log (some x) l = x ∷ l

-- `new unsigned(1)` for a pointer that is not null.
unfoldable pub construct : Option ℕ → Heap → CountPointer × Heap
unfolding put
construct none h = (null, h)
construct (some ptr) h = (
  record { value = some ptr; count = some h.next; destructor = none },
  record h { counters = put h.next (some 1) h.counters; next = suc h.next },
)

unfoldable pub inc_count : CountPointer → Heap → Option Heap
unfolding put
inc_count p h = elim p.count [
  | none ↦ some h
  | some c ↦ do
    n ← h.counters c
    some (record h { counters = put c (some ((n + 1) % 2 ^ 32)) h.counters })
]

-- `--*count`; at 0 the destructor is called, and counter and object are deleted.
unfoldable pub dec_count : CountPointer → Heap → Option (CountPointer × Heap)
unfolding put log
dec_count p h = elim p.count [
  | none ↦ some (p, h)
  | some c ↦ do
    n ← h.counters c
    if (n + (2 ^ 32 - 1)) % 2 ^ 32 == 0
        then some (
          null,
          record h {
            counters = put c none h.counters;
            deleted = log p.value h.deleted;
            destructed = log p.destructor h.destructed;
          },
        )
        else some (p, record h { counters = put c (some ((n + (2 ^ 32 - 1)) % 2 ^ 32)) h.counters })
]

unfoldable pub same_count : Option ℕ → Option ℕ → Bool
same_count none none = true
same_count none (some b) = false
same_count (some a) none = false
same_count (some a) (some b) = a == b

unfoldable pub copy_construct : CountPointer → Heap → Option (CountPointer × Heap)
unfolding inc_count
copy_construct ptr h = do h' ← inc_count ptr h; some (ptr, h')

-- What the new pointer and the old one are.
unfoldable pub move_construct : CountPointer → CountPointer × CountPointer
move_construct ptr = (ptr, null)

unfoldable pub assign_raw : Option ℕ → CountPointer → Heap → Option (CountPointer × Heap)
unfolding construct dec_count
assign_raw ptr p h = do (p', h') ← dec_count p h; some (construct ptr h')

unfoldable pub assign_copy : CountPointer → CountPointer → Heap → Option (CountPointer × Heap)
unfolding same_count dec_count inc_count
assign_copy ptr p h =
    if not (same_count p.count ptr.count)
    then (do (p', h') ← dec_count p h; h'' ← inc_count ptr h'; some (ptr, h''))
    else some (p, h)

-- Of another pointer than this one: this one, the other, and the heap.
unfoldable pub assign_move :
    CountPointer → CountPointer → Heap → Option (CountPointer × CountPointer × Heap)
unfolding same_count dec_count
assign_move ptr p h = do
  (p', h') ← dec_count p h
  some (if not (same_count p'.count ptr.count) then ptr else p', null, h')

unfoldable pub assign_null : CountPointer → Heap → Option (CountPointer × Heap)
unfolding dec_count
assign_null p h = do (p', h') ← dec_count p h; some (null, h')

unfoldable pub set_destructor : Option ℕ → CountPointer → CountPointer
set_destructor destructor p = record p { destructor = destructor }

-- `~CountPointer`.
unfoldable pub destroy : CountPointer → Heap → Option Heap
unfolding dec_count
destroy p h = do (p', h') ← dec_count p h; some h'
