-- ===== src/CountPointer/Runs.antt =====
-- Any sequence of operations on the pointers of core/zaf/count_pointer.hpp.
use mathlib.Core.Option.{some-injective}
use zaf.Prelude.{
  ℕ, suc, ◌+◌, ◌^◌, ◌<◌, ◌≡◌, ◌≢◌, refl, ap, sym, subst, ◌∙◌, Option, none, some, List, [], ◌∷◌,
  ◌++◌, length, arith,
}
use zaf.CountPointer.{
  CountPointer, Heap, null, construct, copy_construct, move_construct, assign_raw, assign_copy,
  assign_move, set_destructor, destroy,
}
use zaf.CountPointer.Count.{refs, IsCounted}
use zaf.CountPointer.Assign.{
  like, construct-IsCounted, copy_construct-IsCounted, assign_raw-IsCounted, assign_copy-IsCounted,
  assign_move-IsCounted, destroy-IsCounted,
}

-- The pointers that there are, with the heap.
pub record Program : Type 0 where
  pub pointers : List CountPointer
  pub heap : Heap

abbrev pub program : List CountPointer → Heap → Program
program ps h = record { pointers = ps; heap = h }

-- An operation on the first pointer, or on the first two; the pointers may be put in another order.
-- There is room for less than 2 ^ 32 pointers.
pub data Step : Program → Program → Type 0 where
  constructs :
      {ps : List CountPointer} {h : Heap} (ptr : Option ℕ)
      → suc (length ps) < 2 ^ 32
      → Step (program ps h) (program ((construct ptr h).0 ∷ ps) (construct ptr h).1)
  copies :
      {p q : CountPointer} {ps : List CountPointer} {h h' : Heap}
      → suc (suc (length ps)) < 2 ^ 32
      → copy_construct p h ≡ some (q, h')
      → Step (program (p ∷ ps) h) (program (q ∷ p ∷ ps) h')
  moves :
      {p : CountPointer} {ps : List CountPointer} {h : Heap}
      → suc (suc (length ps)) < 2 ^ 32
      → Step (program (p ∷ ps) h) (program ((move_construct p).0 ∷ (move_construct p).1 ∷ ps) h)
  takes_raw :
      {p p' : CountPointer} {ps : List CountPointer} {h h' : Heap} (ptr : Option ℕ)
      → assign_raw ptr p h ≡ some (p', h')
      → Step (program (p ∷ ps) h) (program (p' ∷ ps) h')
  takes_copy :
      {p p' q : CountPointer} {ps : List CountPointer} {h h' : Heap}
      → assign_copy q p h ≡ some (p', h')
      → Step (program (p ∷ q ∷ ps) h) (program (p' ∷ q ∷ ps) h')
  takes_over :
      {p p' q q' : CountPointer} {ps : List CountPointer} {h h' : Heap}
      → assign_move q p h ≡ some (p', q', h')
      → Step (program (p ∷ q ∷ ps) h) (program (p' ∷ q' ∷ ps) h')
  ends :
      {p : CountPointer} {ps : List CountPointer} {h h' : Heap}
      → destroy p h ≡ some h'
      → Step (program (p ∷ ps) h) (program ps h')
  sets_destructor :
      {p : CountPointer} {ps : List CountPointer} {h : Heap} (destructor : Option ℕ)
      → Step (program (p ∷ ps) h) (program (set_destructor destructor p ∷ ps) h)
  turns :
      {ps : List CountPointer} {h : Heap} (front rest : List CountPointer) (p : CountPointer)
      → ps ≡ front ++ p ∷ rest
      → Step (program ps h) (program (p ∷ front ++ rest) h)

abbrev pub empty_heap : Heap
empty_heap = record { counters = λ c. none; next = 0; deleted = []; destructed = [] }

pub data Reach : Program → Type 0 where
  start : Reach (program [] empty_heap)
  later : {s t : Program} → Reach s → Step s t → Reach t

pub refs-append : (c : ℕ) (xs ys : List CountPointer) → refs c (xs ++ ys) ≡ refs c xs + refs c ys
refs-append c [] ys = omega arith
refs-append c (x ∷ xs) ys = omega (arith, refs-append c xs ys)

length-middle :
    (xs ys : List CountPointer) (p : CountPointer) → length (xs ++ p ∷ ys) ≡ suc (length (xs ++ ys))
length-middle [] ys p = refl
length-middle (x ∷ xs) ys p = ap suc (length-middle xs ys p)

abbrev Right : Program → Type 0
Right s = IsCounted s.pointers s.heap

Step-Right : {s t : Program} → Step s t → Right s → Right t
unfolding copy_construct move_construct set_destructor
Step-Right (constructs {ps} {h} ptr n) v = (construct-IsCounted ptr ps h v n).1
Step-Right (copies {p} {q} {ps} {h} {h'} n e) v =
    let r = copy_construct-IsCounted p ps h v n in
    subst (λ z. IsCounted (z.0 ∷ p ∷ ps) z.1) (some-injective _ _ (sym r.1 ∙ e)) r.2
Step-Right (moves {p} {ps} {h} n) v = like (p ∷ ps) (p ∷ null ∷ ps) h (λ c. omega arith) n v
Step-Right (takes_raw {p} {p'} {ps} {h} {h'} ptr e) v =
    let r = assign_raw-IsCounted ptr p ps h v in
    subst (λ z. IsCounted (z.0 ∷ ps) z.1) (some-injective _ _ (sym r.2 ∙ e)) r.4
Step-Right (takes_copy {p} {p'} {q} {ps} {h} {h'} e) v =
    let r = assign_copy-IsCounted q p ps h v in
    subst (λ z. IsCounted (z.0 ∷ q ∷ ps) z.1) (some-injective _ _ (sym r.2 ∙ e)) r.4
Step-Right (takes_over {p} {p'} {q} {q'} {ps} {h} {h'} e) v =
    let r = assign_move-IsCounted q p ps h v in
    subst (λ z. IsCounted (z.0 ∷ z.1 ∷ ps) z.2) (some-injective _ _ (sym r.2 ∙ e)) r.4
Step-Right (ends {p} {ps} {h} {h'} e) v =
    let r = destroy-IsCounted p ps h v in
    subst (λ z. IsCounted ps z) (some-injective _ _ (sym r.1 ∙ e)) r.2
Step-Right (sets_destructor {p} {ps} {h} d) v =
    like (p ∷ ps) (set_destructor d p ∷ ps) h (λ c. refl) v.few v
Step-Right (turns {ps} {h} front rest p e) v =
    let w = subst (λ l. IsCounted l h) e v in
    like (front ++ p ∷ rest) (p ∷ front ++ rest) h
      (λ c. omega (arith, refs-append c front (p ∷ rest), refs-append c front rest))
      (omega (arith, w.few, length-middle front rest p)) w

start-Right : Right (program [] empty_heap)
start-Right = record { cells = λ c. refl; unused = λ c l. refl; few = omega arith }

pub Reach-Right : {s : Program} → Reach s → Right s
Reach-Right start = start-Right
Reach-Right (later r st) = Step-Right st (Reach-Right r)

some≢none : {A : Type 0} {a : A} → some a ≢ none
some≢none = cc

-- In every run of constructions, copies, moves, assignments, settings of destructors and destructions of
-- pointers, every counter
-- is the number of the pointers that share it and is deleted when that is zero, and no operation on
-- a pointer touches a deleted counter: a raw pointer, another pointer or its end is taken without an
-- exception.
pub Reach-IsCounted :
    {p q : CountPointer} {ps : List CountPointer} {h : Heap} (ptr : Option ℕ)
    → Reach (program (p ∷ q ∷ ps) h)
    → IsCounted (p ∷ q ∷ ps) h
      × (destroy p h ≢ none)
      × (assign_raw ptr p h ≢ none)
      × (assign_copy q p h ≢ none)
      × (assign_move q p h ≢ none)
Reach-IsCounted {p} {q} {ps} {h} ptr r =
    let v = Reach-Right r in
    (
      v,
      λ e. some≢none (sym (destroy-IsCounted p (q ∷ ps) h v).1 ∙ e),
      λ e. some≢none (sym (assign_raw-IsCounted ptr p (q ∷ ps) h v).2 ∙ e),
      λ e. some≢none (sym (assign_copy-IsCounted q p ps h v).2 ∙ e),
      λ e. some≢none (sym (assign_move-IsCounted q p ps h v).2 ∙ e),
    )
