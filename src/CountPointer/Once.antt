-- ===== src/CountPointer/Once.antt =====
-- Every object that is given to pointers of core/zaf/count_pointer.hpp is deleted once, with the last of them.
use mathlib.Core.Option.{some-injective}
use zaf.Prelude.{ℕ, ◌+◌, ◌≡◌, refl, ap, sym, subst, ◌∙◌, none, some, List, [], ◌∷◌, count, arith}
use zaf.CountPointer.{Heap, log, copy_construct, move_construct, set_destructor, destroy}
use zaf.CountPointer.Count.{dec_count-IsDropped}
use zaf.CountPointer.Assign.{copy_construct-IsCounted}
use zaf.CountPointer.Runs.{
  Program, program, constructs, copies, moves, takes_raw, takes_copy, takes_over, ends,
  sets_destructor, turns, Reach, start, later, Reach-Right,
}
use zaf.CountPointer.Weights.{Shares-middle, live, live-turn}
use zaf.CountPointer.Kept.{
  Some, dropped, shared, moved, constructed, raw-Kept, copy-Kept, move-Kept,
}

-- The objects that the pointers of a run were given.
abbrev pub made : {s : Program} → Reach s → List ℕ
made start = []
made (later r (constructs ptr n)) = log ptr (made r)
made (later r (copies n e)) = made r
made (later r (moves n)) = made r
made (later r (takes_raw ptr e)) = log ptr (made r)
made (later r (takes_copy e)) = made r
made (later r (takes_over e)) = made r
made (later r (ends e)) = made r
made (later r (sets_destructor destructor)) = made r
made (later r (turns front rest p e)) = made r

Reach-Kept : {s : Program} (r : Reach s) → Some s.pointers s.heap (made r)
unfolding copy_construct move_construct set_destructor destroy live
Reach-Kept start = (λ c. none, (tt, λ x. refl))
Reach-Kept (later r (constructs {ps} {h} ptr n)) =
    let i = Reach-Kept r in
    constructed i.0 ptr ps h (made r) ((Reach-Right r).unused h.next (omega arith)) i.1
Reach-Kept (later r (copies {p} {q} {ps} {h} {h'} n e)) =
    let i = Reach-Kept r in
    let c = copy_construct-IsCounted p ps h (Reach-Right r) n in
    subst (λ z. Some (z.0 ∷ p ∷ ps) z.1 (made r)) (some-injective _ _ (sym c.1 ∙ e))
      (i.0, shared i.0 p ps h c.0 (made r) c.3 i.1)
Reach-Kept (later r (moves {p} {ps} {h} n)) =
    let i = Reach-Kept r in (i.0, moved i.0 p p ps h (made r) refl i.1.0.0 i.1)
Reach-Kept (later r (takes_raw {p} {p'} {ps} {h} {h'} ptr e)) =
    raw-Kept ptr p p' ps h h' (made r) e (Reach-Right r) (Reach-Kept r)
Reach-Kept (later r (takes_copy {p} {p'} {q} {ps} {h} {h'} e)) =
    copy-Kept q p p' ps h h' (made r) e (Reach-Right r) (Reach-Kept r)
Reach-Kept (later r (takes_over {p} {p'} {q} {q'} {ps} {h} {h'} e)) =
    move-Kept q p p' q' ps h h' (made r) e (Reach-Right r) (Reach-Kept r)
Reach-Kept (later r (ends {p} {ps} {h} {h'} e)) =
    let i = Reach-Kept r in
    let d = dec_count-IsDropped p ps h (Reach-Right r) in
    let result : destroy p h ≡ some d.1 = rw d.2 refl in
    subst (λ z. Some ps z (made r)) (some-injective _ _ (sym result ∙ e))
      (i.0, dropped i.0 p ps h d.1 (made r) d.3.deleted_eq i.1)
Reach-Kept (later r (sets_destructor destructor)) = Reach-Kept r
Reach-Kept (later r (turns {ps} {h} front rest p e)) =
    let i = subst (λ l. Some l h (made r)) e (Reach-Kept r) in
    (
      i.0,
      (
        Shares-middle i.0 front rest p i.1.0,
        λ x. sym (ap (λ n. n + count x h.deleted) (live-turn x i.0 front rest p i.1.0)) ∙ i.1.1 x,
      ),
    )

-- In every run of constructions, copies, moves, assignments and destructions after which no pointer is
-- left, the objects that were deleted are those that the pointers were given, each as often as it
-- was given: none leaks, and none is deleted twice.
pub Reach-deleted :
    {h : Heap} (r : Reach (program [] h)) (x : ℕ) → count x h.deleted ≡ count x (made r)
unfolding live
Reach-deleted r x = omega (arith, (Reach-Kept r).1.1 x)
