-- ===== src/CountPointer/Assign.antt =====
-- Copies, moves and assignments of the pointers of core/zaf/count_pointer.hpp keep every counter right.
use zaf.Prelude.{
  ℕ, suc, ◌+◌, ◌%◌, ◌^◌, ◌<◌, ◌≡◌, refl, ap, sym, ◌∙◌, true, false, not, Option, none, some, List,
  ◌∷◌, ◌==◌, if◌then◌else◌, length, inl, inr, Bool-cases, ==→eq, ne→==, arith,
}
use mathlib.Core.Bool.{false≢true}
use zaf.CountPointer.{
  CountPointer, Heap, null, put, log, construct, inc_count, dec_count, same_count, copy_construct,
  assign_raw, assign_copy, assign_move, destroy,
}
use zaf.CountPointer.Count.{
  hits, refs, cell, IsCounted, is_last, IsDropped, with_count, own_cell, cell-suc, refs_le,
  dec_count-IsDropped,
}

-- Only which counters are shared matters.
pub like :
    (ps qs : List CountPointer) (h : Heap)
    → ((c : ℕ) → refs c qs ≡ refs c ps)
    → length qs < 2 ^ 32
    → IsCounted ps h
    → IsCounted qs h
like ps qs h e n v = record {
  cells = λ c. v.cells c ∙ ap cell (sym (e c));
  unused = λ c l. e c ∙ v.unused c l;
  few = n;
}

-- One more pointer that shares a counter.
pub inc_count-IsCounted :
    (p : CountPointer) (ps : List CountPointer) (h : Heap)
    → IsCounted (p ∷ ps) h
    → length (p ∷ p ∷ ps) < 2 ^ 32
    → (h' : Heap) × (inc_count p h ≡ some h') × IsCounted (p ∷ p ∷ ps) h' × (h'.deleted ≡ h.deleted)
unfolding inc_count put
inc_count-IsCounted p ps h v n = go p.count v
  where
    go :
        (o : Option ℕ)
        → IsCounted (with_count p o ∷ ps) h
        → (h' : Heap) × (inc_count (with_count p o) h ≡ some h')
          × IsCounted (with_count p o ∷ with_count p o ∷ ps) h'
          × (h'.deleted ≡ h.deleted)
    go none v = (
      h,
      refl,
      like (with_count p none ∷ ps) (with_count p none ∷ with_count p none ∷ ps) h
          (λ c. omega arith) n v,
      refl,
    )
    go (some c) v =
        let more : (suc (refs c ps) + 1) % 2 ^ 32 ≡ suc (suc (refs c ps)) =
          omega (arith, n, refs_le c ps) in
        (
          record h { counters = put c (some (suc (suc (refs c ps)))) h.counters },
          rw (own_cell p c ps h v, more),
          record {
            cells = λ k. elim (Bool-cases (k == c)) [
              | inl e ↦
                  let two : 1 + (1 + refs k ps) ≡ suc (suc (refs c ps)) =
                    omega (arith, ap (λ k. refs k ps) (==→eq k c e)) in
                  rw e (sym (ap cell two ∙ cell-suc (suc (refs c ps))))
              | inr e ↦
                  let same : hits (some c) k + refs k ps ≡ 0 + (0 + refs k ps) =
                    rw e (omega arith) in
                  rw e (v.cells k ∙ ap cell same)
            ];
            unused = λ k l. omega (arith, v.unused k l);
            few = n;
          },
          refl,
        )

pub same_count-eq : (a b : Option ℕ) → same_count a b ≡ true → a ≡ b
unfolding same_count
same_count-eq none none h = refl
same_count-eq none (some b) h = absurd (false≢true h)
same_count-eq (some a) none h = absurd (false≢true h)
same_count-eq (some a) (some b) h = ap some (==→eq a b h)

-- A copy of a pointer succeeds and counts for the same counter; nothing is deleted.
pub copy_construct-IsCounted :
    (p : CountPointer) (ps : List CountPointer) (h : Heap)
    → IsCounted (p ∷ ps) h
    → length (p ∷ p ∷ ps) < 2 ^ 32
    → (h' : Heap) × (copy_construct p h ≡ some (p, h'))
      × IsCounted (p ∷ p ∷ ps) h'
      × (h'.deleted ≡ h.deleted)
unfolding copy_construct
copy_construct-IsCounted p ps h v n =
    let r = inc_count-IsCounted p ps h v n in (r.0, rw r.1 refl, r.2, r.3)

-- If every counter is the number of the pointers that share it:
-- The last pointer to an object deletes it, with the destructor called; any other leaves it. Either
-- way the counters of the other pointers stay right.
pub destroy-IsCounted :
    (p : CountPointer) (ps : List CountPointer) (h : Heap)
    → IsCounted (p ∷ ps) h
    → (h' : Heap) × (destroy p h ≡ some h')
      × IsCounted ps h'
      × (h'.deleted ≡ (if is_last p ps then log p.value h.deleted else h.deleted))
      × (h'.destructed ≡ (if is_last p ps then log p.destructor h.destructed else h.destructed))
unfolding destroy
destroy-IsCounted p ps h v =
    let d = dec_count-IsDropped p ps h v in
    (d.1, rw d.2 refl, d.3.counted, d.3.deleted_eq, d.3.destructed_eq)

-- If every counter is the number of the pointers that share it:
-- Assigning a copy to a pointer, of its own object or another one, succeeds; the pointer then shares
-- the other's counter, and its old object is deleted if no other pointer has it and it changes.
pub assign_copy-IsCounted :
    (ptr p : CountPointer) (ps : List CountPointer) (h : Heap)
    → IsCounted (p ∷ ptr ∷ ps) h
    → (p' : CountPointer) × (h' : Heap) × (assign_copy ptr p h ≡ some (p', h'))
      × (p'.count ≡ ptr.count)
      × IsCounted (p' ∷ ptr ∷ ps) h'
      × (h'.deleted ≡ (
          if not (same_count p.count ptr.count)
          then (if is_last p (ptr ∷ ps) then log p.value h.deleted else h.deleted)
          else h.deleted))
unfolding assign_copy
assign_copy-IsCounted ptr p ps h v = elim (Bool-cases (same_count p.count ptr.count)) [
  | inl e ↦ (p, h, rw e refl, same_count-eq _ _ e, v, rw e refl)
  | inr e ↦
      let d = dec_count-IsDropped p (ptr ∷ ps) h v in
      let i = inc_count-IsCounted ptr ps d.1 d.3.counted v.few in
      (ptr, i.0, rw (e, d.2, i.1) refl, refl, i.2, rw e (i.3 ∙ d.3.deleted_eq))
]

-- If every counter is the number of the pointers that share it:
-- Moving another pointer into a pointer succeeds; it then has the other's counter, the other is
-- null, and the old object is deleted if no other pointer has it.
pub assign_move-IsCounted :
    (ptr p : CountPointer) (ps : List CountPointer) (h : Heap)
    → IsCounted (p ∷ ptr ∷ ps) h
    → (p' : CountPointer) × (h' : Heap) × (assign_move ptr p h ≡ some (p', null, h'))
      × (p'.count ≡ ptr.count)
      × IsCounted (p' ∷ null ∷ ps) h'
      × (h'.deleted ≡ (if is_last p (ptr ∷ ps) then log p.value h.deleted else h.deleted))
unfolding assign_move
assign_move-IsCounted ptr p ps h v = elim (Bool-cases (same_count d.0.count ptr.count)) [
  | inl e ↦ (
    d.0,
    d.1,
    rw (d.2, e) refl,
    same_count-eq _ _ e,
    moved d.0 (same_count-eq _ _ e),
    d.3.deleted_eq,
  )
  | inr e ↦ (ptr, d.1, rw (d.2, e) refl, refl, moved ptr refl, d.3.deleted_eq)
]
  where
    d :
        (p' : CountPointer) × (h' : Heap) × (dec_count p h ≡ some (p', h'))
        × IsDropped p (ptr ∷ ps) h p' h'
    d = dec_count-IsDropped p (ptr ∷ ps) h v

    moved : (q : CountPointer) → q.count ≡ ptr.count → IsCounted (q ∷ null ∷ ps) d.1
    moved q e =
        like (ptr ∷ ps) (q ∷ null ∷ ps) d.1 (λ c. omega (arith, ap (λ o. hits o c) e)) v.few
          d.3.counted

pub construct-IsCounted :
    (ptr : Option ℕ) (ps : List CountPointer) (h : Heap)
    → IsCounted ps h
    → suc (length ps) < 2 ^ 32
    → ((construct ptr h).0.value ≡ ptr)
      × IsCounted ((construct ptr h).0 ∷ ps) (construct ptr h).1
      × ((construct ptr h).1.deleted ≡ h.deleted)
unfolding construct put
construct-IsCounted none ps h v n = (refl, like ps (null ∷ ps) h (λ c. omega arith) n v, refl)
construct-IsCounted (some ptr) ps h v n = (
  refl,
  record {
    cells = λ k. elim (Bool-cases (k == h.next)) [
      | inl e ↦
          let one : 1 + refs k ps ≡ 1 =
            omega (arith, v.unused k (omega (arith, ==→eq k h.next e))) in
          rw e (sym (ap cell one))
      | inr e ↦
          let same : 0 + refs k ps ≡ refs k ps = omega arith in
          rw e (v.cells k ∙ ap cell (sym same))
    ];
    unused = λ k l.
        let far : (k == h.next) ≡ false = ne→== k h.next (λ e. absurd (omega (arith, e, l))) in
        rw far (omega (arith, v.unused k (omega (arith, l))));
    few = n;
  },
  refl,
)

-- If every counter is the number of the pointers that share it:
-- Taking a raw pointer succeeds: it gets a counter of its own, and the old object is deleted if no
-- other pointer has it.
pub assign_raw-IsCounted :
    (ptr : Option ℕ) (p : CountPointer) (ps : List CountPointer) (h : Heap)
    → IsCounted (p ∷ ps) h
    → (p' : CountPointer) × (h' : Heap) × (assign_raw ptr p h ≡ some (p', h'))
      × (p'.value ≡ ptr)
      × IsCounted (p' ∷ ps) h'
      × (h'.deleted ≡ (if is_last p ps then log p.value h.deleted else h.deleted))
unfolding assign_raw
assign_raw-IsCounted ptr p ps h v =
    let d = dec_count-IsDropped p ps h v in
    let c = construct-IsCounted ptr ps d.1 d.3.counted v.few in
    ((construct ptr d.1).0, (construct ptr d.1).1, rw d.2 refl, c.0, c.1, c.2 ∙ d.3.deleted_eq)
