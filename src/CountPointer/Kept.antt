-- ===== src/CountPointer/Kept.antt =====
-- The operations of core/zaf/count_pointer.hpp keep the objects to be deleted and the deleted ones together.
use mathlib.Core.Option.{some-injective}
use zaf.Prelude.{
  ℕ, ◌+◌, ◌≡◌, refl, ap, sym, subst, ◌∙◌, Bool, true, false, Option, none, some, List, [], ◌∷◌,
  ◌==◌, if◌then◌else◌, count, inl, inr, Bool-cases, eq→==, ne→==, arith,
}
use zaf.CountPointer.{
  CountPointer, Heap, null, put, log, same_count, construct, assign_raw, assign_copy, assign_move,
  dec_count,
}
use zaf.CountPointer.Count.{hits, refs, is_last, IsCounted, IsDropped, dec_count-IsDropped}
use zaf.CountPointer.Assign.{inc_count-IsCounted, same_count-eq}
use zaf.CountPointer.Weights.{
  Shares, weight, live, count-log, weight-refs, weight-shared, deleted-weight,
}

-- What holds of a run with the objects `m`.
abbrev Kept : (ℕ → Option ℕ) → List CountPointer → Heap → List ℕ → Type 0
Kept object ps h m = Shares object ps × ((x : ℕ) → live x ps + count x h.deleted ≡ count x m)

pub dropped :
    (object : ℕ → Option ℕ) (p : CountPointer) (ps : List CountPointer) (h h' : Heap) (m : List ℕ)
    → h'.deleted ≡ (if is_last p ps then log p.value h.deleted else h.deleted)
    → Kept object (p ∷ ps) h m
    → Kept object ps h' m
unfolding live
dropped object p ps h h' m e k = (
  k.0.1,
  λ x. omega (arith, k.1 x, ap (count x) e, deleted-weight x p.count p.value ps h.deleted),
)

pub shared :
    (object : ℕ → Option ℕ) (p : CountPointer) (ps : List CountPointer) (h h' : Heap) (m : List ℕ)
    → h'.deleted ≡ h.deleted
    → Kept object (p ∷ ps) h m
    → Kept object (p ∷ p ∷ ps) h' m
unfolding live
shared object p ps h h' m e k = (
  (k.0.0, k.0),
  λ x. omega (arith, k.1 x, ap (count x) e, weight-shared x p.count p.value p ps refl),
)

pub moved :
    (object : ℕ → Option ℕ) (p q : CountPointer) (ps : List CountPointer) (h : Heap) (m : List ℕ)
    → p.count ≡ q.count
    → ((c : ℕ) → p.count ≡ some c → p.value ≡ object c)
    → Kept object (q ∷ ps) h m
    → Kept object (p ∷ null ∷ ps) h m
unfolding live
moved object p q ps h m e f k =
    ((f, ((λ c n. cc), k.0.1)), λ x. omega (arith, k.1 x, same_weight x, weight-null x))
  where
    weight-null : (x : ℕ) → weight x none none ps ≡ 0
    weight-null x = unfold weight in refl

    by_count :
        (x : ℕ) (o1 o2 : Option ℕ)
        → o1 ≡ o2
        → ((c : ℕ) → o1 ≡ some c → p.value ≡ object c)
        → ((c : ℕ) → o2 ≡ some c → q.value ≡ object c)
        → weight x o1 p.value ps ≡ weight x o2 q.value ps
    by_count x none none e f g = unfold weight in refl
    by_count x none (some b) e f g = cc
    by_count x (some a) none e f g = cc
    by_count x (some a) (some b) e f g =
        let value : p.value ≡ q.value = f b e ∙ sym (g b refl) in
        ap (λ o. weight x o p.value ps) e ∙ ap (λ v. weight x (some b) v ps) value

    same_weight : (x : ℕ) → weight x p.count p.value (null ∷ ps) ≡ weight x q.count q.value ps
    same_weight x =
        weight-refs x p.count p.value (null ∷ ps) ps (λ c. omega arith)
        ∙ by_count x p.count q.count e f k.0.0

Shares-put :
    (object : ℕ → Option ℕ) (n : ℕ) (v : Option ℕ) (ps : List CountPointer)
    → refs n ps ≡ 0
    → Shares object ps
    → Shares (put n v object) ps
unfolding put
Shares-put object n v [] h s = tt
Shares-put object n v (p ∷ ps) h s = (
  λ c e.
      let own : hits p.count n ≡ 0 = omega (arith, h) in
      let other : (c == n) ≡ false = ne→== c n (λ k. absurd (omega (arith, own, found c e k))) in
      rw other (s.0 c e),
  Shares-put object n v ps (omega (arith, h)) s.1,
)
  where
    found : (c : ℕ) → p.count ≡ some c → c ≡ n → hits p.count n ≡ 1
    found c e k = ap (λ o. hits o n) (e ∙ ap some k) ∙ rw (eq→== n n refl) refl

pub constructed :
    (object : ℕ → Option ℕ) (ptr : Option ℕ) (ps : List CountPointer) (h : Heap) (m : List ℕ)
    → refs h.next ps ≡ 0
    → Kept object ps h m
    → (object' : ℕ → Option ℕ) × Kept object'
        ((construct ptr h).0 ∷ ps)
        (construct ptr h).1
        (log ptr m)
unfolding construct
constructed object none ps h m u k = (
  object,
  (
    ((λ c n. cc), k.0),
    λ x.
        let none_more : live x (null ∷ ps) ≡ live x ps = unfold live weight in omega arith in
        let same : count x (log none m) ≡ count x m = unfold log in refl in
        omega (arith, k.1 x, none_more, same),
  ),
)
constructed object (some ptr) ps h m u k = (
  put h.next (some ptr) object,
  (
    (own, Shares-put object h.next (some ptr) ps u k.0),
    λ x. omega (arith, k.1 x, last x, count-log x (some ptr) m),
  ),
)
  where
    new : CountPointer
    new = record { value = some ptr; count = some h.next; destructor = none }

    own : (c : ℕ) → some h.next ≡ some c → some ptr ≡ put h.next (some ptr) object c
    own c e =
        subst (λ k. some ptr ≡ put h.next (some ptr) object k) (some-injective _ _ e)
          (unfold put in rw (eq→== h.next h.next refl) refl)

    last : (x : ℕ) → live x (new ∷ ps) ≡ count x (log (some ptr) []) + live x ps
    last x = unfold live weight in rw u refl

-- The object function and what holds, of the pointers and the heap that an operation gives.
abbrev pub Some : List CountPointer → Heap → List ℕ → Type 0
Some ps h m = (object : ℕ → Option ℕ) × Kept object ps h m

pub raw-Kept :
    (ptr : Option ℕ) (p p' : CountPointer) (ps : List CountPointer) (h h' : Heap) (m : List ℕ)
    → assign_raw ptr p h ≡ some (p', h')
    → IsCounted (p ∷ ps) h
    → Some (p ∷ ps) h m
    → Some (p' ∷ ps) h' (log ptr m)
unfolding assign_raw
raw-Kept ptr p p' ps h h' m e v i =
    let d = dec_count-IsDropped p ps h v in
    let result : assign_raw ptr p h ≡ some (construct ptr d.1) = rw d.2 refl in
    let less = dropped i.0 p ps h d.1 m d.3.deleted_eq i.1 in
    subst (λ z. Some (z.0 ∷ ps) z.1 (log ptr m)) (some-injective _ _ (sym result ∙ e))
      (constructed i.0 ptr ps d.1 m (d.3.counted.unused d.1.next (omega arith)) less)

pub copy-Kept :
    (q p p' : CountPointer) (ps : List CountPointer) (h h' : Heap) (m : List ℕ)
    → assign_copy q p h ≡ some (p', h')
    → IsCounted (p ∷ q ∷ ps) h
    → Some (p ∷ q ∷ ps) h m
    → Some (p' ∷ q ∷ ps) h' m
unfolding assign_copy
copy-Kept q p p' ps h h' m e v i = elim (Bool-cases (same_count p.count q.count)) [
  | inl b ↦
      let result : assign_copy q p h ≡ some (p, h) = rw b refl in
      subst (λ z. Some (z.0 ∷ q ∷ ps) z.1 m) (some-injective _ _ (sym result ∙ e)) i
  | inr b ↦
      let d = dec_count-IsDropped p (q ∷ ps) h v in
      let c = inc_count-IsCounted q ps d.1 d.3.counted v.few in
      let result : assign_copy q p h ≡ some (q, c.0) = rw (b, d.2, c.1) refl in
      let less = dropped i.0 p (q ∷ ps) h d.1 m d.3.deleted_eq i.1 in
      subst (λ z. Some (z.0 ∷ q ∷ ps) z.1 m) (some-injective _ _ (sym result ∙ e))
        (i.0, shared i.0 q ps d.1 c.0 m c.3 less)
]

pub move-Kept :
    (q p p' q' : CountPointer) (ps : List CountPointer) (h h' : Heap) (m : List ℕ)
    → assign_move q p h ≡ some (p', q', h')
    → IsCounted (p ∷ q ∷ ps) h
    → Some (p ∷ q ∷ ps) h m
    → Some (p' ∷ q' ∷ ps) h' m
unfolding assign_move
move-Kept q p p' q' ps h h' m e v i = elim (Bool-cases (same_count d.0.count q.count)) [
  | inl b ↦
      let result : assign_move q p h ≡ some (d.0, null, d.1) = rw (d.2, b) refl in
      subst (λ z. Some (z.0 ∷ z.1 ∷ ps) z.2 m) (some-injective _ _ (sym result ∙ e))
        (i.0, moved i.0 d.0 q ps d.1 m (same_count-eq _ _ b) left less)
  | inr b ↦
      let result : assign_move q p h ≡ some (q, null, d.1) = rw (d.2, b) refl in
      subst (λ z. Some (z.0 ∷ z.1 ∷ ps) z.2 m) (some-injective _ _ (sym result ∙ e))
        (i.0, moved i.0 q q ps d.1 m refl i.1.0.1.0 less)
]
  where
    d :
        (p'' : CountPointer) × (h'' : Heap) × (dec_count p h ≡ some (p'', h''))
        × IsDropped p (q ∷ ps) h p'' h''
    d = dec_count-IsDropped p (q ∷ ps) h v

    less : Kept i.0 (q ∷ ps) d.1 m
    less = dropped i.0 p (q ∷ ps) h d.1 m d.3.deleted_eq i.1

    left : (c : ℕ) → d.0.count ≡ some c → d.0.value ≡ i.0 c
    left =
        subst (λ r. (c : ℕ) → r.count ≡ some c → r.value ≡ i.0 c) (sym d.3.left)
          (either (is_last p (q ∷ ps)))
      where
        either :
            (b : Bool)
            → (c : ℕ) → (if b then null else p).count ≡ some c
            → (if b then null else p).value ≡ i.0 c
        either true c n = cc
        either false c n = i.1.0.0 c n
