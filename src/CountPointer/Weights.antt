-- ===== src/CountPointer/Weights.antt =====
-- What a pointer of core/zaf/count_pointer.hpp counts for among the objects that are still to be deleted.
use zaf.Prelude.{
  ℕ, ◌+◌, ◌≡◌, refl, ap, sym, ◌∙◌, Bool, false, Option, none, some, List, [], ◌∷◌, ◌++◌, ◌==◌,
  if◌then◌else◌, count, inl, inr, Bool-cases, ==→eq, eq→==, ne→==, arith,
}
use zaf.CountPointer.{CountPointer, log}
use zaf.CountPointer.Count.{hits, refs}
use zaf.CountPointer.Runs.{refs-append}

pub count-log :
    (x : ℕ) (o : Option ℕ) (l : List ℕ) → count x (log o l) ≡ count x (log o []) + count x l
unfolding log
count-log x none l = omega arith
count-log x (some y) l = omega arith

-- A pointer counts for its object if it is the last of those that share it.
unfoldable pub weight : ℕ → Option ℕ → Option ℕ → List CountPointer → ℕ
weight x none v ps = 0
weight x (some c) v ps = if refs c ps == 0 then count x (log v []) else 0

unfoldable pub live : ℕ → List CountPointer → ℕ
unfolding weight
live x [] = 0
live x (p ∷ ps) = weight x p.count p.value ps + live x ps

-- The value of a pointer is known from its counter.
abbrev pub Shares : (ℕ → Option ℕ) → List CountPointer → Type 0
Shares object [] = Unit
Shares object (p ∷ ps) = ((c : ℕ) → p.count ≡ some c → p.value ≡ object c) × Shares object ps

pub swap-weight :
    (x : ℕ) (object : ℕ → Option ℕ) (o1 o2 v1 v2 : Option ℕ) (d1 d2 : Option ℕ)
    (ps : List CountPointer)
    → ((c : ℕ) → o1 ≡ some c → v1 ≡ object c)
    → ((c : ℕ) → o2 ≡ some c → v2 ≡ object c)
    → weight x o1 v1 (record { value = v2; count = o2; destructor = d2 } ∷ ps) + weight x o2 v2 ps
      ≡ weight x o2 v2 (record { value = v1; count = o1; destructor = d1 } ∷ ps) + weight x o1 v1 ps
unfolding weight
swap-weight x object none none v1 v2 d1 d2 ps f g = refl
swap-weight x object none (some b) v1 v2 d1 d2 ps f g = ground arith
swap-weight x object (some a) none v1 v2 d1 d2 ps f g = ground arith
swap-weight x object (some a) (some b) v1 v2 d1 d2 ps f g = elim (Bool-cases (a == b)) [
  | inl e ↦
      let same : a ≡ b = ==→eq a b e in
      let value : v1 ≡ v2 = f a refl ∙ ap object same ∙ sym (g b refl) in
      let shared : refs a ps ≡ refs b ps = ap (λ c. refs c ps) same in
      let counted : count x (log v1 []) ≡ count x (log v2 []) =
        ap (λ v. count x (log v [])) value in
      ground arith
  | inr e ↦ ground arith
]

pub weight-refs :
    (x : ℕ) (o v : Option ℕ) (ps qs : List CountPointer)
    → ((c : ℕ) → refs c ps ≡ refs c qs)
    → weight x o v ps ≡ weight x o v qs
unfolding weight
weight-refs x none v ps qs h = refl
weight-refs x (some c) v ps qs h = ap (λ n. if n == 0 then count x (log v []) else 0) (h c)

-- A pointer that is not the last counts for nothing.
pub weight-shared :
    (x : ℕ) (o v : Option ℕ) (q : CountPointer) (ps : List CountPointer)
    → q.count ≡ o
    → weight x o v (q ∷ ps) ≡ 0
unfolding weight
weight-shared x none v q ps e = refl
weight-shared x (some c) v q ps e =
    let one : hits q.count c ≡ 1 = ap (λ o. hits o c) e ∙ rw (eq→== c c refl) refl in
    let many : ((hits q.count c + refs c ps) == 0) ≡ false =
      ne→== _ 0 (λ k. omega (arith, k, one)) in
    rw many refl

pub deleted-weight :
    (x : ℕ) (o v : Option ℕ) (ps : List CountPointer) (l : List ℕ)
    → count x
        (if (elim o as (λ o. Bool) [ none ↦ false | some c ↦ refs c ps == 0 ]) then log v l else l)
      ≡ weight x o v ps + count x l
unfolding weight
deleted-weight x none v ps l = omega arith
deleted-weight x (some c) v ps l = elim (Bool-cases (refs c ps == 0)) [
  | inl e ↦ rw e (count-log x v l)
  | inr e ↦ rw e (omega arith)
]

pub Shares-middle :
    (object : ℕ → Option ℕ) (front rest : List CountPointer) (p : CountPointer)
    → Shares object (front ++ p ∷ rest)
    → Shares object (p ∷ front ++ rest)
Shares-middle object [] rest p s = s
Shares-middle object (y ∷ front) rest p s =
    let t = Shares-middle object front rest p s.1 in (t.0, (s.0, t.1))

pub live-turn :
    (x : ℕ) (object : ℕ → Option ℕ) (front rest : List CountPointer) (p : CountPointer)
    → Shares object (front ++ p ∷ rest)
    → live x (front ++ p ∷ rest) ≡ live x (p ∷ front ++ rest)
unfolding live
live-turn x object [] rest p s = refl
live-turn x object (y ∷ front) rest p s =
    let shorter = live-turn x object front rest p s.1 in
    let refs_same : (c : ℕ) → refs c (front ++ p ∷ rest) ≡ refs c (p ∷ front ++ rest) =
      λ c. omega (arith, refs-append c front (p ∷ rest), refs-append c front rest) in
    let same = weight-refs x y.count y.value (front ++ p ∷ rest) (p ∷ front ++ rest) refs_same in
    let swapped =
      swap-weight x object y.count p.count y.value p.value y.destructor p.destructor (front ++ rest)
        s.0 (Shares-middle object front rest p s.1).0 in
    omega (arith, shorter, same, swapped)
