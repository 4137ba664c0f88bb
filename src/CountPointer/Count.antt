-- ===== src/CountPointer/Count.antt =====
-- Every counter of core/zaf/count_pointer.hpp is the number of the pointers that share it, so no
-- operation touches a deleted counter and no object is deleted that another pointer has.
use zaf.Prelude.{
  ℕ, suc, ◌+◌, ◌-◌, ◌%◌, ◌^◌, ◌≤◌, ◌<◌, ◌≡◌, refl, ap, ◌∙◌, Bool, false, Option, none, some, List,
  [], ◌∷◌, ◌==◌, if◌then◌else◌, length, inl, inr, Bool-cases, ==→eq, eq→==, ne→==, arith,
}
use zaf.CountPointer.{CountPointer, Heap, null, put, log, dec_count}

-- Whether a pointer counts for a counter, and how many do.
abbrev pub hits : Option ℕ → ℕ → ℕ
hits none c = 0
hits (some k) c = if c == k then 1 else 0

abbrev pub refs : ℕ → List CountPointer → ℕ
refs c [] = 0
refs c (p ∷ ps) = hits p.count c + refs c ps

abbrev pub cell : ℕ → Option ℕ
cell n = if n == 0 then none else some n

-- The counters of the pointers that there are.
pub record IsCounted (ps : List CountPointer) (h : Heap) : Type 0 where
  pub cells : (c : ℕ) → h.counters c ≡ cell (refs c ps)
  pub unused : (c : ℕ) → h.next ≤ c → refs c ps ≡ 0
  pub few : length ps < 2 ^ 32

hits_le : (o : Option ℕ) (c : ℕ) → hits o c ≤ 1
hits_le none c = omega arith
hits_le (some k) c = ground arith

pub refs_le : (c : ℕ) (ps : List CountPointer) → refs c ps ≤ length ps
refs_le c [] = omega arith
refs_le c (p ∷ ps) = omega (arith, hits_le p.count c, refs_le c ps)

-- No other pointer has the object.
abbrev pub is_last : CountPointer → List CountPointer → Bool
is_last p ps = elim p.count [ none ↦ false | some c ↦ refs c ps == 0 ]

-- What `dec_count` of a pointer does, besides the others.
pub record IsDropped (p : CountPointer) (ps : List CountPointer) (h : Heap) (p' : CountPointer)
    (h' : Heap) : Type 0 where
  pub counted : IsCounted ps h'
  pub left : p' ≡ (if is_last p ps then null else p)
  pub deleted_eq : h'.deleted ≡ (if is_last p ps then log p.value h.deleted else h.deleted)
  pub destructed_eq :
      h'.destructed ≡ (if is_last p ps then log p.destructor h.destructed else h.destructed)

abbrev pub with_count : CountPointer → Option ℕ → CountPointer
with_count p o = record p { count = o }

put-cells :
    (p : CountPointer) (c : ℕ) (ps : List CountPointer) (h : Heap)
    → IsCounted (with_count p (some c) ∷ ps) h
    → (k : ℕ) → put c (cell (refs c ps)) h.counters k ≡ cell (refs k ps)
unfolding put
put-cells p c ps h v k = elim (Bool-cases (k == c)) [
  | inl e ↦ rw (e, ==→eq k c e)
  | inr e ↦
      let others : hits (some c) k + refs k ps ≡ refs k ps = rw e (omega arith) in
      rw e (v.cells k ∙ ap cell others)
]

pub cell-suc : (n : ℕ) → cell (suc n) ≡ some (suc n)
cell-suc n = rw (ne→== (suc n) 0 (λ e. absurd (omega (arith, e))))

-- The counter of a pointer, with itself.
pub own_cell :
    (p : CountPointer) (c : ℕ) (ps : List CountPointer) (h : Heap)
    → IsCounted (with_count p (some c) ∷ ps) h
    → h.counters c ≡ some (suc (refs c ps))
own_cell p c ps h v =
    let one : hits (some c) c + refs c ps ≡ suc (refs c ps) = rw (eq→== c c refl) (omega arith) in
    v.cells c ∙ ap cell one ∙ cell-suc (refs c ps)

-- A pointer goes; its object is deleted if no other pointer has it.
pub dec_count-IsDropped :
    (p : CountPointer) (ps : List CountPointer) (h : Heap)
    → IsCounted (p ∷ ps) h
    → (p' : CountPointer) × (h' : Heap) × (dec_count p h ≡ some (p', h')) × IsDropped p ps h p' h'
unfolding dec_count
dec_count-IsDropped p ps h v = go p.count v
  where
    go :
        (o : Option ℕ)
        → IsCounted (with_count p o ∷ ps) h
        → (p' : CountPointer) × (h' : Heap) × (dec_count (with_count p o) h ≡ some (p', h'))
          × IsDropped (with_count p o) ps h p' h'
    go none v = (
      with_count p none,
      h,
      refl,
      record {
        counted = record {
          cells = λ c. v.cells c ∙ ap cell (omega arith);
          unused = λ c n. omega (arith, v.unused c n);
          few = omega (arith, v.few);
        };
        left = refl;
        deleted_eq = refl;
        destructed_eq = refl;
      },
    )
    go (some c) v =
        let one_less : (suc (refs c ps) + (2 ^ 32 - 1)) % 2 ^ 32 ≡ refs c ps =
          omega (arith, v.few, refs_le c ps) in
        elim (Bool-cases (refs c ps == 0)) [
          | inl e ↦ (
            null,
            record h {
              counters = put c (cell (refs c ps)) h.counters;
              deleted = log p.value h.deleted;
              destructed = log p.destructor h.destructed;
            },
            rw (own_cell p c ps h v, one_less, e),
            record {
              counted = record {
                cells = put-cells p c ps h v;
                unused = λ k n. omega (arith, v.unused k n);
                few = omega (arith, v.few);
              };
              left = rw e refl;
              deleted_eq = rw e refl;
              destructed_eq = rw e refl;
            },
          )
          | inr e ↦ (
            with_count p (some c),
            record h { counters = put c (cell (refs c ps)) h.counters },
            rw (own_cell p c ps h v, one_less, e),
            record {
              counted = record {
                cells = put-cells p c ps h v;
                unused = λ k n. omega (arith, v.unused k n);
                few = omega (arith, v.few);
              };
              left = rw e refl;
              deleted_eq = rw e refl;
              destructed_eq = rw e refl;
            },
          )
        ]
