-- ===== src/Prelude/Back.antt =====
-- Vectors used from their end: the last element, `pop_back`, and the removal of an element by
-- putting the last one in its place.
use Prim.Native.Nat.{ℕ, zero, suc, ◌-◌, ◌<◌}
use mathlib.Core.Path.{◌≡◌, refl, ap, sym, ◌∙◌}
use mathlib.Core.List.{List, [], ◌∷◌, ◌++◌, map, Perm}
use mathlib.Core.List.Perm
use mathlib.Core.Option.{Option, none, some}
use native.Mathlib.Omega.{arith}
use zaf.Prelude.Lists.{length, get_elem?, get_or, set, length-set}

module _ {ℓ} {A : Type ℓ} where
  -- The last of `x ∷ xs`.
  abbrev pub last_of : A → List A → A
  last_of x [] = x
  last_of x (y ∷ ys) = last_of y ys

  abbrev pub back : List A → Option A
  back [] = none
  back (x ∷ xs) = some (last_of x xs)

  abbrev pub pop_back : List A → List A
  pop_back [] = []
  pop_back (x ∷ []) = []
  pop_back (x ∷ y ∷ ys) = x ∷ pop_back (y ∷ ys)

  -- `v[i] = v.back()`
  abbrev pub assign_back : List A → ℕ → List A
  assign_back [] i = []
  assign_back (x ∷ xs) i = set (x ∷ xs) i (last_of x xs)

  -- `std::swap(v[i], v.back())`
  abbrev pub exchange_back : List A → ℕ → List A
  exchange_back [] i = []
  exchange_back (x ∷ xs) i =
      set (set (x ∷ xs) i (last_of x xs)) (length xs) (get_or (x ∷ xs) i (last_of x xs))

  -- What is left without the element at `i`.
  abbrev pub move_back : List A → ℕ → List A
  move_back l i = pop_back (assign_back l i)

  pub length-pop_back : (l : List A) → length (pop_back l) ≡ length l - 1
  length-pop_back [] = refl
  length-pop_back (x ∷ []) = refl
  length-pop_back (x ∷ y ∷ ys) = omega (arith, length-pop_back (y ∷ ys))

  pub pop_back-Perm : (x : A) (xs : List A) → Perm (last_of x xs ∷ pop_back (x ∷ xs)) (x ∷ xs)
  pop_back-Perm x [] = Perm.refl (x ∷ [])
  pop_back-Perm x (y ∷ ys) =
      Perm.trans (Perm.swap x (last_of y ys) (pop_back (y ∷ ys))) (Perm.cons x (pop_back-Perm y ys))

  pub move_back-suc :
      (x y : A) (ys : List A) (i : ℕ) → move_back (x ∷ y ∷ ys) (suc i) ≡ x ∷ move_back (y ∷ ys) i
  move_back-suc x y ys zero = refl
  move_back-suc x y ys (suc i) = refl

  pub move_back-append :
      (pre xs : List A) (x : A)
      → move_back (pre ++ x ∷ xs) (length pre) ≡ pre ++ move_back (x ∷ xs) 0
  move_back-append [] xs x = refl
  move_back-append (p ∷ []) xs x = move_back-suc p x xs 0
  move_back-append (p ∷ q ∷ pre) xs x =
      move_back-suc p q (pre ++ x ∷ xs) (length (q ∷ pre))
      ∙ ap (λ l. p ∷ l) (move_back-append (q ∷ pre) xs x)

  pub move_back-first : (x : A) (xs : List A) → Perm (move_back (x ∷ xs) 0) xs
  move_back-first x [] = Perm.refl []
  move_back-first x (y ∷ ys) = pop_back-Perm y ys

  -- The element at `i` and what is left are all elements.
  pub move_back-Perm :
      (l : List A) (i : ℕ) (d : A) → i < length l → Perm (get_or l i d ∷ move_back l i) l
  move_back-Perm [] i d h = absurd (omega arith)
  move_back-Perm (x ∷ xs) zero d h = Perm.cons x (move_back-first x xs)
  move_back-Perm (x ∷ []) (suc i) d h = absurd (omega arith)
  move_back-Perm (x ∷ y ∷ ys) (suc i) d h = rw (move_back-suc x y ys i) (
      Perm.trans (Perm.swap x (get_or (y ∷ ys) i d) (move_back (y ∷ ys) i))
        (Perm.cons x (move_back-Perm (y ∷ ys) i d (omega arith))))

  back-set_last : (n : ℕ) (l : List A) (v : A) → length l ≡ suc n → back (set l n v) ≡ some v
  back-set_last n [] v h = absurd (omega arith)
  back-set_last zero (x ∷ []) v h = refl
  back-set_last zero (x ∷ y ∷ ys) v h = absurd (omega arith)
  back-set_last (suc n) (x ∷ []) v h = absurd (omega arith)
  back-set_last (suc zero) (x ∷ y ∷ ys) v h = back-set_last zero (y ∷ ys) v (omega arith)
  back-set_last (suc (suc n)) (x ∷ y ∷ ys) v h = back-set_last (suc n) (y ∷ ys) v (omega arith)

  pub pop_back-set_last :
      (n : ℕ) (l : List A) (v : A) → length l ≡ suc n → pop_back (set l n v) ≡ pop_back l
  pop_back-set_last n [] v h = absurd (omega arith)
  pop_back-set_last zero (x ∷ []) v h = refl
  pop_back-set_last zero (x ∷ y ∷ ys) v h = absurd (omega arith)
  pop_back-set_last (suc n) (x ∷ []) v h = absurd (omega arith)
  pop_back-set_last (suc zero) (x ∷ y ∷ ys) v h =
      ap (λ l. x ∷ l) (pop_back-set_last zero (y ∷ ys) v (omega arith))
  pop_back-set_last (suc (suc n)) (x ∷ y ∷ ys) v h =
      ap (λ l. x ∷ l) (pop_back-set_last (suc n) (y ∷ ys) v (omega arith))

  -- After the swap the element is the last one, and `pop_back` leaves what `assign_back` leaves.
  pub back-exchange_back :
      (l : List A) (i : ℕ) (d : A) → i < length l → back (exchange_back l i) ≡ some (get_or l i d)
  back-exchange_back [] i d h = absurd (omega arith)
  back-exchange_back (x ∷ xs) i d h =
      let last = last_of x xs in
      back-set_last (length xs) (set (x ∷ xs) i last) _ (length-set (x ∷ xs) i last)
      ∙ ap some (get_or_any (x ∷ xs) i last d h)
    where
      get_or_any : (l : List A) (i : ℕ) (c d : A) → i < length l → get_or l i c ≡ get_or l i d
      get_or_any [] i c d h = absurd (omega arith)
      get_or_any (x ∷ xs) zero c d h = refl
      get_or_any (x ∷ xs) (suc i) c d h = get_or_any xs i c d (omega arith)

  pub pop_back-exchange_back : (l : List A) (i : ℕ) → pop_back (exchange_back l i) ≡ move_back l i
  pop_back-exchange_back [] i = refl
  pop_back-exchange_back (x ∷ xs) i =
      let last = last_of x xs in
      pop_back-set_last (length xs) (set (x ∷ xs) i last) _ (length-set (x ∷ xs) i last)

  pub length-move_back : (l : List A) (i : ℕ) → length (move_back l i) ≡ length l - 1
  length-move_back [] i = refl
  length-move_back (x ∷ xs) i =
      length-pop_back (set (x ∷ xs) i (last_of x xs))
      ∙ ap (λ n. n - 1) (length-set (x ∷ xs) i (last_of x xs))

-- The same on a field of records.
module _ {ℓ m} {A : Type ℓ} {B : Type m} (f : A → B) where
  pub length-map : (l : List A) → length (map f l) ≡ length l
  length-map [] = refl
  length-map (x ∷ xs) = ap suc (length-map xs)

  pub map-append : (xs ys : List A) → map f (xs ++ ys) ≡ map f xs ++ map f ys
  map-append [] ys = refl
  map-append (x ∷ xs) ys = ap (λ l. f x ∷ l) (map-append xs ys)

  last_of-map : (x : A) (xs : List A) → last_of (f x) (map f xs) ≡ f (last_of x xs)
  last_of-map x [] = refl
  last_of-map x (y ∷ ys) = last_of-map y ys

  map-set : (l : List A) (i : ℕ) (v : A) → map f (set l i v) ≡ set (map f l) i (f v)
  map-set [] i v = refl
  map-set (x ∷ xs) zero v = refl
  map-set (x ∷ xs) (suc i) v = ap (λ l. f x ∷ l) (map-set xs i v)

  pub map-pop_back : (l : List A) → map f (pop_back l) ≡ pop_back (map f l)
  map-pop_back [] = refl
  map-pop_back (x ∷ []) = refl
  map-pop_back (x ∷ y ∷ ys) = ap (λ l. f x ∷ l) (map-pop_back (y ∷ ys))

  pub map-move_back : (l : List A) (i : ℕ) → move_back (map f l) i ≡ map f (move_back l i)
  map-move_back [] i = refl
  map-move_back (x ∷ xs) i =
      ap (λ v. pop_back (set (map f (x ∷ xs)) i v)) (last_of-map x xs)
      ∙ ap pop_back (sym (map-set (x ∷ xs) i (last_of x xs)))
      ∙ sym (map-pop_back (set (x ∷ xs) i (last_of x xs)))

  pub get_or-map : (l : List A) (i : ℕ) (d : A) → get_or (map f l) i (f d) ≡ f (get_or l i d)
  get_or-map [] i d = refl
  get_or-map (x ∷ xs) zero d = refl
  get_or-map (x ∷ xs) (suc i) d = get_or-map xs i d

  pub get_elem?-map-append :
      (pre xs : List A) (x : A) → get_elem? (map f (pre ++ x ∷ xs)) (length pre) ≡ some (f x)
  get_elem?-map-append [] xs x = refl
  get_elem?-map-append (p ∷ pre) xs x = get_elem?-map-append pre xs x
