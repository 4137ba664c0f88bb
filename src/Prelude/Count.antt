-- ===== src/Prelude/Count.antt =====
-- How often a number is in a list. A permutation does not change it.
use Prim.Native.Nat.{ℕ, ◌+◌}
use mathlib.Core.Path.{◌≡◌, refl, ap, ◌∙◌}
use mathlib.Core.Logic.{∥∥₁_elim}
use native.Mathlib.Nat.{ℕ_set}
use mathlib.Core.List.{List, [], ◌∷◌, ◌++◌, Perm, Permᴰ}
use mathlib.Core.List.Permᴰ.{nil, cons, swap, trans}
use native.Mathlib.Omega.{arith}
use zaf.Prelude.Tests.{◌==◌, if◌then◌else◌}

abbrev pub hit : ℕ → ℕ → ℕ
hit a x = if a == x then 1 else 0

abbrev pub count : ℕ → List ℕ → ℕ
count a [] = 0
count a (x ∷ xs) = hit a x + count a xs

module _ (a : ℕ) where
  pub count-append : (front rest : List ℕ) → count a (front ++ rest) ≡ count a front + count a rest
  count-append [] rest = omega arith
  count-append (first ∷ front) rest =
      let shorter = count-append front rest in omega (arith, shorter)

count-Permᴰ : (a : ℕ) {xs ys : List ℕ} → Permᴰ xs ys → count a xs ≡ count a ys
count-Permᴰ a nil = refl
count-Permᴰ a (cons e d) = omega (arith, ap (hit a) e, count-Permᴰ a d)
count-Permᴰ a (swap e1 e2) = omega (arith, ap (hit a) e1, ap (hit a) e2)
count-Permᴰ a (trans d1 d2) = count-Permᴰ a d1 ∙ count-Permᴰ a d2

pub count-Perm : (a : ℕ) {xs ys : List ℕ} → Perm xs ys → count a xs ≡ count a ys
count-Perm a {xs} {ys} p = ∥∥₁_elim p (ℕ_set (count a xs) (count a ys)) (count-Permᴰ a)
